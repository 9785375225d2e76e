-- ===== src/Tests/Hosts.antt =====
-- Runs of the agent's plan on small hosts, and the theorems on plans at such runs.
use nervum.Prelude.{◌≡◌, refl, true, false, none, some, [], ◌∷◌, String, Dict, all}
use nervum.Errors.{ok}
use nervum.Ovs.{VxlanSpec, ensure_vxlan_port, ensure_port, require_bridge, ensure_bridge}
use nervum.Agent.{
  Plan, PlanStep, Host, apply_step, execute, run_steps, left_by, ensure_bridge_step,
  ensure_vxlan_port_step,
}
use nervum.Agent.Invariant.{IsHost, run_steps-IsHost}
use nervum.Agent.Results.{Run, execute-Run}
use nervum.Agent.Repetition.{apply_step-again}

abbrev empty_host : Host
empty_host = record { bridges = []; scopes = []; zones = []; nat = []; policies = [] }

abbrev ids : Dict String
ids = ("owner", "sdn-controller") ∷ ("network_id", "net_1") ∷ []

abbrev tunnel : VxlanSpec
tunnel = record {
  name = "vx-7-node_b";
  vni = 7;
  remote_ip = "10.0.0.2";
  local_ip = none;
  dst_port = 4789;
  mtu = some 1450;
  external_ids = ids;
}

abbrev bridge_step : PlanStep
bridge_step = ensure_bridge_step "br-a" "system" ids

abbrev tunnel_step : PlanStep
tunnel_step = ensure_vxlan_port_step "br-a" tunnel

abbrev plan : Plan
plan = record { plan_id = "op_1"; steps = tunnel_step ∷ bridge_step ∷ tunnel_step ∷ [] }

-- The tunnel comes before its bridge: the step fails, and the later steps run.
plan_fails : (execute plan empty_host).0.ok ≡ false
unfolding execute run_steps apply_step ensure_vxlan_port ensure_port require_bridge ensure_bridge
plan_fails = refl

empty_host-IsHost : IsHost empty_host
empty_host-IsHost = ((tt, λ k b e. cc e), tt, tt, tt, tt)

run_steps-IsHost_example : IsHost ((run_steps plan.steps true empty_host).2)
run_steps-IsHost_example = run_steps-IsHost plan.steps true empty_host empty_host-IsHost

execute-Run_example :
    Run plan.steps empty_host ((execute plan empty_host).0.steps) ((execute plan empty_host).1)
    × ((execute plan empty_host).0.ok ≡ all (λ r. r.ok) ((execute plan empty_host).0.steps))
execute-Run_example = execute-Run plan empty_host

apply_step-again_example :
    apply_step bridge_step (left_by empty_host (apply_step bridge_step empty_host))
    ≡ ok (false, left_by empty_host (apply_step bridge_step empty_host))
unfolding apply_step
apply_step-again_example =
    apply_step-again bridge_step empty_host empty_host-IsHost (refl, (refl, tt)) refl
