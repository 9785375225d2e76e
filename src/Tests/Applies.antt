-- ===== src/Tests/Applies.antt =====
-- A network on one node and its agent (src/sdn_controller/core/use_cases/reconcile.py).
use nervum.Prelude.{
  sort_items, decimal, ◌≡◌, refl, arith, String, true, false, Option, none, some, [], ◌∷◌, Dict,
  lookup, insert, eq_iff, inl,
}
use nervum.Operation.{
  network_apply, transition_to, accept, allowed_transitions, log, Operation, succeeded,
}
use nervum.Node.{online, Node}
use nervum.Network.{Network, flat}
use nervum.Locks.{current_owner, try_lock, release}
use nervum.Ovs.Dumps.{OvsState, to_state}
use nervum.Agent.{run_steps, apply_step, Host, Plan, PlanResult, execute}
use nervum.Apply.{when_acquired, conclude, fail, save_and_publish, lock_key, apply_network}
use nervum.Apply.Phases.{
  phases, plan_phase, move, now, plan_nodes, observe_nodes, get_node, observe_node, get_state,
  save_report, save_observed, make_plans, note, apply_plan, gather_peers, run_phase, run_plans,
  verify_phase, verify_plans,
}
use nervum.Planning.{
  edge_service_steps, dhcp_steps, dns_steps, nat_steps, policy_steps, bridge_changed, bridge_drifts,
  bridge_name, bridge_steps, diff_for_node, find_port, is_edge_node, is_in_compliance, vxlan_steps,
}
use nervum.Planning.Observed.{find_bridge, state_view_to_observed}
use nervum.Planning.Planner.{peers_of, plan_for_network, plans_for}
use nervum.Ovs.{ensure_bridge}
use nervum.Planning.Observed.{ObservedState}
use nervum.Apply.Compliance.{apply_network_verifies}
use nervum.Apply.Outcomes.{apply_network_ends, EndsWell}
use nervum.Apply.Exclusion.{apply_network_excluded}
use nervum.Apply.Tasks.{Outcome, returned, raised}
use nervum.Apply.Setting.{AgentPort, Texts, World, Services, an_error, already_running}

abbrev lone : Network
lone = record {
  id = "net_1";
  name = "blue";
  type = flat;
  created_at = 0;
  updated_at = 0;
  mtu = 1450;
  vlan_id = none;
  vni = none;
  subnet = none;
  intent_version = 1;
  labels = [];
  node_ids = "node_a1" ∷ [];
  nat = none;
  firewall_policy = none;
  spec_hash = "";
  project_id = none;
}

abbrev node_a : Node
node_a = record {
  id = "node_a1";
  name = "a";
  mgmt_ip = "10.0.0.1";
  created_at = 0;
  updated_at = 0;
  status = online;
  roles = [];
  labels = [];
  agent_version = none;
  last_seen_at = none;
  capabilities = none;
  tls_thumbprint = none;
  project_id = none;
  maintenance = false;
  maintenance_at = none;
}

abbrev bare : Host
bare = record { bridges = []; scopes = []; zones = []; nat = []; policies = [] }

-- Agents in memory.
abbrev view_of : Option Host → Dict Host → Outcome (OvsState × String) × Dict Host
view_of none hosts = (raised (an_error "not_found" "no agent" []), hosts)
view_of (some h) hosts = (returned (to_state none h.bridges, "hash"), hosts)

abbrev run_on : Option Host → String → Plan → Dict Host → Outcome PlanResult × Dict Host
run_on none node_id plan hosts = (raised (an_error "not_found" "no agent" []), hosts)
run_on (some h) node_id plan hosts =
    let (result, after) = execute plan h in (returned result, insert node_id after hosts)

abbrev in_memory : AgentPort (Dict Host)
in_memory = record {
  get_state = λ node_id hosts. view_of (lookup node_id hosts) hosts;
  apply_plan = λ node_id plan hosts. run_on (lookup node_id hosts) node_id plan hosts;
}

abbrev texts : Texts
texts = record {
  repr = λ s. s;
  optional = λ o. "";
  flag = λ b. "";
  plans = λ ps. "";
  results = λ rs. "";
}

abbrev services : Services (Dict Host)
services = record { agent = in_memory; texts = texts; clock = λ n. n; new_id = λ n. "op" }

abbrev idle : World (Dict Host)
idle = record {
  networks = ("net_1", lone) ∷ [];
  nodes = ("node_a1", node_a) ∷ [];
  observed = [];
  operations = [];
  held = [];
  outbox = [];
  agents = ("node_a1", bare) ∷ [];
  ticks = 0;
  next_id = 0;
}

-- The operation that an apply returned.
abbrev told_of : Outcome (Network × Operation) → Operation
told_of (returned (n, op)) = op
told_of (raised e) = accept "" network_apply (record { type = ""; id = "" }) 0 none ""

abbrev applied : Operation
applied = told_of (apply_network services "net_1" none idle).0

converges :
    ((apply_network services "net_1" none idle).0 ≡ returned (lone, applied))
    × (applied.status ≡ succeeded)
unfolding apply_network when_acquired try_lock conclude phases plan_phase move now transition_to
    accept plan_nodes observe_nodes get_node observe_node get_state save_report save_observed
    make_plans note apply_plan gather_peers run_phase run_plans verify_phase verify_plans fail
    save_and_publish current_owner release allowed_transitions log edge_service_steps dhcp_steps
    dns_steps nat_steps policy_steps find_bridge state_view_to_observed peers_of plan_for_network
    plans_for bridge_changed bridge_drifts bridge_name bridge_steps diff_for_node find_port
    is_edge_node is_in_compliance vxlan_steps sort_items decimal execute run_steps apply_step
    ensure_bridge to_state
converges = (refl, refl)

apply_network_verifies_example :
    (o : ObservedState) × (lookup "node_a1" ((apply_network services "net_1" none idle).1.observed)
      ≡ some o)
    × (is_in_compliance lone "node_a1" (peers_of idle.nodes lone.node_ids) o ≡ true)
apply_network_verifies_example =
    apply_network_verifies services "net_1" none idle lone applied refl converges.0 converges.1
      "node_a1" (inl refl)

abbrev locked_by : World (Dict Host)
locked_by = record idle { held = (lock_key "net_1", ("op_1", 300000000)) ∷ [] }

granted : (try_lock 0 (lock_key "net_1") "op" 300 []).1 ≡ true
unfolding try_lock
granted = refl

apply_network_ends_example :
    EndsWell services "net_1" none idle lone (apply_network services "net_1" none idle)
apply_network_ends_example = apply_network_ends services "net_1" none idle lone refl tt granted

apply_network_excluded_example : apply_network services "net_1" none locked_by ≡ (
  raised (already_running texts "net_1" (some "op_1")),
  record locked_by { ticks = 2; next_id = 1 },
)
apply_network_excluded_example =
    apply_network_excluded services "net_1" none locked_by lone "op_1" 300000000 refl refl
      (λ e. ground (arith, eq_iff "op_1" "op")) (omega arith) (omega arith)
