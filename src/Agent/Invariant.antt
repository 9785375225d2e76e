-- ===== src/Agent/Invariant.antt =====
-- What every step of a plan keeps true of the agent's adapters in memory
-- (src/netos_agent/core/use_cases/apply_plan.py).
use nervum.Prelude.{
  ◌≡◌, refl, Bool, List, [], ◌∷◌, Dict, lookup, IsDict, insert-IsDict, erase-IsDict, String,
  Bool-cases, inl, inr,
}
use nervum.Errors.{Result, ok, err}
use nervum.Ovs.{Bridges, vxlan_port, ensure_port, ensure_vxlan_port, delete_port}
use nervum.Ovs.Database.{
  IsDatabase, ensure_bridge-IsDatabase, delete_bridge-IsDatabase, ensure_port-IsDatabase,
  delete_port-IsDatabase,
}
use nervum.Agent.{
  policy_eq, nat_eq, zone_eq, dhcp_eq, ensure_bridge_step, delete_bridge_step, ensure_port_step,
  delete_port_step, ensure_vxlan_port_step, ensure_dhcp_scope_step, delete_dhcp_scope_step,
  ensure_dns_zone_step, delete_dns_zone_step, ensure_nat_rule_step, delete_nat_rule_step,
  ensure_firewall_policy_step, delete_firewall_policy_step, delete_bridge_step, apply_policy,
  apply_nat, apply_zone, apply_scope, PlanStep, Host, apply_step, run_steps, store_entry,
  delete_entry, is_stored, left_by, on_bridges,
}

abbrev pub IsHost : Host → Type 0
IsHost h =
    IsDatabase h.bridges × IsDict h.scopes × IsDict h.zones × IsDict h.nat × IsDict h.policies

module _ {V : Type 0} where
  store_entry-IsDict :
      (same : V → V → Bool) (k : String) (v : V) (d : Dict V)
      → IsDict d
      → IsDict ((store_entry same k v d).1)
  unfolding store_entry
  store_entry-IsDict same k v d h = elim (Bool-cases (is_stored same (lookup k d) v)) [
    | inl e ↦ rw e h
    | inr e ↦ rw e (insert-IsDict k v d h)
  ]

  delete_entry-IsDict : (k : String) (d : Dict V) → IsDict d → IsDict ((delete_entry k d).1)
  unfolding delete_entry
  delete_entry-IsDict k d h = erase-IsDict k d h

-- A call on the bridges that keeps their invariant keeps that of the host.
on_bridges-IsHost :
    (h : Host) (outcome : Result (Bool × Bridges))
    → IsHost h
    → ((changed : Bool) (after : Bridges) → outcome ≡ ok (changed, after) → IsDatabase after)
    → IsHost (left_by h (on_bridges h outcome))
on_bridges-IsHost h (ok (changed, after)) w keeps = (keeps changed after refl, w.1, w.2, w.3, w.4)
on_bridges-IsHost h (err e) w keeps = w

pub apply_step-IsHost :
    (step : PlanStep) (h : Host) → IsHost h → IsHost (left_by h (apply_step step h))
unfolding apply_step apply_scope apply_zone apply_nat apply_policy ensure_vxlan_port
apply_step-IsHost (ensure_bridge_step name type ids) h w =
    (ensure_bridge-IsDatabase name type ids h.bridges w.0, w.1, w.2, w.3, w.4)
apply_step-IsHost (delete_bridge_step name) h w =
    (delete_bridge-IsDatabase name h.bridges w.0, w.1, w.2, w.3, w.4)
apply_step-IsHost (ensure_port_step bridge spec) h w =
    on_bridges-IsHost h (ensure_port bridge spec h.bridges) w
      (ensure_port-IsDatabase bridge spec h.bridges w.0)
apply_step-IsHost (delete_port_step bridge name) h w =
    on_bridges-IsHost h (delete_port bridge name h.bridges) w
      (delete_port-IsDatabase bridge name h.bridges w.0)
apply_step-IsHost (ensure_vxlan_port_step bridge spec) h w =
    on_bridges-IsHost h (ensure_vxlan_port bridge spec h.bridges) w
      (ensure_port-IsDatabase bridge (vxlan_port spec) h.bridges w.0)
apply_step-IsHost (ensure_dhcp_scope_step spec) h w =
    (w.0, store_entry-IsDict dhcp_eq spec.scope_id spec h.scopes w.1, w.2, w.3, w.4)
apply_step-IsHost (delete_dhcp_scope_step k) h w =
    (w.0, delete_entry-IsDict k h.scopes w.1, w.2, w.3, w.4)
apply_step-IsHost (ensure_dns_zone_step spec) h w =
    (w.0, w.1, store_entry-IsDict zone_eq spec.zone spec h.zones w.2, w.3, w.4)
apply_step-IsHost (delete_dns_zone_step k) h w =
    (w.0, w.1, delete_entry-IsDict k h.zones w.2, w.3, w.4)
apply_step-IsHost (ensure_nat_rule_step spec) h w =
    (w.0, w.1, w.2, store_entry-IsDict nat_eq spec.rule_id spec h.nat w.3, w.4)
apply_step-IsHost (delete_nat_rule_step k) h w =
    (w.0, w.1, w.2, delete_entry-IsDict k h.nat w.3, w.4)
apply_step-IsHost (ensure_firewall_policy_step spec) h w =
    (w.0, w.1, w.2, w.3, store_entry-IsDict policy_eq spec.policy_id spec h.policies w.4)
apply_step-IsHost (delete_firewall_policy_step k) h w =
    (w.0, w.1, w.2, w.3, delete_entry-IsDict k h.policies w.4)

-- If the bridges and ports of a host stand under their names and no key of an adapter is listed
-- twice, so it is after the steps of any plan, also when some of them fail.
pub run_steps-IsHost :
    (steps : List PlanStep) (overall_ok : Bool) (h : Host)
    → IsHost h
    → IsHost ((run_steps steps overall_ok h).2)
unfolding run_steps
run_steps-IsHost [] overall_ok h w = w
run_steps-IsHost (step ∷ steps) overall_ok h w =
    run_steps-IsHost steps _ (left_by h (apply_step step h)) (apply_step-IsHost step h w)
