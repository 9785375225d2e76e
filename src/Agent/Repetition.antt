-- ===== src/Agent/Repetition.antt =====
-- A step of a plan is idempotent on the agent's adapters in memory: the signal `changed` that
-- src/netos_agent/core/use_cases/apply_plan.py passes on.
use nervum.Prelude.{
  contains_absent, ◌≡◌, refl, ◌∙◌, subst, Bool, true, false, Dict, lookup, insert, erase, IsDict,
  String, Bool-cases, inl, inr, lookup-insert_self, lookup-erase_self, erase-absent, insert-insert,
  Option-cases,
}
use nervum.Errors.{Result, ok, err, is_ok}
use nervum.Ovs.{
  Bridge, Bridges, vxlan_port, ensure_port, ensure_vxlan_port, delete_port, delete_bridge,
}
use nervum.Ovs.Database.{IsDatabase, delete_port-found, delete_port-missing}
use nervum.Ovs.Idempotence.{tunnel_options-IsDict, ensure_bridge-again, ensure_port-again}
use nervum.AgentServices.Equality.{dhcp_eq_refl, zone_eq_refl, nat_eq_refl, policy_eq_refl}
use nervum.Agent.Invariant.{IsHost}
use nervum.Agent.{
  policy_eq, nat_eq, zone_eq, dhcp_eq, apply_policy, apply_nat, apply_zone, apply_scope,
  ensure_bridge_step, delete_bridge_step, ensure_port_step, delete_port_step,
  ensure_vxlan_port_step, ensure_dhcp_scope_step, delete_dhcp_scope_step, ensure_dns_zone_step,
  delete_dns_zone_step, ensure_nat_rule_step, delete_nat_rule_step, ensure_firewall_policy_step,
  delete_firewall_policy_step, PlanStep, Host, apply_step, store_entry, delete_entry, is_stored,
  left_by, on_bridges,
}

-- The dicts of a step are dicts: no key is given twice.
abbrev pub IsStep : PlanStep → Type 0
IsStep (ensure_bridge_step name type ids) = IsDict ids
IsStep (ensure_port_step bridge spec) = IsDict spec.options × IsDict spec.external_ids
IsStep (ensure_vxlan_port_step bridge spec) = IsDict spec.external_ids
IsStep _ = Unit

module _ {V : Type 0} where
  store_entry-again :
      (same : V → V → Bool) (k : String) (v : V) (d : Dict V)
      → same v v ≡ true
      → store_entry same k v ((store_entry same k v d).1) ≡ (false, (store_entry same k v d).1)
  unfolding store_entry
  store_entry-again same k v d h = elim (Bool-cases (is_stored same (lookup k d) v)) [
    | inl e ↦ rw e (rw e refl)
    | inr e ↦ rw e (rw (lookup-insert_self k v d) (rw h refl))
  ]

  delete_entry-again :
      (k : String) (d : Dict V)
      → IsDict d
      → delete_entry k ((delete_entry k d).1) ≡ (false, (delete_entry k d).1)
  unfolding delete_entry
  delete_entry-again k d h =
      let gone = lookup-erase_self k d h in
      rw (contains_absent k (erase k d) gone, erase-absent k (erase k d) gone) refl

delete_bridge-again :
    (name : String) (bridges : Bridges)
    → IsDatabase bridges
    → delete_bridge name ((delete_bridge name bridges).1) ≡ (false, (delete_bridge name bridges).1)
unfolding delete_bridge
delete_bridge-again name bridges h =
    let gone = lookup-erase_self name bridges h.0 in
    rw (contains_absent name (erase name bridges) gone, erase-absent name (erase name bridges) gone)
      refl

delete_port-again :
    (bridge name : String) (bridges : Bridges)
    → IsDatabase bridges
    → (changed : Bool) (after : Bridges) → delete_port bridge name bridges ≡ ok (changed, after)
    → delete_port bridge name after ≡ ok (false, after)
delete_port-again bridge name bridges h changed after e =
    elim (Option-cases (lookup bridge bridges)) [
      | inl gone ↦ cc (e, delete_port-missing bridge name bridges gone)
      | inr (br, found) ↦
          let rest : Bridge = record br { ports = erase name br.ports } in
          let left : insert bridge rest bridges ≡ after =
            cc (e, delete_port-found bridge name bridges br found) in
          let absent = lookup-erase_self name br.ports (h.1 bridge br found).1.0 in
          subst (λ a. delete_port bridge name a ≡ ok (false, a)) left
            (delete_port-found bridge name (insert bridge rest bridges) rest
                (lookup-insert_self bridge rest bridges)
              ∙ rw
                  (
                    contains_absent name (erase name br.ports) absent,
                    erase-absent name (erase name br.ports) absent,
                  )
                  (rw (insert-insert bridge rest rest bridges) refl))
    ]

on_bridges-again :
    (call : Bridges → Result (Bool × Bridges)) (h : Host) (outcome : Result (Bool × Bridges))
    → call h.bridges ≡ outcome
    → ((changed : Bool) (after : Bridges)
        → call h.bridges ≡ ok (changed, after)
        → call after ≡ ok (false, after))
    → is_ok (on_bridges h outcome) ≡ true
    → on_bridges
        (left_by h (on_bridges h outcome))
        (call (left_by h (on_bridges h outcome)).bridges)
      ≡ ok (false, left_by h (on_bridges h outcome))
on_bridges-again call h (ok (changed, after)) e again r = rw (again changed after e) refl
on_bridges-again call h (err x) e again r = cc r

-- On a host whose bridges and ports stand under their names and that lists no key twice, a step
-- that succeeded and whose dicts give no key twice, applied again to the host that it left,
-- succeeds, reports that nothing changed and leaves the host as it is.
pub apply_step-again :
    (step : PlanStep) (h : Host)
    → IsHost h
    → IsStep step
    → is_ok (apply_step step h) ≡ true
    → apply_step step (left_by h (apply_step step h)) ≡ ok (false, left_by h (apply_step step h))
unfolding apply_step apply_scope apply_zone apply_nat apply_policy ensure_vxlan_port
apply_step-again (ensure_bridge_step name type ids) h w s r =
    rw (ensure_bridge-again name type ids h.bridges s) refl
apply_step-again (delete_bridge_step name) h w s r =
    rw (delete_bridge-again name h.bridges w.0) refl
apply_step-again (ensure_port_step bridge spec) h w s r =
    on_bridges-again (ensure_port bridge spec) h _ refl
      (ensure_port-again bridge spec h.bridges s.0 s.1) r
apply_step-again (delete_port_step bridge name) h w s r =
    on_bridges-again (delete_port bridge name) h _ refl
      (delete_port-again bridge name h.bridges w.0) r
apply_step-again (ensure_vxlan_port_step bridge spec) h w s r =
    on_bridges-again (ensure_vxlan_port bridge spec) h _ refl
      (ensure_port-again bridge (vxlan_port spec) h.bridges (tunnel_options-IsDict spec) s) r
apply_step-again (ensure_dhcp_scope_step spec) h w s r =
    rw (store_entry-again dhcp_eq spec.scope_id spec h.scopes (dhcp_eq_refl spec)) refl
apply_step-again (delete_dhcp_scope_step k) h w s r = rw (delete_entry-again k h.scopes w.1) refl
apply_step-again (ensure_dns_zone_step spec) h w s r =
    rw (store_entry-again zone_eq spec.zone spec h.zones (zone_eq_refl spec)) refl
apply_step-again (delete_dns_zone_step k) h w s r = rw (delete_entry-again k h.zones w.2) refl
apply_step-again (ensure_nat_rule_step spec) h w s r =
    rw (store_entry-again nat_eq spec.rule_id spec h.nat (nat_eq_refl spec)) refl
apply_step-again (delete_nat_rule_step k) h w s r = rw (delete_entry-again k h.nat w.3) refl
apply_step-again (ensure_firewall_policy_step spec) h w s r =
    rw (store_entry-again policy_eq spec.policy_id spec h.policies (policy_eq_refl spec)) refl
apply_step-again (delete_firewall_policy_step k) h w s r =
    rw (delete_entry-again k h.policies w.4) refl
