-- ===== src/Agent.antt =====
-- The agent's plan and how it applies one: src/netos_agent/core/value_objects/plan.py and
-- src/netos_agent/core/use_cases/apply_plan.py, over the adapters in memory (ovsdb_fake, dhcp_fake,
-- dns_fake, firewall_fake). Each adapter holds a mutex during a call, so a call is one step.
pub mod Invariant
pub mod Repetition
pub mod Results
use nervum.Prelude.{
  ℕ, String, Bool, true, false, not, ◌&&◌, Option, none, some, List, [], ◌∷◌, ◌++◌, Dict, lookup,
  contains, insert, erase, if◌then◌else◌,
}
use nervum.Errors.{is_ok, DomainError, Result, ok, err}
use nervum.Ovs.{
  Bridges, PortSpec, VxlanSpec, ensure_bridge, delete_bridge, ensure_port, delete_port,
  ensure_vxlan_port,
}
use nervum.AgentServices.{
  DhcpScopeSpec, DnsZoneSpec, NatRuleSpec, FirewallPolicySpec, dhcp_eq, zone_eq, nat_eq, policy_eq,
}

pub data PlanStep : Type 0 where
  ensure_bridge_step : String → String → Dict String → PlanStep
  delete_bridge_step : String → PlanStep
  ensure_port_step : String → PortSpec → PlanStep
  delete_port_step : String → String → PlanStep
  ensure_vxlan_port_step : String → VxlanSpec → PlanStep
  ensure_dhcp_scope_step : DhcpScopeSpec → PlanStep
  delete_dhcp_scope_step : String → PlanStep
  ensure_dns_zone_step : DnsZoneSpec → PlanStep
  delete_dns_zone_step : String → PlanStep
  ensure_nat_rule_step : NatRuleSpec → PlanStep
  delete_nat_rule_step : String → PlanStep
  ensure_firewall_policy_step : FirewallPolicySpec → PlanStep
  delete_firewall_policy_step : String → PlanStep

abbrev pub action : PlanStep → String
action (ensure_bridge_step _ _ _) = "ensure_bridge"
action (delete_bridge_step _) = "delete_bridge"
action (ensure_port_step _ _) = "ensure_port"
action (delete_port_step _ _) = "delete_port"
action (ensure_vxlan_port_step _ _) = "ensure_vxlan_port"
action (ensure_dhcp_scope_step _) = "ensure_dhcp_scope"
action (delete_dhcp_scope_step _) = "delete_dhcp_scope"
action (ensure_dns_zone_step _) = "ensure_dns_zone"
action (delete_dns_zone_step _) = "delete_dns_zone"
action (ensure_nat_rule_step _) = "ensure_nat_rule"
action (delete_nat_rule_step _) = "delete_nat_rule"
action (ensure_firewall_policy_step _) = "ensure_firewall_policy"
action (delete_firewall_policy_step _) = "delete_firewall_policy"

pub record Plan : Type 0 where
  pub plan_id : String
  pub steps : List PlanStep

pub record PlanStepResult : Type 0 where
  pub action : String
  pub ok : Bool
  pub changed : Bool
  pub message : String
  pub code : Option DomainError

pub record PlanResult : Type 0 where
  pub plan_id : String
  pub ok : Bool
  pub steps : List PlanStepResult

-- The state of the four adapters: `_bridges`, `_scopes`, `_zones`, `_nat` and `_policies`.
pub record Host : Type 0 where
  pub bridges : Bridges
  pub scopes : Dict DhcpScopeSpec
  pub zones : Dict DnsZoneSpec
  pub nat : Dict NatRuleSpec
  pub policies : Dict FirewallPolicySpec

-- The body that the `apply` methods share, whose `validate` calls do nothing: `if existing == spec: return False`, else store it.
module _ {V : Type 0} (same : V → V → Bool) where
  abbrev pub is_stored : Option V → V → Bool
  is_stored none v = false
  is_stored (some w) v = same w v

  unfoldable pub store_entry : String → V → Dict V → Bool × Dict V
  store_entry k v d =
      let there = is_stored (lookup k d) v in (not there, if there then d else insert k v d)

unfoldable pub apply_scope : DhcpScopeSpec → Dict DhcpScopeSpec → Bool × Dict DhcpScopeSpec
apply_scope spec = store_entry dhcp_eq spec.scope_id spec

unfoldable pub apply_zone : DnsZoneSpec → Dict DnsZoneSpec → Bool × Dict DnsZoneSpec
apply_zone spec = store_entry zone_eq spec.zone spec

unfoldable pub apply_nat : NatRuleSpec → Dict NatRuleSpec → Bool × Dict NatRuleSpec
apply_nat spec = store_entry nat_eq spec.rule_id spec

unfoldable pub apply_policy :
    FirewallPolicySpec → Dict FirewallPolicySpec → Bool × Dict FirewallPolicySpec
apply_policy spec = store_entry policy_eq spec.policy_id spec

-- `self._entries.pop(k, None) is not None`
unfoldable pub delete_entry : {V : Type 0} → String → Dict V → Bool × Dict V
delete_entry k d = (contains k d, erase k d)

abbrev with_bridges : Host → Bool × Bridges → Bool × Host
with_bridges h (changed, b) = (changed, record h { bridges = b })

abbrev with_scopes : Host → Bool × Dict DhcpScopeSpec → Bool × Host
with_scopes h (changed, d) = (changed, record h { scopes = d })

abbrev with_zones : Host → Bool × Dict DnsZoneSpec → Bool × Host
with_zones h (changed, d) = (changed, record h { zones = d })

abbrev with_nat : Host → Bool × Dict NatRuleSpec → Bool × Host
with_nat h (changed, d) = (changed, record h { nat = d })

abbrev with_policies : Host → Bool × Dict FirewallPolicySpec → Bool × Host
with_policies h (changed, d) = (changed, record h { policies = d })

-- What `ensure_port` and its like return, with the host that is left.
abbrev pub on_bridges : Host → Result (Bool × Bridges) → Result (Bool × Host)
on_bridges h (ok r) = ok (with_bridges h r)
on_bridges h (err e) = err e

unfoldable pub apply_step : PlanStep → Host → Result (Bool × Host)
apply_step (ensure_bridge_step name type ids) h =
    ok (with_bridges h (ensure_bridge name type ids h.bridges))
apply_step (delete_bridge_step name) h = ok (with_bridges h (delete_bridge name h.bridges))
apply_step (ensure_port_step bridge spec) h = on_bridges h (ensure_port bridge spec h.bridges)
apply_step (delete_port_step bridge name) h = on_bridges h (delete_port bridge name h.bridges)
apply_step (ensure_vxlan_port_step bridge spec) h =
    on_bridges h (ensure_vxlan_port bridge spec h.bridges)
apply_step (ensure_dhcp_scope_step spec) h = ok (with_scopes h (apply_scope spec h.scopes))
apply_step (delete_dhcp_scope_step scope_id) h = ok (with_scopes h (delete_entry scope_id h.scopes))
apply_step (ensure_dns_zone_step spec) h = ok (with_zones h (apply_zone spec h.zones))
apply_step (delete_dns_zone_step zone) h = ok (with_zones h (delete_entry zone h.zones))
apply_step (ensure_nat_rule_step spec) h = ok (with_nat h (apply_nat spec h.nat))
apply_step (delete_nat_rule_step rule_id) h = ok (with_nat h (delete_entry rule_id h.nat))
apply_step (ensure_firewall_policy_step spec) h =
    ok (with_policies h (apply_policy spec h.policies))
apply_step (delete_firewall_policy_step policy_id) h =
    ok (with_policies h (delete_entry policy_id h.policies))

-- The result that is appended for a step, and the host that the next step finds: a step that raised
-- has changed nothing.
abbrev pub step_result : PlanStep → Result (Bool × Host) → PlanStepResult
step_result step (ok (changed, _)) = record {
  action = action step;
  ok = true;
  changed = changed;
  message = if changed then "applied" else "noop";
  code = none;
}
step_result step (err e) = record {
  action = action step;
  ok = false;
  changed = false;
  message = "";
  code = some e;
}

abbrev pub left_by : Host → Result (Bool × Host) → Host
left_by h (ok (_, after)) = after
left_by h (err _) = h

-- The loop of `execute`, with `overall_ok` as it was before a step: the results, the flag and the
-- host at the end.
unfoldable pub run_steps : List PlanStep → Bool → Host → List PlanStepResult × Bool × Host
run_steps [] overall_ok h = ([], overall_ok, h)
run_steps (step ∷ steps) overall_ok h =
    let outcome = apply_step step h in
    let rest = run_steps steps (is_ok outcome && overall_ok) (left_by h outcome) in
    (step_result step outcome ∷ rest.0, rest.1, rest.2)

unfoldable pub execute : Plan → Host → PlanResult × Host
execute plan h =
    let (results, overall_ok, after) = run_steps plan.steps true h in
    (record { plan_id = plan.plan_id; ok = overall_ok; steps = results }, after)
