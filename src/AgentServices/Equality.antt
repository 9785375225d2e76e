-- ===== src/AgentServices/Equality.antt =====
-- Equality of the agent's edge-service values is reflexive
-- (src/netos_agent/core/value_objects/edge_services.py).
use nervum.Prelude.{
  ◌≡◌, refl, true, String, ℕ, Option, none, some, List, [], ◌∷◌, arith, ◌==◌, eq_refl, opt_str_eq,
  opt_eq, strs_eq,
}
use nervum.EdgeServices.{FirewallAction}
use nervum.AgentServices.{
  proto_number, DhcpScopeSpec, DnsRecord, DnsZoneSpec, NatRuleSpec, FirewallRuleSpec,
  FirewallPolicySpec, dhcp_eq, records_eq, zone_eq, nat_eq, action_eq, rules_eq, policy_eq,
}

opt_str_eq_refl : (o : Option String) → opt_str_eq o o ≡ true
opt_str_eq_refl none = refl
opt_str_eq_refl (some s) = eq_refl s

opt_eq_refl : (o : Option ℕ) → opt_eq o o ≡ true
opt_eq_refl none = refl
opt_eq_refl (some n) = ground arith

strs_eq_refl : (ss : List String) → strs_eq ss ss ≡ true
strs_eq_refl [] = refl
strs_eq_refl (s ∷ ss) = rw (eq_refl s) (strs_eq_refl ss)

==_refl : (n : ℕ) → (n == n) ≡ true
==_refl n = ground arith

pub dhcp_eq_refl : (a : DhcpScopeSpec) → dhcp_eq a a ≡ true
dhcp_eq_refl a = simp (
  eq_refl a.scope_id,
  eq_refl a.cidr,
  eq_refl a.range_start,
  eq_refl a.range_end,
  opt_str_eq_refl a.gateway,
  strs_eq_refl a.dns_servers,
  ==_refl a.lease_time_seconds,
  opt_str_eq_refl a.domain_name,
)

records_eq_refl : (rs : List DnsRecord) → records_eq rs rs ≡ true
records_eq_refl [] = refl
records_eq_refl (r ∷ rs) =
    simp
      (eq_refl r.name, eq_refl r.type, eq_refl r.value, ==_refl r.ttl_seconds, records_eq_refl rs)

pub zone_eq_refl : (a : DnsZoneSpec) → zone_eq a a ≡ true
zone_eq_refl a = simp (eq_refl a.zone, records_eq_refl a.records, eq_refl a.soa_email)

pub nat_eq_refl : (a : NatRuleSpec) → nat_eq a a ≡ true
nat_eq_refl a = simp (eq_refl a.rule_id, eq_refl a.source_cidr, eq_refl a.egress_interface)

action_eq_refl : (a : FirewallAction) → action_eq a a ≡ true
action_eq_refl FirewallAction.accept = refl
action_eq_refl FirewallAction.drop = refl

rules_eq_refl : (rs : List FirewallRuleSpec) → rules_eq rs rs ≡ true
rules_eq_refl [] = refl
rules_eq_refl (r ∷ rs) = simp (
  action_eq_refl r.action,
  ==_refl (proto_number r.proto),
  opt_str_eq_refl r.source_cidr,
  opt_str_eq_refl r.destination_cidr,
  opt_eq_refl r.destination_port_start,
  opt_eq_refl r.destination_port_end,
  rules_eq_refl rs,
)

pub policy_eq_refl : (a : FirewallPolicySpec) → policy_eq a a ≡ true
policy_eq_refl a =
    simp (eq_refl a.policy_id, action_eq_refl a.default_action, rules_eq_refl a.rules)
