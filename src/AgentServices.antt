-- ===== src/AgentServices.antt =====
-- The agent's edge-service values, src/netos_agent/core/value_objects/edge_services.py. Each
-- `__post_init__` is a function that returns the value or raises; equality is the one that a
-- frozen dataclass has, field by field. `network_of` is `ip_network(text, strict=False)`, whether
-- it returns.
pub mod Equality
use nervum.Prelude.{
  last_chars, ℕ, String, Bool, true, false, not, ◌&&◌, ◌||◌, Option, none, some, List, [], ◌∷◌, ltb,
  ◌==◌, is_some, is_empty, str_eq, opt_str_eq, opt_eq, strs_eq,
}
use nervum.Errors.{Result, ok, validation_error, raise_if, or_raise, for_each, ◌>>=◌, ◌>>◌}
use nervum.Address.{IpSyntax, IpNetwork, to_int, in_network}
use nervum.EdgeServices.{
  FirewallAction, FirewallProto, icmp, is_icmp, has_char, check_cidr, check_ports,
}

pub record DhcpScopeSpec : Type 0 where
  pub scope_id : String
  pub cidr : String
  pub range_start : String
  pub range_end : String
  pub gateway : Option String
  pub dns_servers : List String
  pub lease_time_seconds : ℕ
  pub domain_name : Option String

-- `if gateway is not None: …`
check_gateway : IpSyntax → IpNetwork → Option String → Result (Unit {0})
check_gateway ip net none = ok tt
check_gateway ip net (some text) = do
  gw ← or_raise (ip.ip_address text) validation_error
  raise_if (not (in_network gw net)) validation_error

check_server : IpSyntax → String → Result (Unit {0})
check_server ip srv = raise_if (not (is_some (ip.ip_address srv))) validation_error

unfoldable pub make_dhcp_scope : IpSyntax → DhcpScopeSpec → Result DhcpScopeSpec
unfolding check_gateway check_server
make_dhcp_scope ip spec = do
  net ← or_raise (ip.ip_network spec.cidr) validation_error
  start ← or_raise (ip.ip_address spec.range_start) validation_error
  end ← or_raise (ip.ip_address spec.range_end) validation_error
  raise_if (not (in_network start net) || not (in_network end net)) validation_error
  raise_if (ltb (to_int end) (to_int start)) validation_error
  check_gateway ip net spec.gateway
  for_each (check_server ip) spec.dns_servers
  raise_if (ltb spec.lease_time_seconds 60) validation_error
  ok spec

pub record DnsRecord : Type 0 where
  pub name : String
  pub type : String
  pub value : String
  pub ttl_seconds : ℕ

abbrev pub is_address_type : String → Bool
is_address_type type = str_eq type "A" || str_eq type "AAAA"

unfoldable pub make_dns_record : IpSyntax → DnsRecord → Result DnsRecord
make_dns_record ip r = do
  raise_if (not (is_address_type r.type || str_eq r.type "CNAME")) validation_error
  raise_if (is_empty r.name || has_char 47 r.name || has_char 10 r.name) validation_error
  raise_if (is_address_type r.type && not (is_some (ip.ip_address r.value))) validation_error
  ok r

pub record DnsZoneSpec : Type 0 where
  pub zone : String
  pub records : List DnsRecord
  pub soa_email : String

unfoldable pub make_dns_zone : DnsZoneSpec → Result DnsZoneSpec
make_dns_zone z = do
  raise_if (is_empty z.zone || str_eq (last_chars 2 z.zone) ".." || has_char 32 z.zone)
      validation_error
  ok z

pub record NatRuleSpec : Type 0 where
  pub rule_id : String
  pub source_cidr : String
  pub egress_interface : String

unfoldable pub make_nat_rule : IpSyntax → NatRuleSpec → Result NatRuleSpec
make_nat_rule ip r = do
  net ← or_raise (ip.ip_network r.source_cidr) validation_error
  raise_if (is_empty r.egress_interface || has_char 32 r.egress_interface) validation_error
  ok r

pub record FirewallRuleSpec : Type 0 where
  pub action : FirewallAction
  pub proto : FirewallProto
  pub source_cidr : Option String
  pub destination_cidr : Option String
  pub destination_port_start : Option ℕ
  pub destination_port_end : Option ℕ

unfoldable pub make_rule_spec : (String → Bool) → FirewallRuleSpec → Result FirewallRuleSpec
make_rule_spec network_of r = do
  check_cidr network_of r.source_cidr
  check_cidr network_of r.destination_cidr
  raise_if (is_icmp r.proto && (is_some r.destination_port_start || is_some r.destination_port_end))
      validation_error
  check_ports r.destination_port_start r.destination_port_end
  ok r

pub record FirewallPolicySpec : Type 0 where
  pub policy_id : String
  pub default_action : FirewallAction
  pub rules : List FirewallRuleSpec

unfoldable pub make_policy_spec : FirewallPolicySpec → Result FirewallPolicySpec
make_policy_spec p = do
  raise_if (is_empty p.policy_id || has_char 32 p.policy_id) validation_error
  ok p

abbrev pub dhcp_eq : DhcpScopeSpec → DhcpScopeSpec → Bool
dhcp_eq a b =
    str_eq a.scope_id b.scope_id
    && str_eq a.cidr b.cidr
    && str_eq a.range_start b.range_start
    && str_eq a.range_end b.range_end
    && opt_str_eq a.gateway b.gateway
    && strs_eq a.dns_servers b.dns_servers
    && a.lease_time_seconds == b.lease_time_seconds
    && opt_str_eq a.domain_name b.domain_name

abbrev pub records_eq : List DnsRecord → List DnsRecord → Bool
records_eq [] [] = true
records_eq [] (_ ∷ _) = false
records_eq (_ ∷ _) [] = false
records_eq (a ∷ later) (b ∷ bs) =
    str_eq a.name b.name
    && str_eq a.type b.type
    && str_eq a.value b.value
    && a.ttl_seconds == b.ttl_seconds
    && records_eq later bs

abbrev pub zone_eq : DnsZoneSpec → DnsZoneSpec → Bool
zone_eq a b =
    str_eq a.zone b.zone && records_eq a.records b.records && str_eq a.soa_email b.soa_email

abbrev pub nat_eq : NatRuleSpec → NatRuleSpec → Bool
nat_eq a b =
    str_eq a.rule_id b.rule_id
    && str_eq a.source_cidr b.source_cidr
    && str_eq a.egress_interface b.egress_interface

abbrev pub action_eq : FirewallAction → FirewallAction → Bool
action_eq FirewallAction.accept FirewallAction.accept = true
action_eq FirewallAction.accept FirewallAction.drop = false
action_eq FirewallAction.drop FirewallAction.accept = false
action_eq FirewallAction.drop FirewallAction.drop = true

abbrev pub proto_number : FirewallProto → ℕ
proto_number FirewallProto.any = 0
proto_number FirewallProto.tcp = 1
proto_number FirewallProto.udp = 2
proto_number FirewallProto.icmp = 3

abbrev pub rules_eq : List FirewallRuleSpec → List FirewallRuleSpec → Bool
rules_eq [] [] = true
rules_eq [] (_ ∷ _) = false
rules_eq (_ ∷ _) [] = false
rules_eq (a ∷ later) (b ∷ bs) =
    action_eq a.action b.action
    && proto_number a.proto == proto_number b.proto
    && opt_str_eq a.source_cidr b.source_cidr
    && opt_str_eq a.destination_cidr b.destination_cidr
    && opt_eq a.destination_port_start b.destination_port_start
    && opt_eq a.destination_port_end b.destination_port_end
    && rules_eq later bs

abbrev pub policy_eq : FirewallPolicySpec → FirewallPolicySpec → Bool
policy_eq a b =
    str_eq a.policy_id b.policy_id
    && action_eq a.default_action b.default_action
    && rules_eq a.rules b.rules
