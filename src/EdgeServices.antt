-- ===== src/EdgeServices.antt =====
-- The edge-service values of src/sdn_controller/core/value_objects/edge_services.py. Each
-- `__post_init__` is a function that returns the value or raises.
pub mod Rules
use Prim.Native.Char.{code}
use nervum.Prelude.{
  ℕ, String, Bool, true, false, not, ◌&&◌, ◌||◌, Option, none, some, List, leb, ltb, ◌==◌, is_some,
  is_empty,
}
use nervum.Errors.{Result, ok, validation_error, raise_if, or_raise, ◌>>=◌, ◌>>◌}
use nervum.Address.{IpSyntax, to_int, same_family}

pub record DhcpSpec : Type 0 where
  pub range_start : String
  pub range_end : String
  pub lease_time_seconds : ℕ
  pub domain_name : Option String

unfoldable pub make_dhcp_spec : IpSyntax → DhcpSpec → Result DhcpSpec
make_dhcp_spec ip spec = do
  start ← or_raise (ip.ip_address spec.range_start) validation_error
  end ← or_raise (ip.ip_address spec.range_end) validation_error
  raise_if (not (same_family start end)) validation_error
  raise_if (ltb (to_int end) (to_int start)) validation_error
  raise_if (ltb spec.lease_time_seconds 60) validation_error
  ok spec

pub record NatSpec : Type 0 where
  pub egress_interface : String

-- `c in s`, for a character given by its code
unfoldable pub has_char : ℕ → String → Bool
has_char n String.[] = false
has_char n (String.◌∷◌ c s) = code c == n || has_char n s

unfoldable pub make_nat_spec : NatSpec → Result NatSpec
unfolding has_char
make_nat_spec spec = do
  raise_if (is_empty spec.egress_interface || has_char 32 spec.egress_interface) validation_error
  ok spec

pub data FirewallAction : Type 0 where
  accept drop : FirewallAction

pub data FirewallProto : Type 0 where
  any tcp udp icmp : FirewallProto

pub record FirewallRule : Type 0 where
  pub action : FirewallAction
  pub proto : FirewallProto
  pub source_cidr : Option String
  pub destination_cidr : Option String
  pub destination_port_start : Option ℕ
  pub destination_port_end : Option ℕ

abbrev pub is_icmp : FirewallProto → Bool
is_icmp icmp = true
is_icmp _ = false

-- `ip_network(value, strict=False)` on a field that may be absent. `network_of` is that call.
unfoldable pub check_cidr : (String → Bool) → Option String → Result (Unit {0})
check_cidr network_of none = ok tt
check_cidr network_of (some cidr) = raise_if (not (network_of cidr)) validation_error

-- `x or y` on port numbers: `None` and 0 give way
abbrev pub or_else : Option ℕ → ℕ → ℕ
or_else none d = d
or_else (some n) d = elim (n == 0) [ true ↦ d | false ↦ n ]

abbrev pub is_port : ℕ → Bool
is_port n = leb 1 n && leb n 65535

unfoldable pub check_ports : Option ℕ → Option ℕ → Result (Unit {0})
check_ports none none = ok tt
check_ports start end = do
  let first = or_else start 0
  let last = or_else end first
  raise_if (not (is_port first) || not (is_port last)) validation_error
  raise_if (ltb last first) validation_error

unfoldable pub make_firewall_rule : (String → Bool) → FirewallRule → Result FirewallRule
unfolding check_cidr check_ports
make_firewall_rule network_of r = do
  check_cidr network_of r.source_cidr
  check_cidr network_of r.destination_cidr
  raise_if (is_icmp r.proto && (is_some r.destination_port_start || is_some r.destination_port_end))
      validation_error
  check_ports r.destination_port_start r.destination_port_end
  ok r

pub record FirewallPolicy : Type 0 where
  pub default_action : FirewallAction
  pub rules : List FirewallRule
