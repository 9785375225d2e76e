-- ===== src/EdgeServices/Rules.antt =====
-- Which firewall rules the controller accepts
-- (src/sdn_controller/core/value_objects/edge_services.py, `FirewallRule.__post_init__`).
use nervum.Prelude.{
  ◌&&◌, ◌||◌, is_some, ◌≡◌, refl, ◌↔◌, ◌⊎◌, ℕ, ◌≤◌, String, Bool, true, Option, none, some, arith,
}
use nervum.Errors.{Result, ok, err, is_ok, raise_if, validation_error, ◌>>◌}
use nervum.EdgeServices.{
  FirewallRule, FirewallProto, icmp, check_cidr, check_ports, make_firewall_rule, is_icmp,
}

-- A CIDR that is absent or a network.
abbrev pub IsCidr : (String → Bool) → Option String → Type 0
IsCidr network_of none = Unit
IsCidr network_of (some cidr) = network_of cidr ≡ true

-- No ports at all; or a first port, and a last one that is absent, 0 or not below the first.
abbrev pub IsPorts : Option ℕ → Option ℕ → Type 0
IsPorts none none = Unit
IsPorts none (some _) = ⊥
IsPorts (some s) none = (1 ≤ s) × (s ≤ 65535)
IsPorts (some s) (some e) = (1 ≤ s) × (s ≤ 65535) × ((e ≡ 0) ⊎ ((s ≤ e) × (e ≤ 65535)))

check_cidr_iff :
    (network_of : String → Bool) (c : Option String)
    → (is_ok (check_cidr network_of c) ≡ true) ↔ IsCidr network_of c
unfolding check_cidr
check_cidr_iff network_of none = ground arith
check_cidr_iff network_of (some cidr) = ground arith

check_ports_iff : (s e : Option ℕ) → (is_ok (check_ports s e) ≡ true) ↔ IsPorts s e
unfolding check_ports
check_ports_iff none none = ground arith
check_ports_iff none (some e) = ground arith
check_ports_iff (some s) none = ground arith
check_ports_iff (some s) (some e) = ground arith

-- A rule for ICMP has no ports.
abbrev pub IsPortless : FirewallProto → Option ℕ → Option ℕ → Type 0
IsPortless icmp s e = (s ≡ none) × (e ≡ none)
IsPortless _ s e = Unit

check_proto_iff :
    (p : FirewallProto) (s e : Option ℕ)
    → (is_ok (raise_if (is_icmp p && (is_some s || is_some e)) validation_error) ≡ true)
      ↔ IsPortless p s e
check_proto_iff icmp none none = ground arith
check_proto_iff icmp none (some e) = ground arith
check_proto_iff icmp (some s) none = ground arith
check_proto_iff icmp (some s) (some e) = ground arith
check_proto_iff FirewallProto.any s e = ground arith
check_proto_iff FirewallProto.tcp s e = ground arith
check_proto_iff FirewallProto.udp s e = ground arith

-- Two calls in a row both return, or the whole does not.
is_ok_iff :
    {A : Type 0} (P Q : Type 0) (first : Result (Unit {0})) (rest : Result A)
    → (is_ok first ≡ true) ↔ P
    → (is_ok rest ≡ true) ↔ Q
    → (is_ok (first >> rest) ≡ true) ↔ (P × Q)
is_ok_iff P Q (ok u) rest p q = ((λ h. (p.0 refl, q.0 h)), λ (a, b). q.1 b)
is_ok_iff P Q (err e) rest p q = ((λ h. cc h), λ (a, b). p.1 a)

last_iff :
    {A P : Type 0} (a : A) (first : Result (Unit {0}))
    → (is_ok first ≡ true) ↔ P
    → (is_ok (first >> ok a) ≡ true) ↔ P
last_iff a (ok u) p = ((λ h. p.0 refl), λ x. refl)
last_iff a (err e) p = ((λ h. cc h), λ x. p.1 x)

abbrev pub IsRule : (String → Bool) → FirewallRule → Type 0
IsRule network_of r =
    IsCidr network_of r.source_cidr
    × (IsCidr network_of r.destination_cidr
        × (IsPortless r.proto r.destination_port_start r.destination_port_end
            × IsPorts r.destination_port_start r.destination_port_end))

-- A firewall rule is accepted exactly if each of its CIDRs is absent or a network, a rule for ICMP
-- has no ports, and the ports are either both absent, or a first port from 1 to 65535 with a last
-- one that is absent, 0, or from the first port to 65535.
pub make_firewall_rule_iff :
    (network_of : String → Bool) (r : FirewallRule)
    → (is_ok (make_firewall_rule network_of r) ≡ true) ↔ IsRule network_of r
unfolding make_firewall_rule
make_firewall_rule_iff network_of r =
    let ports = check_ports_iff r.destination_port_start r.destination_port_end in
    is_ok_iff _ _ (check_cidr network_of r.source_cidr) _ (check_cidr_iff network_of r.source_cidr)
      (is_ok_iff _ _ (check_cidr network_of r.destination_cidr) _
        (check_cidr_iff network_of r.destination_cidr)
        (is_ok_iff _ _
          (raise_if
            (is_icmp r.proto
              && (is_some r.destination_port_start || is_some r.destination_port_end))
            validation_error)
          _ (check_proto_iff r.proto r.destination_port_start r.destination_port_end)
          (last_iff r (check_ports r.destination_port_start r.destination_port_end) ports)))
