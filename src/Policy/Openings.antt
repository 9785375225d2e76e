-- ===== src/Policy/Openings.antt =====
-- Rules whose references stand for nothing
-- (src/sdn_controller/core/services/policy_compiler.py).
use nervum.Prelude.{
  ◌≡◌, ◌∙◌, refl, arith, String, true, false, Option, none, some, lookup, is_empty, str_eq,
}
use nervum.Policy.{PolicyRule}
use nervum.Policy.Compiler.{service_of, Lookups, compile_rule}
use nervum.Policy.Nft.{Nft, IsDocumented, decides}
use nervum.Policy.Meaning.{at_endpoint, is_served, rule_admits}
use nervum.Policy.Writable.{AreEnds, IsService, protocol_of, ports_of, decides-compile_rule}

unserved :
    {Packet : Type 0} (nft : Nft Packet) (p : Packet) (tables : Lookups) (reference : Option String)
    (id : String)
    → reference ≡ some id
    → is_empty id ≡ false
    → lookup id tables.service_protos ≡ none
    → is_served nft tables p reference ≡ false
unserved nft p tables none id service given unknown = cc service
unserved nft p tables (some id') id service given unknown = ground (arith, service, given, unknown)

no_protocol :
    (tables : Lookups) (reference : Option String) (id : String)
    → reference ≡ some id
    → lookup id tables.service_protos ≡ none
    → service_of reference tables.service_protos ≡ none
no_protocol tables none id service unknown = refl
no_protocol tables (some id') id service unknown = ground (arith, service, unknown)

-- Let nft read selectors as its documentation says, and let a rule restrict one of its ends at most, to
-- CIDRs that nft takes as a set of IPv4 addresses. If its service is not known, then the rule speaks of
-- no packet; but it is compiled to a line that accepts, or drops, as its action says, every packet at
-- both its ends, of any protocol and to any port.
pub compile_rule_opens :
    {Packet : Type 0} (nft : Nft Packet) (tables : Lookups) (rule : PolicyRule) (id : String)
    (p : Packet)
    → IsDocumented nft
    → AreEnds nft tables rule
    → rule.service_object_id ≡ some id
    → is_empty id ≡ false
    → lookup id tables.service_protos ≡ none
    → at_endpoint nft
        (λ x. nft.from_cidr x p)
        rule.source_type
        rule.source_value
        tables.resolved_cidrs
      ≡ true
    → at_endpoint nft
        (λ x. nft.to_cidr x p)
        rule.destination_type
        rule.destination_value
        tables.resolved_cidrs
      ≡ true
    → (rule_admits nft tables p rule ≡ false)
      × (decides nft p (compile_rule tables rule) ≡ some (str_eq rule.action "allow"))
compile_rule_opens nft tables rule id p documented ends service given unknown here there =
    let protocol = no_protocol tables rule.service_object_id id service unknown in
    let written : IsService nft tables (protocol_of nft tables rule) (ports_of nft tables rule) =
      rw protocol (tt, tt) in
    (
      rw (here, there, unserved nft p tables rule.service_object_id id service given unknown) refl,
      decides-compile_rule nft documented tables rule ends written p
          ∙ rw (here, there, protocol) refl,
    )
