-- ===== src/Policy/Meaning.antt =====
-- What the rules of a policy ask for
-- (src/sdn_controller/core/entities/security_policy.py, src/sdn_controller/core/services/policy_compiler.py).
use nervum.Prelude.{
  String, Bool, true, false, not, ◌&&◌, ◌||◌, Option, none, some, List, [], ◌∷◌, any, filter,
  str_eq, is_empty, Dict, lookup, if◌then◌else◌, ◌+++◌,
}
use nervum.Policy.{PolicyRule, text_in}
use nervum.Policy.Ordering.{best}
use nervum.Policy.Compiler.{Lookups, or_none_listed}
use nervum.Policy.Nft.{Nft}

module _ {Packet : Type 0} (nft : Nft Packet) where
  -- The packet is at an endpoint of a rule: anywhere, in a CIDR, or in a member of a group or a pool.
  abbrev pub at_endpoint : (String → Bool) → String → String → Dict (List String) → Bool
  at_endpoint in_cidr type value resolved =
      if str_eq type "any"
      then true
      else if str_eq type "cidr"
      then is_empty value || in_cidr value
      else any in_cidr (or_none_listed (lookup (type +++ ":" +++ value) resolved))

  abbrev pub is_nil : List String → Bool
  is_nil [] = true
  is_nil (_ ∷ _) = false

  -- The packet is of the service's protocol and, for TCP and UDP, to one of its ports if it has any.
  abbrev pub has_service : Packet → String → List String → Bool
  has_service p name ports =
      (is_empty name || (str_eq name "any" || nft.has_proto name p))
      && (not (text_in name ("tcp" ∷ "udp" ∷ []))
          || (is_nil ports || any (λ x. nft.to_port x p) ports))

  -- No packet is of a service that is not known.
  abbrev pub has_known_service : Packet → Option String → List String → Bool
  has_known_service p none ports = false
  has_known_service p (some name) ports = has_service p name ports

  abbrev pub is_served : Lookups → Packet → Option String → Bool
  is_served tables p none = true
  is_served tables p (some id) =
      is_empty id
      || has_known_service p (lookup id tables.service_protos)
          (or_none_listed (lookup id tables.service_ports))

  -- The packet is one that the rule speaks of.
  abbrev pub rule_admits : Lookups → Packet → PolicyRule → Bool
  rule_admits tables p rule =
      at_endpoint (λ x. nft.from_cidr x p) rule.source_type rule.source_value tables.resolved_cidrs
      && (at_endpoint (λ x. nft.to_cidr x p) rule.destination_type rule.destination_value
            tables.resolved_cidrs
          && is_served tables p rule.service_object_id)

  abbrev pub verdict_of : Option PolicyRule → Bool
  verdict_of none = false
  verdict_of (some rule) = str_eq rule.action "allow"

  -- An enabled rule speaks in its own direction, or in both.
  abbrev pub speaks_in : String → PolicyRule → Bool
  speaks_in direction rule =
      if rule.enabled
      then str_eq rule.direction "both" || str_eq rule.direction direction
      else false

  -- What the policy asks for: of the rules of the direction that speak of the packet, the one
  -- with the smallest number decides, the earliest of equals; without one the packet is dropped.
  abbrev pub policy_allows : Lookups → String → List PolicyRule → Packet → Bool
  policy_allows tables direction rules p =
      verdict_of (best (rule_admits tables p) (filter (speaks_in direction) rules))
