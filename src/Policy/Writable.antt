-- ===== src/Policy/Writable.antt =====
-- What nftables reads of a compiled rule (src/sdn_controller/core/services/policy_compiler.py).
use nervum.Prelude.{
  inr, inl, Bool-cases, is_some, ◌≡◌, ◌≢◌, refl, sym, ap, subst, ◌∙◌, arith, String, Bool, true,
  false, not, ◌&&◌, Option, none, some, List, [], ◌∷◌, ◌++◌, All, any, all, str_eq, Dict, lookup,
  if◌then◌else◌, ◌+++◌,
}
use nervum.Policy.{PolicyRule}
use nervum.Policy.Compiler.{
  Part, skipped_source, skipped_destination, statement, Lookups, service_of, or_none_listed,
  compile_rule, cidrs_for, nft_match, match_text, is_unresolved,
}
use nervum.Policy.Nft.{
  Nft, Selector, source, destination, IsDocumented, IsAccepted, Reads, selects, is_read, decides,
  tested,
}
use nervum.Policy.Texts.{
  HasPorts, IsOneSided, selectors, unless_nil, service_selectors, names_none, match_text-nft_match,
  selectors-IsStatement,
}
use nervum.Policy.Meaning.{at_endpoint}

module _ {Packet : Type 0} (nft : Nft Packet) where
  -- An endpoint's list of CIDRs admits: an empty one admits all.
  abbrev pub list_admits : (String → Bool) → List String → Bool
  list_admits test [] = true
  list_admits test (x ∷ xs) = any test (x ∷ xs)

  -- nft takes the words as addresses, if there are any.
  abbrev pub AreAddresses : List String → Type 0
  AreAddresses [] = Unit
  AreAddresses (x ∷ xs) = nft.is_address_set (x ∷ xs) ≡ true

  -- nft takes the words as ports, if a protocol is named.
  abbrev pub ArePorts : Option String → List String → Type 0
  ArePorts none ports = Unit
  ArePorts (some name) ports = names_none name ≡ false → nft.is_port_set ports ≡ true

  service-IsAccepted :
      (protocol : Option String) (ports : List String)
      → HasPorts protocol ports
      → ArePorts protocol ports
      → All (IsAccepted nft) (service_selectors protocol ports)
  service-IsAccepted none ports h k = tt
  service-IsAccepted (some name) ports h k = elim (Bool-cases (names_none name)) [
    | inl unnamed ↦ rw unnamed tt
    | inr named ↦ rw named (((h named).0, k named), tt)
  ]

  selectors-IsAccepted :
      (src dst : List String) (protocol : Option String) (ports : List String)
      → AreAddresses src
      → AreAddresses dst
      → HasPorts protocol ports
      → ArePorts protocol ports
      → All (IsAccepted nft) (selectors src dst protocol ports)
  selectors-IsAccepted [] [] protocol ports a b h k = service-IsAccepted protocol ports h k
  selectors-IsAccepted [] (y ∷ ys) protocol ports a b h k =
      (b, service-IsAccepted protocol ports h k)
  selectors-IsAccepted (x ∷ xs) [] protocol ports a b h k =
      (a, service-IsAccepted protocol ports h k)
  selectors-IsAccepted (x ∷ xs) (y ∷ ys) protocol ports a b h k =
      (a, (b, service-IsAccepted protocol ports h k))

  all-selectors :
      (p : Packet) (src dst : List String) (ss : List Selector)
      → all (selects nft p) (unless_nil source src ++ (unless_nil destination dst ++ ss)) ≡ (
          (list_admits (λ x. nft.from_cidr x p) src && list_admits (λ x. nft.to_cidr x p) dst)
          && all (selects nft p) ss)
  all-selectors p [] [] ss = refl
  all-selectors p [] (y ∷ ys) ss = refl
  all-selectors p (x ∷ xs) [] ss = ground arith
  all-selectors p (x ∷ xs) (y ∷ ys) ss = ground arith

  -- An endpoint is not a group or a pool that is known to have no members.
  abbrev pub HasMembers : Dict (List String) → String → String → Type 0
  HasMembers resolved type value = lookup (type +++ ":" +++ value) resolved ≢ some []

  listed :
      (test : String → Bool) (o : Option (List String))
      → o ≢ some []
      → (if not (is_some o) then false else list_admits test (or_none_listed o))
        ≡ any test (or_none_listed o)
  listed test none h = refl
  listed test (some []) h = absurd (h refl)
  listed test (some (x ∷ xs)) h = refl

  pub endpoint :
      (test : String → Bool) (type value : String) (resolved : Dict (List String))
      → HasMembers resolved type value
      → (if is_unresolved type (cidrs_for type value resolved)
          then false
          else list_admits test (or_none_listed (cidrs_for type value resolved)))
        ≡ at_endpoint nft test type value resolved
  unfolding cidrs_for
  endpoint test type value resolved h =
      ground (arith, listed test (lookup (type +++ ":" +++ value) resolved) h)

  module _ (tables : Lookups) where
    abbrev source_words : PolicyRule → List String
    source_words rule =
        or_none_listed (cidrs_for rule.source_type rule.source_value tables.resolved_cidrs)

    abbrev destination_words : PolicyRule → List String
    destination_words rule =
        or_none_listed
          (cidrs_for rule.destination_type rule.destination_value tables.resolved_cidrs)

    -- What nft is to read of the ends of a rule: one of them is restricted at most, to words that it
    -- takes as addresses.
    abbrev pub AreEnds : PolicyRule → Type 0
    AreEnds rule =
        IsOneSided (source_words rule) (destination_words rule)
        × AreAddresses (source_words rule)
        × AreAddresses (destination_words rule)
        × HasMembers tables.resolved_cidrs rule.source_type rule.source_value
        × HasMembers tables.resolved_cidrs rule.destination_type rule.destination_value

    -- What nft is to read of a service: TCP or UDP with words that it takes as ports, or no protocol.
    abbrev pub IsService : Option String → Option (List String) → Type 0
    IsService protocol ports =
        HasPorts protocol (or_none_listed ports) × ArePorts protocol (or_none_listed ports)

    abbrev parts_of : PolicyRule → Option String → Option (List String) → List Part
    parts_of rule protocol ports =
        nft_match (cidrs_for rule.source_type rule.source_value tables.resolved_cidrs)
          (cidrs_for rule.destination_type rule.destination_value tables.resolved_cidrs) protocol
          ports

    abbrev pub protocol_of : PolicyRule → Option String
    protocol_of rule = service_of rule.service_object_id tables.service_protos

    abbrev pub ports_of : PolicyRule → Option (List String)
    ports_of rule = service_of rule.service_object_id tables.service_ports

  module _ (documented : IsDocumented nft) (tables : Lookups) where
    parts-Reads :
        (rule : PolicyRule) (protocol : Option String) (ports : Option (List String))
        → AreEnds tables rule
        → IsService tables protocol ports
        → Reads nft (match_text (parts_of tables rule protocol ports)) (
            selectors
              (source_words tables rule)
              (destination_words tables rule)
              protocol
              (or_none_listed ports))
    parts-Reads rule protocol ports (one, a, b, _, _) (h, k) =
        subst
          (λ t. Reads nft t (
            selectors (source_words tables rule) (destination_words tables rule) protocol
              (or_none_listed ports)))
          (sym (match_text-nft_match _ _ protocol ports one h))
          (documented.reads _
            (selectors-IsStatement (source_words tables rule) (destination_words tables rule)
              protocol (or_none_listed ports) one)
            (selectors-IsAccepted (source_words tables rule) (destination_words tables rule)
              protocol (or_none_listed ports) a b h k))

    -- A statement is read, and decides the packets that its selectors select.
    statement-Reads :
        (text : String) (ss : List Selector) (accepts : Bool)
        → Reads nft text ss
        → (is_some (nft.parse text) ≡ true)
          × ((p : Packet)
              → tested nft p accepts (nft.parse text)
                ≡ (if all (selects nft p) ss then some accepts else none))
    statement-Reads text ss accepts (test, read, tests) =
        (rw read refl, λ p. rw (read, tests p) refl)

    line_decides :
        (p : Packet) (rule : PolicyRule) (su du a b v s d verdict : Bool) (ps : List Part)
        → (if su then false else a) ≡ s
        → (if du then false else b) ≡ d
        → decides nft p (statement ps verdict rule) ≡ (if (a && b) && v then some verdict else none)
        → decides nft p (
            if su
            then skipped_source rule
            else if du
            then skipped_destination rule
            else statement ps verdict rule)
          ≡ (if s && (d && v) then some verdict else none)
    line_decides p rule true du a b v s d verdict ps hs hd hp = rw (← hs) refl
    line_decides p rule false true a b v s d verdict ps hs hd hp = ground arith
    line_decides p rule false false a b v s d verdict ps hs hd hp =
        hp ∙ ap (λ x. if x then some verdict else none) (ground (arith, hs, hd))

    line_read :
        (rule : PolicyRule) (su du verdict : Bool) (ps : List Part)
        → is_read nft (statement ps verdict rule) ≡ true
        → is_read nft (
            if su
            then skipped_source rule
            else if du
            then skipped_destination rule
            else statement ps verdict rule)
          ≡ true
    line_read rule true du verdict ps h = refl
    line_read rule false true verdict ps h = refl
    line_read rule false false verdict ps h = h

    module _ (rule : PolicyRule) (ends : AreEnds tables rule)
        (written : IsService tables (protocol_of tables rule) (ports_of tables rule)) where
      -- nft reads the compiled line.
      pub is_read-compile_rule : is_read nft (compile_rule tables rule) ≡ true
      unfolding compile_rule
      is_read-compile_rule =
          line_read rule _ _ (str_eq rule.action "allow")
            (parts_of tables rule (protocol_of tables rule) (ports_of tables rule))
            (statement-Reads _ _ (str_eq rule.action "allow")
              (parts-Reads rule (protocol_of tables rule) (ports_of tables rule) ends written)).0

      -- The compiled line decides the packets at both ends of the rule that its service selects.
      pub decides-compile_rule :
          (p : Packet)
          → decides nft p (compile_rule tables rule) ≡ (
              if at_endpoint nft
                  (λ x. nft.from_cidr x p)
                  rule.source_type
                  rule.source_value
                  tables.resolved_cidrs
                && (at_endpoint nft
                      (λ x. nft.to_cidr x p)
                      rule.destination_type
                      rule.destination_value
                      tables.resolved_cidrs
                    && all (selects nft p) (
                        service_selectors
                          (protocol_of tables rule)
                          (or_none_listed (ports_of tables rule))))
              then some (str_eq rule.action "allow")
              else none)
      unfolding compile_rule
      decides-compile_rule p =
          line_decides p rule _ _ _ _ _ _ _ (str_eq rule.action "allow")
            (parts_of tables rule (protocol_of tables rule) (ports_of tables rule))
            (endpoint (λ x. nft.from_cidr x p) rule.source_type rule.source_value
              tables.resolved_cidrs ends.3)
            (endpoint (λ x. nft.to_cidr x p) rule.destination_type rule.destination_value
              tables.resolved_cidrs ends.4)
            ((statement-Reads _ _ (str_eq rule.action "allow") (
                  parts-Reads rule (protocol_of tables rule) (ports_of tables rule) ends written)).1
                p
              ∙ ap (λ x. if x then some (str_eq rule.action "allow") else none)
                  (all-selectors p (source_words tables rule) (destination_words tables rule) (
                    service_selectors (protocol_of tables rule)
                      (or_none_listed (ports_of tables rule)))))
