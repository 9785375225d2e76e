-- ===== src/Policy/Texts.antt =====
-- The match texts of the compiler as selectors of nftables
-- (`_nft_match` of src/sdn_controller/core/services/policy_compiler.py).
use text.Mathlib.TextLemmas.{append_assoc}
use nervum.Prelude.{
  ◌≡◌, ◌≢◌, refl, sym, ap, ◌∙◌, arith, ◌⊎◌, inl, inr, String, Bool, true, false, ◌||◌, Option, none,
  some, List, [], ◌∷◌, ◌++◌, map, str_eq, is_empty, if◌then◌else◌, ◌+++◌, Bool-cases, eq_iff, subst,
}
use nervum.Policy.{text_in}
use nervum.Policy.Compiler.{
  Part, ip, saddr, daddr, proto, dport, nft_match, proto_parts, port_parts, or_none_listed, join,
  print_set, match_text, has_any, unless_empty,
}
use nervum.Policy.Nft.{IsStatement, Selector, source, destination, service, set_text, selector_text}

abbrev pub unless_nil : (List String → Selector) → List String → List Selector
unless_nil selector [] = []
unless_nil selector (x ∷ xs) = selector (x ∷ xs) ∷ []

abbrev pub names_none : String → Bool
names_none name = is_empty name || str_eq name "any"

abbrev pub service_selectors : Option String → List String → List Selector
service_selectors none ports = []
service_selectors (some name) ports = if names_none name then [] else service name ports ∷ []

-- The selectors that a rule is meant to write.
abbrev pub selectors : List String → List String → Option String → List String → List Selector
selectors src dst protocol ports =
    unless_nil source src ++ (unless_nil destination dst ++ service_selectors protocol ports)

-- A protocol that is named has ports.
abbrev pub HasPorts : Option String → List String → Type 0
HasPorts none ports = Unit
HasPorts (some name) ports =
    names_none name ≡ false → (text_in name ("tcp" ∷ "udp" ∷ []) ≡ true) × (ports ≢ [])

-- At most one of the two ends is restricted.
abbrev pub IsOneSided : List String → List String → Type 0
IsOneSided src dst = (src ≡ []) ⊎ (dst ≡ [])

abbrev IsOwn : List Selector → Type 0
IsOwn ss =
    IsStatement ss
    × ((xs : List String) → IsStatement (source xs ∷ ss) × IsStatement (destination xs ∷ ss))

service-IsOwn :
    (protocol : Option String) (ports : List String) → IsOwn (service_selectors protocol ports)
service-IsOwn none ports = (tt, λ xs. (tt, tt))
service-IsOwn (some name) ports = elim (Bool-cases (names_none name)) [
  | inl unnamed ↦ rw unnamed (tt, λ xs. (tt, tt))
  | inr named ↦ rw named (tt, λ xs. (tt, tt))
]

-- A rule restricted at one end at most writes selectors as nft takes them.
pub selectors-IsStatement :
    (src dst : List String) (protocol : Option String) (ports : List String)
    → IsOneSided src dst
    → IsStatement (selectors src dst protocol ports)
selectors-IsStatement [] [] protocol ports h = (service-IsOwn protocol ports).0
selectors-IsStatement [] (y ∷ ys) protocol ports h = ((service-IsOwn protocol ports).1 (y ∷ ys)).1
selectors-IsStatement (x ∷ xs) [] protocol ports h = ((service-IsOwn protocol ports).1 (x ∷ xs)).0
selectors-IsStatement (x ∷ xs) (y ∷ ys) protocol ports (inl e) = cc e
selectors-IsStatement (x ∷ xs) (y ∷ ys) protocol ports (inr e) = cc e

glue : (a b t : String) → a +++ (b +++ t) ≡ (a +++ b) +++ t
glue a b t = sym (append_assoc a b t)

glued_set : (word : String) (xs : List String) → print_set word xs ≡ word +++ (" " +++ set_text xs)
glued_set word [] = refl
glued_set word (x ∷ []) = refl
glued_set word (x ∷ (y ∷ xs)) =
    ap (λ t. word +++ t) (sym (glue " " "{ " (join ", " (x ∷ (y ∷ xs)) +++ " }")))

source_text :
    (xs : List String) → "ip" +++ (" " +++ print_set "saddr" xs) ≡ "ip saddr " +++ set_text xs
source_text xs =
    ap (λ t. "ip" +++ (" " +++ t)) (glued_set "saddr" xs)
    ∙ glue "ip" " " ("saddr" +++ (" " +++ set_text xs))
    ∙ glue "ip " "saddr" (" " +++ set_text xs)
    ∙ glue "ip saddr" " " (set_text xs)

destination_text :
    (xs : List String) → "ip" +++ (" " +++ print_set "daddr" xs) ≡ "ip daddr " +++ set_text xs
destination_text xs =
    ap (λ t. "ip" +++ (" " +++ t)) (glued_set "daddr" xs)
    ∙ glue "ip" " " ("daddr" +++ (" " +++ set_text xs))
    ∙ glue "ip " "daddr" (" " +++ set_text xs)
    ∙ glue "ip daddr" " " (set_text xs)

service_text :
    (name : String) (xs : List String)
    → name +++ (" " +++ print_set "dport" xs) ≡ name +++ (" dport " +++ set_text xs)
service_text name xs =
    ap (λ t. name +++ t)
      (ap (λ t. " " +++ t) (glued_set "dport" xs)
        ∙ glue " " "dport" (" " +++ set_text xs)
        ∙ glue " dport" " " (set_text xs))

-- The parts for the service: none, or a protocol with its ports, as one selector.
AreServiceParts : List Part → List Selector → Type 0
AreServiceParts parts sels =
    ((parts ≡ []) × (sels ≡ []))
    ⊎ ((name : String) × (ports : List String) × (parts ≡ proto name ∷ dport ports ∷ [])
        × (sels ≡ service name ports ∷ []))

pub unnamed_in :
    (name : String) → names_none name ≡ true → text_in name ("tcp" ∷ "udp" ∷ []) ≡ false
unnamed_in String.[] h = refl
unnamed_in (String.◌∷◌ c s) h =
    subst (λ n. text_in n ("tcp" ∷ "udp" ∷ []) ≡ false) (sym ((eq_iff (String.◌∷◌ c s) "any").0 h))
      refl

unnamed_parts :
    (name : String) (ports : List String)
    → names_none name ≡ true
    → proto_parts (some name) ++ port_parts (some name) ports ≡ []
unnamed_parts name ports h = ground (arith, h, unnamed_in name h)

service_parts :
    (protocol : Option String) (ports : List String)
    → HasPorts protocol ports
    → AreServiceParts
        (proto_parts protocol ++ port_parts protocol ports)
        (service_selectors protocol ports)
unfolding AreServiceParts
service_parts none ports h = inl (refl, refl)
service_parts (some name) ports h = elim (Bool-cases (names_none name)) [
  | inl unnamed ↦ inl (unnamed_parts name ports unnamed, rw unnamed refl)
  | inr named ↦ named_parts ports (h named).0 (h named).1 named
]
  where
    named_parts :
        (ports : List String)
        → text_in name ("tcp" ∷ "udp" ∷ []) ≡ true
        → ports ≢ []
        → names_none name ≡ false
        → AreServiceParts
            (proto_parts (some name) ++ port_parts (some name) ports)
            (service_selectors (some name) ports)
    named_parts [] t n e = absurd (n refl)
    named_parts (x ∷ xs) t n e = inr (name, x ∷ xs, ground (arith, t, e), rw e refl)

-- Words of an address, then those of a service.
followed :
    (word name : String) (sel : List String → Selector) (xs ports : List String)
    → "ip" +++ (" " +++ print_set word xs) ≡ selector_text (sel xs)
    → join " " ("ip" ∷ print_set word xs ∷ name ∷ print_set "dport" ports ∷ [])
      ≡ join " " (selector_text (sel xs) ∷ selector_text (service name ports) ∷ [])
followed word name sel xs ports e =
    ap (λ t. "ip" +++ (" " +++ (print_set word xs +++ (" " +++ t)))) (service_text name ports)
    ∙ ap (λ t. "ip" +++ t)
        (glue " " (print_set word xs) (" " +++ selector_text (service name ports)))
    ∙ glue "ip" (" " +++ print_set word xs) (" " +++ selector_text (service name ports))
    ∙ ap (λ t. t +++ (" " +++ selector_text (service name ports))) e

module _ (protocol : Option String) (ports : List String) (named : HasPorts protocol ports) where
  abbrev rest : List Part
  rest = proto_parts protocol ++ port_parts protocol ports

  abbrev sels : List Selector
  sels = service_selectors protocol ports

  alone_text :
      (parts : List Part) (ss : List Selector)
      → AreServiceParts parts ss
      → match_text parts ≡ join " " (map selector_text ss)
  unfolding AreServiceParts
  alone_text parts ss (inl (e, f)) = rw (e, f) refl
  alone_text parts ss (inr (name, ps, e, f)) = rw (e, f) (service_text name ps)

  from_text :
      (xs : List String) (parts : List Part) (ss : List Selector)
      → AreServiceParts parts ss
      → match_text (ip ∷ saddr xs ∷ parts) ≡ join " " (map selector_text (source xs ∷ ss))
  unfolding AreServiceParts
  from_text xs parts ss (inl (e, f)) = rw (e, f) (source_text xs)
  from_text xs parts ss (inr (name, ps, e, f)) =
      rw (e, f) (followed "saddr" name source xs ps (source_text xs))

  to_text :
      (xs : List String) (parts : List Part) (ss : List Selector)
      → AreServiceParts parts ss
      → match_text (ip ∷ daddr xs ∷ parts) ≡ join " " (map selector_text (destination xs ∷ ss))
  unfolding AreServiceParts
  to_text xs parts ss (inl (e, f)) = rw (e, f) (destination_text xs)
  to_text xs parts ss (inr (name, ps, e, f)) =
      rw (e, f) (followed "daddr" name destination xs ps (destination_text xs))

  matched :
      (src dst : List String)
      → IsOneSided src dst
      → match_text (
          (if has_any src || has_any dst then ip ∷ [] else [])
          ++ (unless_empty saddr src ++ (unless_empty daddr dst ++ rest)))
        ≡ join " " (map selector_text (selectors src dst protocol ports))
  matched [] [] h = alone_text rest sels (service_parts protocol ports named)
  matched [] (y ∷ ys) h = to_text (y ∷ ys) rest sels (service_parts protocol ports named)
  matched (x ∷ xs) [] h = from_text (x ∷ xs) rest sels (service_parts protocol ports named)
  matched (x ∷ xs) (y ∷ ys) (inl e) = cc e
  matched (x ∷ xs) (y ∷ ys) (inr e) = cc e

-- For a rule restricted at one end at most, whose protocol has ports, the text that the compiler
-- writes is that of the selectors.
pub match_text-nft_match :
    (src dst : Option (List String)) (protocol : Option String) (ports : Option (List String))
    → IsOneSided (or_none_listed src) (or_none_listed dst)
    → HasPorts protocol (or_none_listed ports)
    → match_text (nft_match src dst protocol ports)
      ≡ join " " (
          map selector_text
            (selectors (or_none_listed src) (or_none_listed dst) protocol (or_none_listed ports)))
unfolding nft_match
match_text-nft_match src dst protocol ports h named =
    matched protocol (or_none_listed ports) named (or_none_listed src) (or_none_listed dst) h
