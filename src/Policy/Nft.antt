-- ===== src/Policy/Nft.antt =====
-- What the documentation of nftables says of the scripts that
-- src/sdn_controller/core/services/policy_compiler.py writes. The program nft is not part of the
-- repository: it is a parameter.
use nervum.Prelude.{
  String, Bool, true, false, ◌&&◌, ◌≡◌, Option, none, some, List, [], ◌∷◌, map, any, all, All,
  is_some, if◌then◌else◌, ◌+++◌,
}
use nervum.Policy.{text_in}
use nervum.Policy.Compiler.{Line, skipped_source, skipped_destination, statement, join, match_text}

-- nft as a reader of the match texts of statements, the sets that it takes as addresses and as ports,
-- and the tests that it makes on a packet: of IPv4 and from or to a CIDR, of a protocol, to a port.
pub record Nft (Packet : Type 0) : Type 0 where
  pub parse : String → Option (Packet → Bool)
  pub is_address_set : List String → Bool
  pub is_port_set : List String → Bool
  pub from_cidr : String → Packet → Bool
  pub to_cidr : String → Packet → Bool
  pub has_proto : String → Packet → Bool
  pub to_port : String → Packet → Bool

-- A match expression of nft's: `ip saddr …`, `ip daddr …`, and `tcp dport …` or `udp dport …`.
pub data Selector : Type 0 where
  source destination : List String → Selector
  service : String → List String → Selector

abbrev pub set_text : List String → String
set_text [] = "{  }"
set_text (x ∷ []) = x
set_text (x ∷ (y ∷ xs)) = "{ " +++ join ", " (x ∷ (y ∷ xs)) +++ " }"

abbrev pub selector_text : Selector → String
selector_text (source xs) = "ip saddr " +++ set_text xs
selector_text (destination xs) = "ip daddr " +++ set_text xs
selector_text (service name xs) = name +++ (" dport " +++ set_text xs)

abbrev pub IsServiceSelector : Selector → Type 0
IsServiceSelector (source _) = ⊥
IsServiceSelector (destination _) = ⊥
IsServiceSelector (service _ _) = Unit

abbrev pub IsStatement : List Selector → Type 0
IsStatement [] = Unit
IsStatement (_ ∷ []) = Unit
IsStatement (source _ ∷ (s ∷ [])) = IsServiceSelector s
IsStatement (destination _ ∷ (s ∷ [])) = IsServiceSelector s
IsStatement (service _ _ ∷ (_ ∷ [])) = ⊥
IsStatement (_ ∷ (_ ∷ (_ ∷ _))) = ⊥

module _ {Packet : Type 0} (nft : Nft Packet) where
  -- A packet matches a selector by any word of its set.
  abbrev pub selects : Packet → Selector → Bool
  selects p (source xs) = any (λ x. nft.from_cidr x p) xs
  selects p (destination xs) = any (λ x. nft.to_cidr x p) xs
  selects p (service name xs) = nft.has_proto name p && any (λ x. nft.to_port x p) xs

  abbrev pub IsAccepted : Selector → Type 0
  IsAccepted (source xs) = nft.is_address_set xs ≡ true
  IsAccepted (destination xs) = nft.is_address_set xs ≡ true
  IsAccepted (service name xs) =
      (text_in name ("tcp" ∷ "udp" ∷ []) ≡ true) × (nft.is_port_set xs ≡ true)

  -- The text is read, as a test of all the selectors.
  abbrev pub Reads : String → List Selector → Type 0
  Reads text selectors =
      (test : Packet → Bool) × (nft.parse text ≡ some test)
      × ((p : Packet) → test p ≡ all (selects p) selectors)

  -- Nothing, one selector, or one of an address and then one of a service, written one after the
  -- other, are read, and a packet has to match all of them.
  pub record IsDocumented : Type 0 where
    pub reads :
        (selectors : List Selector)
        → IsStatement selectors
        → All IsAccepted selectors
        → Reads (join " " (map selector_text selectors)) selectors

  -- nft reads the line; a comment is not read.
  abbrev pub is_read : Line → Bool
  is_read (skipped_source _) = true
  is_read (skipped_destination _) = true
  is_read (statement parts _ _) = is_some (nft.parse (match_text parts))

  abbrev pub tested : Packet → Bool → Option (Packet → Bool) → Option Bool
  tested p accepts none = none
  tested p accepts (some test) = if test p then some accepts else none

  -- The verdict of a line, where it has one for the packet.
  abbrev pub decides : Packet → Line → Option Bool
  decides p (skipped_source _) = none
  decides p (skipped_destination _) = none
  decides p (statement parts accepts _) = tested p accepts (nft.parse (match_text parts))

  -- The verdict of the first line that has one decides.
  abbrev pub or_next : Option Bool → Bool → Bool
  or_next none next = next
  or_next (some verdict) next = verdict

  -- A chain with `policy drop`: whether it lets the packet pass.
  abbrev pub passes : Packet → List Line → Bool
  passes p [] = false
  passes p (line ∷ lines) = or_next (decides p line) (passes p lines)

  -- A script is loaded as a whole: with one line that is not read, nothing of it is in force.
  abbrev pub in_force : Packet → List Line → Option Bool
  in_force p lines = if all is_read lines then some (passes p lines) else none
