-- ===== src/Tests/Policies.antt =====
-- A policy with two rules (src/sdn_controller/core/entities/security_policy.py).
use nervum.Prelude.{
  ◌≡◌, refl, ap, arith, ◌⊎◌, inl, inr, String, Bool, true, false, ◌&&◌, Option, none, some, List,
  [], ◌∷◌, map, all, All, str_eq, strs_eq, eq_iff, Bool-cases, if◌then◌else◌,
}
use nervum.Policy.{PolicyRule}
use nervum.Policy.{text_in}
use nervum.Policy.Compiler.{Lookups, compile_rule, cidrs_for, join}
use nervum.Policy.Nft.{
  Nft, Selector, source, destination, service, selector_text, selects, IsStatement, IsAccepted,
  Reads, IsDocumented, decides,
}
use nervum.Policy.Meaning.{rule_admits, policy_allows}
use nervum.Policy.Writable.{AreEnds}
use nervum.Policy.Openings.{compile_rule_opens}
use nervum.Policy.Lifecycle.{
  Call, adding, compiling, applying, IsValid, run, new_policy, run-new_policy-IsValid,
}

abbrev allow_web : PolicyRule
allow_web = record {
  rule_id = "r1";
  priority = 20;
  direction = "ingress";
  action = "allow";
  source_type = "cidr";
  source_value = "10.0.0.0/8";
  destination_type = "any";
  destination_value = "";
  service_object_id = some "web";
  enabled = true;
  comment = "";
  packet_count = 0;
  byte_count = 0;
}

abbrev deny_pool : PolicyRule
deny_pool = record allow_web {
  rule_id = "r2";
  priority = 10;
  action = "deny";
  source_type = "any";
  source_value = "";
  destination_type = "address_pool";
  destination_value = "p1";
  service_object_id = none;
}

abbrev tables : Lookups
tables = record {
  resolved_cidrs = ("address_pool:p1", "10.0.0.0/8" ∷ []) ∷ [];
  service_protos = ("web", "tcp") ∷ [];
  service_ports = ("web", "80" ∷ []) ∷ [];
}

-- A packet comes from the network or not, goes to it or not, and goes to port 80 over TCP or not.
abbrev Packet : Type 0
Packet = Bool × Bool × Bool

abbrev block : List String
block = "10.0.0.0/8" ∷ []

abbrev web : List String
web = "80" ∷ []

-- What nft knows of one network and one port, before it reads a text.
abbrev facts : Nft Packet
facts = record {
  parse = λ text. none;
  is_address_set = λ xs. strs_eq xs block;
  is_port_set = λ xs. strs_eq xs web;
  from_cidr = λ x p. str_eq x "10.0.0.0/8" && p.0;
  to_cidr = λ x p. str_eq x "10.0.0.0/8" && p.1;
  has_proto = λ x p. str_eq x "tcp" && p.2;
  to_port = λ x p. str_eq x "80" && p.2;
}

abbrev meets : List Selector → Option (Packet → Bool)
meets ss = some (λ p. all (selects facts p) ss)

abbrev read : String → Option (Packet → Bool)
read t =
    if str_eq t ""
    then meets []
    else if str_eq t "ip saddr 10.0.0.0/8"
    then meets (source block ∷ [])
    else if str_eq t "ip daddr 10.0.0.0/8"
    then meets (destination block ∷ [])
    else if str_eq t "tcp dport 80"
    then meets (service "tcp" web ∷ [])
    else if str_eq t "udp dport 80"
    then meets (service "udp" web ∷ [])
    else if str_eq t "ip saddr 10.0.0.0/8 tcp dport 80"
    then meets (source block ∷ service "tcp" web ∷ [])
    else if str_eq t "ip saddr 10.0.0.0/8 udp dport 80"
    then meets (source block ∷ service "udp" web ∷ [])
    else if str_eq t "ip daddr 10.0.0.0/8 tcp dport 80"
    then meets (destination block ∷ service "tcp" web ∷ [])
    else if str_eq t "ip daddr 10.0.0.0/8 udp dport 80"
    then meets (destination block ∷ service "udp" web ∷ [])
    else none

abbrev nft : Nft Packet
nft = record facts { parse = read }

only : (xs : List String) (x : String) → strs_eq xs (x ∷ []) ≡ true → xs ≡ x ∷ []
only [] x h = cc h
only (y ∷ []) x h = ap (λ z. z ∷ []) ((eq_iff y x).0 (ground arith))
only (y ∷ (z ∷ xs)) x h = ground arith

tcp_or_udp :
    (name : String) → text_in name ("tcp" ∷ "udp" ∷ []) ≡ true → (name ≡ "tcp") ⊎ (name ≡ "udp")
tcp_or_udp name h = elim (Bool-cases (str_eq name "tcp")) [
  | inl e ↦ inl ((eq_iff name "tcp").0 e)
  | inr e ↦ inr ((eq_iff name "udp").0 (ground (arith, h, e)))
]

abbrev IsRead : List Selector → Type 0
IsRead ss = Reads nft (join " " (map selector_text ss)) ss

abbrev AreBothRead : (List String → Selector) → Type 0
AreBothRead sel =
    IsRead (sel block ∷ service "tcp" web ∷ []) × IsRead (sel block ∷ service "udp" web ∷ [])

paired :
    (sel : List String → Selector) (xs ports : List String) (name : String)
    → AreBothRead sel
    → xs ≡ block
    → ports ≡ web
    → (name ≡ "tcp") ⊎ (name ≡ "udp")
    → IsRead (sel xs ∷ service name ports ∷ [])
paired sel xs ports name both e f (inl n) = rw (e, f, n) both.0
paired sel xs ports name both e f (inr n) = rw (e, f, n) both.1

single :
    (ports : List String) (name : String)
    → ports ≡ web
    → (name ≡ "tcp") ⊎ (name ≡ "udp")
    → IsRead (service name ports ∷ [])
single ports name f (inl n) = rw (f, n) (_, refl, λ p. refl)
single ports name f (inr n) = rw (f, n) (_, refl, λ p. refl)

reads : (ss : List Selector) → IsStatement ss → All (IsAccepted nft) ss → IsRead ss
reads [] h a = (_, refl, λ p. refl)
reads (source xs ∷ []) h a = rw (only xs "10.0.0.0/8" a.0) (_, refl, λ p. refl)
reads (destination xs ∷ []) h a = rw (only xs "10.0.0.0/8" a.0) (_, refl, λ p. refl)
reads (service name ports ∷ []) h a =
    single ports name (only ports "80" a.0.1) (tcp_or_udp name a.0.0)
reads (source xs ∷ (service name ports ∷ [])) h a =
    paired source xs ports name ((_, refl, λ p. refl), (_, refl, λ p. refl))
      (only xs "10.0.0.0/8" a.0) (only ports "80" a.1.0.1) (tcp_or_udp name a.1.0.0)
reads (destination xs ∷ (service name ports ∷ [])) h a =
    paired destination xs ports name ((_, refl, λ p. refl), (_, refl, λ p. refl))
      (only xs "10.0.0.0/8" a.0) (only ports "80" a.1.0.1) (tcp_or_udp name a.1.0.0)
reads (source xs ∷ (source ys ∷ [])) h a = absurd h
reads (source xs ∷ (destination ys ∷ [])) h a = absurd h
reads (destination xs ∷ (source ys ∷ [])) h a = absurd h
reads (destination xs ∷ (destination ys ∷ [])) h a = absurd h
reads (service name ports ∷ (s ∷ [])) h a = absurd h
reads (r ∷ (s ∷ (t ∷ ss))) h a = absurd h

nft-IsDocumented : IsDocumented nft
nft-IsDocumented = record { reads = reads }

abbrev rules : List PolicyRule
rules = allow_web ∷ deny_pool ∷ []

allowed : policy_allows nft tables "ingress" rules (true, false, true) ≡ true
allowed = refl

denied : policy_allows nft tables "ingress" rules (true, true, true) ≡ false
denied = refl

abbrev gone : Lookups
gone = record { resolved_cidrs = []; service_protos = []; service_ports = [] }

gone-AreEnds : AreEnds nft gone allow_web
unfolding cidrs_for
gone-AreEnds = (inr refl, refl, tt, λ e. cc e, λ e. cc e)

-- The packet does not go to the port of the rule's service.
compile_rule_opens_example :
    (rule_admits nft gone (true, false, false) allow_web ≡ false)
    × (decides nft (true, false, false) (compile_rule gone allow_web) ≡ some true)
compile_rule_opens_example =
    compile_rule_opens nft gone allow_web "web" (true, false, false) nft-IsDocumented gone-AreEnds
      refl refl refl refl refl

abbrev calls : List Call
calls = adding allow_web 1 ∷ adding deny_pool 2 ∷ compiling "table" 3 ∷ applying 4 ∷ []

run-new_policy-IsValid_example : IsValid (run calls (new_policy "sp_1" "web" [] 0))
run-new_policy-IsValid_example = run-new_policy-IsValid "sp_1" "web" 0 calls
