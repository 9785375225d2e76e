-- ===== src/Ipam/Candidates.antt =====
-- The candidates of the allocator of src/sdn_controller/core/services/ip_allocator.py: exactly the
-- addresses of the pools that pass its tests.
use mathlib.Core.Path.{subst}
use nervum.Prelude.{
  ℕ, zero, suc, ◌+◌, ◌<◌, ◌≤◌, ◌≡◌, ◌≢◌, inl, inr, String, Bool, true, false, none, some, List, [],
  ◌∷◌, ◌++◌, arith, All, Any, All-append, filter, Bool-cases, ◌==◌,
}
use nervum.Address.{
  IpAddress, IpSyntax, to_int, same_family, addr_eq, in_network, broadcast_address,
}
use nervum.Ipam.{IpRange, Subnet, contains, addresses_from}
use nervum.Ipam.Allocator.{
  is_allocatable, pool_addresses, candidates_in, taken_of, is_taken, first_free,
}

module _ {ℓ} {A : Type ℓ} where
  All-filter :
      (p : A → Bool) (P : A → Type 0) (xs : List A)
      → All P xs
      → All (λ x. (p x ≡ true) × P x) (filter p xs)
  All-filter p P [] h = tt
  All-filter p P (x ∷ xs) h = elim (Bool-cases (p x)) [
    | inl e ↦ rw e ((e, h.0), All-filter p P xs h.1)
    | inr e ↦ rw e (All-filter p P xs h.1)
  ]

  Any-filter :
      (p : A → Bool) (P : A → Type 0) (xs : List A)
      → Any (λ x. (p x ≡ true) × P x) xs
      → Any P (filter p xs)
  Any-filter p P [] h = h
  Any-filter p P (x ∷ xs) (inl (e, h)) = rw e (inl h)
  Any-filter p P (x ∷ xs) (inr h) = elim (Bool-cases (p x)) [
    | inl e ↦ rw e (inr (Any-filter p P xs h))
    | inr e ↦ rw e (Any-filter p P xs h)
  ]

  Any-append-left : (P : A → Type 0) (xs ys : List A) → Any P xs → Any P (xs ++ ys)
  Any-append-left P (x ∷ xs) ys (inl h) = inl h
  Any-append-left P (x ∷ xs) ys (inr h) = inr (Any-append-left P xs ys h)
  Any-append-left P [] ys h = absurd h

  Any-append-right : (P : A → Type 0) (xs ys : List A) → Any P ys → Any P (xs ++ ys)
  Any-append-right P [] ys h = h
  Any-append-right P (x ∷ xs) ys h = inr (Any-append-right P xs ys h)

  pub All-map : (P Q : A → Type 0) (xs : List A) → ((x : A) → P x → Q x) → All P xs → All Q xs
  All-map P Q [] f h = tt
  All-map P Q (x ∷ xs) f h = (f x h.0, All-map P Q xs f h.1)

  pub All-Any : (P Q : A → Type 0) (xs : List A) → All P xs → Any Q xs → (x : A) × P x × Q x
  All-Any P Q (x ∷ xs) h (inl q) = (x, h.0, q)
  All-Any P Q (x ∷ xs) h (inr q) = All-Any P Q xs h.1 q
  All-Any P Q [] h q = absurd q

-- The addresses of a counted range, and each of them.
addresses_from_bounds :
    (base : IpAddress) (n value : ℕ)
    → All
        (λ a. (same_family a base ≡ true) × (value ≤ to_int a) × (to_int a < value + n))
        (addresses_from base n value)
addresses_from_bounds base zero value = tt
addresses_from_bounds base (suc n) value = (
  ground arith,
  All-map _ _ (addresses_from base n (value + 1)) (λ a h. ground arith)
      (addresses_from_bounds base n (value + 1)),
)

addresses_from_complete :
    (base : IpAddress) (n value : ℕ) (a : IpAddress)
    → same_family a base ≡ true
    → value ≤ to_int a
    → to_int a < value + n
    → Any (λ b. b ≡ a) (addresses_from base n value)
addresses_from_complete base zero value a f lo hi = absurd (omega arith)
addresses_from_complete base (suc n) value a f lo hi = elim (Bool-cases (value == to_int a)) [
  | inl here ↦ inl (ground arith)
  | inr later ↦ inr (addresses_from_complete base n (value + 1) a f (ground arith) (omega arith))
]

pub some_path : {a b : IpAddress} → some a ≡ some b → a ≡ b
some_path h = cc

-- The first free candidate is a candidate that is not taken; with none, all candidates are taken.
pub first_free_sound :
    (P : IpAddress → Type 0) (taken : List ℕ) (cs : List IpAddress) (a : IpAddress)
    → All P cs
    → first_free taken cs ≡ some a
    → P a × (is_taken taken a ≡ false)
first_free_sound P taken [] a h e = cc
first_free_sound P taken (c ∷ cs) a h e = elim (Bool-cases (is_taken taken c)) [
  | inl t ↦ first_free_sound P taken cs a h.1 (rw t at e)
  | inr f ↦
      let same : c ≡ a = cc (f, e) in
      (subst P same h.0, subst (λ x. is_taken taken x ≡ false) same f)
]

pub first_free-none :
    (taken : List ℕ) (cs : List IpAddress)
    → first_free taken cs ≡ none
    → All (λ c. is_taken taken c ≡ true) cs
first_free-none taken [] e = tt
first_free-none taken (c ∷ cs) e = ground (arith, first_free-none taken cs)

-- The number of an address lies in a pool.
abbrev pub LiesIn : IpAddress → IpRange → Type 0
LiesIn a pool = (to_int pool.first ≤ to_int a) × (to_int a ≤ to_int pool.last)

Any-keep :
    (p : IpAddress → Bool) (a : IpAddress) (xs : List IpAddress)
    → p a ≡ true
    → Any (λ b. b ≡ a) xs
    → Any (λ b. (p b ≡ true) × (b ≡ a)) xs
Any-keep p a (x ∷ xs) h (inl e) = inl (rw e h, e)
Any-keep p a (x ∷ xs) h (inr m) = inr (Any-keep p a xs h m)
Any-keep p a [] h m = absurd m

module _ (ip : IpSyntax) (subnet : Subnet) where
  -- Every candidate passes the tests and lies in one of the pools.
  pub candidates_in_sound :
      (pools : List IpRange)
      → All
          (λ a. (is_allocatable ip subnet a ≡ true) × Any (LiesIn a) pools)
          (candidates_in ip subnet pools)
  candidates_in_sound [] = tt
  candidates_in_sound (pool ∷ pools) =
      All-append _ (filter (is_allocatable ip subnet) (pool_addresses subnet pool))
        (candidates_in ip subnet pools)
        (All-filter (is_allocatable ip subnet) _ (pool_addresses subnet pool) (
          All-map _ _ (pool_addresses subnet pool) (λ a h. inl (omega arith))
            (addresses_from_bounds subnet.net.network_address _ (to_int pool.first))))
        (All-map _ _ (candidates_in ip subnet pools) (λ a h. (h.0, inr h.1))
          (candidates_in_sound pools))

  -- Every address of the family that lies in a pool and passes the tests is a candidate.
  pub candidates_in_complete :
      (pools : List IpRange) (a : IpAddress)
      → same_family a subnet.net.network_address ≡ true
      → Any (LiesIn a) pools
      → is_allocatable ip subnet a ≡ true
      → Any (λ b. b ≡ a) (candidates_in ip subnet pools)
  candidates_in_complete (pool ∷ pools) a f (inl h) ok_a =
      Any-append-left _ (filter (is_allocatable ip subnet) (pool_addresses subnet pool))
        (candidates_in ip subnet pools)
        (Any-filter (is_allocatable ip subnet) _ (pool_addresses subnet pool) (
          Any-keep (is_allocatable ip subnet) a (pool_addresses subnet pool) ok_a (
            addresses_from_complete subnet.net.network_address _ (to_int pool.first) a f h.0
              (omega arith))))
  candidates_in_complete (pool ∷ pools) a f (inr h) ok_a =
      Any-append-right _ (filter (is_allocatable ip subnet) (pool_addresses subnet pool))
        (candidates_in ip subnet pools) (candidates_in_complete pools a f h ok_a)
  candidates_in_complete [] a f h ok_a = absurd h

-- An address that the allocator may hand out.
pub record IsFree (ip : IpSyntax) (subnet : Subnet) (in_use : List String) (a : IpAddress)
    : Type 0 where
  pub inside : in_network a subnet.net ≡ true
  pub not_network : addr_eq a subnet.net.network_address ≡ false
  pub not_broadcast : addr_eq a (broadcast_address subnet.net) ≡ false
  pub not_gateway : (gw : IpAddress) → subnet.gateway_ip ≡ some gw → to_int a ≢ to_int gw
  pub not_reserved : All (λ rng. contains ip rng (ip.str a) ≡ false) subnet.reserved_ranges
  pub not_taken : All (λ t. to_int a ≢ t) (taken_of ip in_use)
