-- ===== src/Ipam/Guarantees.antt =====
-- What `next_available_ip` of src/sdn_controller/core/services/ip_allocator.py hands out, and when
-- it gives up.
use mathlib.Core.Path.{subst, sym}
use mathlib.Core.List.{append-nil}
use nervum.Prelude.{
  ℕ, zero, suc, ◌+◌, ◌<◌, ◌≤◌, ◌≡◌, refl, ◌≢◌, ◌⊎◌, inl, inr, String, Bool, true, false, some, List,
  [], ◌∷◌, arith, Any, filter, Bool-cases, Option-cases, ◌==◌,
}
use nervum.Errors.{Result, ok, err, conflict, or_raise, ◌>>=◌}
use nervum.Address.{IpAddress, IpSyntax, to_int, same_family, with_int}
use nervum.Ipam.{IpRange, Subnet, contains, addresses_from}
use nervum.Ipam.Ranges.{any-false}
use nervum.Ipam.Allocator.{
  is_allocatable, pool_addresses, candidates_in, iter_candidates, pools_of, taken_of, is_taken,
  first_free, next_available_ip,
}
use nervum.Ipam.Candidates.{
  All-map, All-Any, LiesIn, IsFree, first_free_sound, first_free-none, candidates_in_sound,
  candidates_in_complete, some_path,
}

ne_of_test : (m n : ℕ) → (m == n) ≡ false → m ≢ n
ne_of_test m n e q = ground arith

not_gateway_of :
    (ip : IpSyntax) (subnet : Subnet) (a : IpAddress)
    → is_allocatable ip subnet a ≡ true
    → (gw : IpAddress) → subnet.gateway_ip ≡ some gw
    → to_int a ≢ to_int gw
unfolding is_allocatable
not_gateway_of ip subnet a h gw e same = ground arith

IsFree-tests :
    (ip : IpSyntax) (subnet : Subnet) (in_use : List String) (a : IpAddress)
    → is_allocatable ip subnet a ≡ true
    → is_taken (taken_of ip in_use) a ≡ false
    → IsFree ip subnet in_use a
unfolding is_allocatable
IsFree-tests ip subnet in_use a h t = record {
  inside = ground arith;
  not_network = ground arith;
  not_broadcast = ground arith;
  not_gateway = not_gateway_of ip subnet a h;
  not_reserved =
      any-false (λ rng. contains ip rng (ip.str a)) subnet.reserved_ranges (ground arith);
  not_taken =
      All-map _ _ (taken_of ip in_use) (λ n e. ne_of_test (to_int a) n e)
        (any-false (λ n. to_int a == n) (taken_of ip in_use) t);
}

-- How `next_available_ip` ends, by what the pools and the first free candidate are.
next_from :
    (ip : IpSyntax) (subnet : Subnet) (in_use : List String) (pools : List IpRange)
    → pools_of ip subnet.net subnet.allocation_pools ≡ ok pools
    → next_available_ip ip subnet in_use ≡ (
        or_raise (first_free (taken_of ip in_use) (candidates_in ip subnet pools)) conflict >>= λ a.
        ok (ip.str a))
unfolding next_available_ip iter_candidates
next_from ip subnet in_use pools e = rw e

-- What the allocator hands out is the text of a free address: one inside the network that is
-- neither its first nor its last, not the gateway, in no reserved range and not in use, and that
-- lies in one of the pools (in the network without its ends, if the subnet names no pool).
pub next_available_ip-IsFree :
    (ip : IpSyntax) (subnet : Subnet) (in_use : List String) (pools : List IpRange) (text : String)
    → pools_of ip subnet.net subnet.allocation_pools ≡ ok pools
    → next_available_ip ip subnet in_use ≡ ok text
    → (a : IpAddress) × (text ≡ ip.str a) × IsFree ip subnet in_use a × Any (LiesIn a) pools
next_available_ip-IsFree ip subnet in_use pools text e h =
    elim (Option-cases (first_free (taken_of ip in_use) (candidates_in ip subnet pools))) [
      | inl f ↦ absurd (cc (next_from ip subnet in_use pools e, h, f))
      | inr (a, f) ↦
          let ((allocatable, lies), free) =
            first_free_sound _ (taken_of ip in_use) (candidates_in ip subnet pools) a
              (candidates_in_sound ip subnet pools) f in
          (
            a,
            cc (next_from ip subnet in_use pools e, h, f),
            IsFree-tests ip subnet in_use a allocatable free,
            lies,
          )
    ]

-- The allocator reports `ConflictError` only when every address of the network's family that lies in
-- a pool and passes the tests is in use.
pub next_available_ip_exhausted :
    (ip : IpSyntax) (subnet : Subnet) (in_use : List String) (pools : List IpRange)
    → pools_of ip subnet.net subnet.allocation_pools ≡ ok pools
    → next_available_ip ip subnet in_use ≡ err conflict
    → (a : IpAddress) → same_family a subnet.net.network_address ≡ true
    → Any (LiesIn a) pools
    → is_allocatable ip subnet a ≡ true
    → is_taken (taken_of ip in_use) a ≡ true
next_available_ip_exhausted ip subnet in_use pools e h a family lies allocatable =
    elim (Option-cases (first_free (taken_of ip in_use) (candidates_in ip subnet pools))) [
      | inl f ↦
          let (b, taken, same) =
            All-Any _ _ (candidates_in ip subnet pools)
              (first_free-none (taken_of ip in_use) (candidates_in ip subnet pools) f)
              (candidates_in_complete ip subnet pools a family lies allocatable) in
          subst (λ c. is_taken (taken_of ip in_use) c ≡ true) same taken
      | inr (b, f) ↦ absurd (cc (next_from ip subnet in_use pools e, h, f))
    ]

first_free-cons :
    (p : IpAddress → Bool) (taken : List ℕ) (c : IpAddress) (cs : List IpAddress) (a : IpAddress)
    → first_free taken (filter p (c ∷ cs)) ≡ some a
    → (c ≡ a) ⊎ ((first_free taken (filter p cs) ≡ some a) × (p c ≡ true → is_taken taken c ≡ true))
first_free-cons p taken c cs a e = elim (Bool-cases (p c)) [
  | inr skipped ↦ inr (rw skipped at e, λ h. cc)
  | inl tested ↦ elim (Bool-cases (is_taken taken c)) [
    | inl t ↦ inr (rw t at (rw tested at e), λ h. t)
    | inr free ↦ inl (some_path (rw free at (rw tested at e)))
  ]
]

-- In one ascending run of addresses the first free one is below every other free one.
first_free_least :
    (p : IpAddress → Bool) (taken : List ℕ) (base : IpAddress) (n value : ℕ) (a b : IpAddress)
    → first_free taken (filter p (addresses_from base n value)) ≡ some a
    → same_family b base ≡ true
    → value ≤ to_int b
    → to_int b < to_int a
    → p b ≡ true
    → is_taken taken b ≡ true
first_free_least p taken base zero value a b e f lo lt pb = cc
first_free_least p taken base (suc n) value a b e f lo lt pb =
    elim (first_free-cons p taken (with_int base value) (addresses_from base n (value + 1)) a e) [
      | inl found ↦ absurd (ground arith)
      | inr (rest, t) ↦ elim (Bool-cases (value == to_int b)) [
        | inl here ↦
            let same : with_int base value ≡ b = ground arith in
            subst (λ c. is_taken taken c ≡ true) same (t (subst (λ c. p c ≡ true) (sym same) pb))
        | inr later ↦ first_free_least p taken base n (value + 1) a b rest f (ground arith) lt pb
      ]
    ]

append_nil_candidates :
    (ip : IpSyntax) (subnet : Subnet) (pool : IpRange)
    → candidates_in ip subnet (pool ∷ [])
      ≡ filter (is_allocatable ip subnet) (pool_addresses subnet pool)
append_nil_candidates ip subnet pool = append-nil _

-- With a single pool, or with none, the address handed out is the lowest: every lower address of the
-- pool that passes the tests is in use.
pub next_available_ip_lowest :
    (ip : IpSyntax) (subnet : Subnet) (in_use : List String) (pool : IpRange) (text : String)
    → pools_of ip subnet.net subnet.allocation_pools ≡ ok (pool ∷ [])
    → next_available_ip ip subnet in_use ≡ ok text
    → (a : IpAddress) × (text ≡ ip.str a)
      × ((b : IpAddress)
          → same_family b subnet.net.network_address ≡ true
          → to_int pool.first ≤ to_int b
          → to_int b < to_int a
          → is_allocatable ip subnet b ≡ true
          → is_taken (taken_of ip in_use) b ≡ true)
next_available_ip_lowest ip subnet in_use pool text e h =
    elim (Option-cases (first_free (taken_of ip in_use) (candidates_in ip subnet (pool ∷ [])))) [
      | inl f ↦ absurd (cc (next_from ip subnet in_use (pool ∷ []) e, h, f))
      | inr (a, f) ↦ (
        a,
        cc (next_from ip subnet in_use (pool ∷ []) e, h, f),
        λ b family lo lt allocatable.
            first_free_least (is_allocatable ip subnet) (taken_of ip in_use)
              subnet.net.network_address _ (to_int pool.first) a b
              (rw (append_nil_candidates ip subnet pool) at f) family lo lt allocatable,
      )
    ]

-- Where the allocator returns, the pools were known.
pub next_available_ip_pools :
    (ip : IpSyntax) (subnet : Subnet) (in_use : List String) (text : String)
    → next_available_ip ip subnet in_use ≡ ok text
    → (pools : List IpRange) × (pools_of ip subnet.net subnet.allocation_pools ≡ ok pools)
unfolding next_available_ip iter_candidates
next_available_ip_pools ip subnet in_use text h =
    go (pools_of ip subnet.net subnet.allocation_pools) refl
  where
    go :
        (r : Result (List IpRange))
        → pools_of ip subnet.net subnet.allocation_pools ≡ r
        → (pools : List IpRange) × (pools_of ip subnet.net subnet.allocation_pools ≡ ok pools)
    go (ok pools) e = (pools, e)
    go (err x) e = absurd (cc (rw e at h))
