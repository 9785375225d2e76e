-- ===== src/Ipam/Ranges.antt =====
-- What ranges and subnets guarantee once their `__post_init__` has passed
-- (src/sdn_controller/core/value_objects/ipam.py, src/sdn_controller/core/entities/network.py).
use nervum.Prelude.{
  ◌≤◌, ◌≡◌, ◌↔◌, String, Bool, true, false, Option, none, some, List, [], ◌∷◌, arith, any, All, max,
  Option-cases, inl, inr,
}
use nervum.Errors.{ok, for_each}
use nervum.Address.{IpAddress, IpNetwork, IpSyntax, to_int, same_family, in_network, with_int}
use nervum.Ipam.{
  IpRange, Subnet, SubnetSpec, make_range, contains, covers, overlaps, make_subnet,
  require_inside_cidr, any_overlap, gateway_in_pool, read_gateway,
}

-- A range runs upward within one address family.
pub record IsRange (rng : IpRange) : Type 0 where
  pub one_family : same_family rng.first rng.last ≡ true
  pub upward : to_int rng.first ≤ to_int rng.last

-- A range that was made holds the texts it was made from, and runs upward in one family.
pub make_range-IsRange :
    (ip : IpSyntax) (s e : String) (rng : IpRange)
    → make_range ip s e ≡ ok rng
    → IsRange rng × (ip.ip_address s ≡ some rng.first) × (ip.ip_address e ≡ some rng.last)
unfolding make_range
make_range-IsRange ip s e rng h = ground arith

-- An address that two overlapping ranges share: the later of their first addresses.
later_first : IpRange → IpRange → IpAddress
later_first a b = with_int a.first (max (to_int a.first) (to_int b.first))

-- `overlaps` tells exactly whether some address lies in both ranges.
pub overlaps_iff :
    (a b : IpRange)
    → IsRange a
    → IsRange b
    → (overlaps a b ≡ true) ↔ ((t : IpAddress) × (covers a t ≡ true) × (covers b t ≡ true))
unfolding overlaps later_first
overlaps_iff a b ra rb = (λ h. (later_first a b, ground arith, ground arith), λ h. ground arith)

-- An address lies in a range: it is of the range's family, and not before its first address nor after
-- its last.
abbrev pub Holds : IpRange → IpAddress → Type 0
Holds rng t =
    (same_family rng.first t ≡ true) × (to_int rng.first ≤ to_int t) × (to_int t ≤ to_int rng.last)

-- No address lies in both ranges.
abbrev pub AreApart : IpRange → IpRange → Type 0
AreApart a b = (t : IpAddress) → Holds a t → ¬ Holds b t

-- No two of the ranges, at different places of the list, have an address in common.
abbrev pub AllDisjoint : List IpRange → Type 0
AllDisjoint [] = Unit
AllDisjoint (a ∷ rest) = All (AreApart a) rest × AllDisjoint rest

overlaps-AreApart : (a b : IpRange) → overlaps a b ≡ false → AreApart a b
unfolding overlaps
overlaps-AreApart a b h t ha hb = ground arith

contains-Holds :
    (ip : IpSyntax) (rng : IpRange) (text : String) (t : IpAddress)
    → contains ip rng text ≡ false
    → ip.ip_address text ≡ some t
    → ¬ Holds rng t
unfolding contains
contains-Holds ip rng text t h e held = ground (arith, h, e, held)

All-map {ℓ} :
    {A : Type ℓ} {P Q : A → Type 0} (xs : List A) → ((x : A) → P x → Q x) → All P xs → All Q xs
All-map [] f h = tt
All-map (x ∷ xs) f h = (f x h.0, All-map xs f h.1)

pub any-false {ℓ} :
    {A : Type ℓ} (p : A → Bool) (xs : List A) → any p xs ≡ false → All (λ x. p x ≡ false) xs
any-false p [] h = tt
any-false p (x ∷ xs) h = ground (arith, any-false p xs)

any_overlap-AllDisjoint : (pools : List IpRange) → any_overlap pools ≡ false → AllDisjoint pools
unfolding any_overlap
any_overlap-AllDisjoint [] h = tt
any_overlap-AllDisjoint (a ∷ rest) h = (
  All-map rest (overlaps-AreApart a) (any-false (overlaps a) rest (ground arith)),
  any_overlap-AllDisjoint rest (ground arith),
)

-- Every address of the range is in the network.
abbrev pub IsInside : IpNetwork → IpRange → Type 0
IsInside net rng = (t : IpAddress) → Holds rng t → in_network t net ≡ true

ends-IsInside :
    (net : IpNetwork) (rng : IpRange)
    → in_network rng.first net ≡ true
    → in_network rng.last net ≡ true
    → IsInside net rng
ends-IsInside net rng first last t held = ground arith

require_inside_cidr-IsInside :
    (net : IpNetwork) (rngs : List IpRange)
    → for_each (require_inside_cidr net) rngs ≡ ok tt
    → All (IsInside net) rngs
unfolding require_inside_cidr
require_inside_cidr-IsInside net [] h = tt
require_inside_cidr-IsInside net (rng ∷ rngs) h = (
  ends-IsInside net rng (ground arith) (ground arith),
  require_inside_cidr-IsInside net rngs (ground arith),
)

-- What a subnet promises to the allocator.
pub record IsSubnet (ip : IpSyntax) (s : Subnet) : Type 0 where
  pub network : ip.ip_network s.cidr ≡ some s.net
  pub pools_inside : All (IsInside s.net) s.allocation_pools
  pub reserved_inside : All (IsInside s.net) s.reserved_ranges
  pub pools_disjoint : AllDisjoint s.allocation_pools
  pub gateway_inside :
      (gw : String)
      → s.gateway ≡ some gw
      → (t : IpAddress) × (ip.ip_address gw ≡ some t) × (in_network t s.net ≡ true)
  pub no_gateway :
      (gw : String) (t : IpAddress)
      → s.gateway ≡ some gw
      → ip.ip_address gw ≡ some t
      → All (λ pool. ¬ Holds pool t) s.allocation_pools

gateway_inside_of :
    (ip : IpSyntax) (net : IpNetwork) (gateway : Option String) (a : Option IpAddress)
    → read_gateway ip net gateway ≡ ok a
    → (gw : String) → gateway ≡ some gw
    → (t : IpAddress) × (ip.ip_address gw ≡ some t) × (in_network t net ≡ true)
unfolding read_gateway
gateway_inside_of ip net none a h gw e = cc e
gateway_inside_of ip net (some text) a h gw e = elim (Option-cases (ip.ip_address text)) [
  | inl none_read ↦ ground (arith, h, none_read)
  | inr (t, read) ↦ (t, cc (read, e), ground (arith, h, read))
]

no_gateway_of :
    (ip : IpSyntax) (pools : List IpRange) (gateway : Option String)
    → gateway_in_pool ip pools gateway ≡ false
    → (gw : String) (t : IpAddress) → gateway ≡ some gw
    → ip.ip_address gw ≡ some t
    → All (λ pool. ¬ Holds pool t) pools
unfolding gateway_in_pool
no_gateway_of ip pools none h gw t e read = cc e
no_gateway_of ip pools (some text) h gw t e read =
    All-map pools (λ pool free. contains-Holds ip pool text t free (cc (read, e)))
      (any-false (λ pool. contains ip pool text) pools h)

make_subnet-parts :
    (ip : IpSyntax) (spec : SubnetSpec) (s : Subnet)
    → make_subnet ip spec ≡ ok s
    → (s.spec ≡ spec)
      × (ip.ip_network spec.cidr ≡ some s.net)
      × (read_gateway ip s.net spec.gateway ≡ ok s.gateway_ip)
      × (for_each (require_inside_cidr s.net) spec.allocation_pools ≡ ok tt)
      × (for_each (require_inside_cidr s.net) spec.reserved_ranges ≡ ok tt)
      × (any_overlap spec.allocation_pools ≡ false)
      × (gateway_in_pool ip spec.allocation_pools spec.gateway ≡ false)
unfolding make_subnet
make_subnet-parts ip spec s h = ground arith

-- A subnet that was made has every address of its pools and reserved ranges in its network, no
-- address lies in two of its pools, and its gateway, if it has one, is an address of the network
-- that lies in no pool.
pub make_subnet-IsSubnet :
    (ip : IpSyntax) (spec : SubnetSpec) (s : Subnet) → make_subnet ip spec ≡ ok s → IsSubnet ip s
make_subnet-IsSubnet ip spec s h =
    let (same, net, read, pools, reserved, apart, gateway) = make_subnet-parts ip spec s h in
    record {
      network = rw same net;
      pools_inside = rw same (require_inside_cidr-IsInside s.net spec.allocation_pools pools);
      reserved_inside = rw same (require_inside_cidr-IsInside s.net spec.reserved_ranges reserved);
      pools_disjoint = rw same (any_overlap-AllDisjoint spec.allocation_pools apart);
      gateway_inside = rw same (gateway_inside_of ip s.net spec.gateway s.gateway_ip read);
      no_gateway = rw same (no_gateway_of ip spec.allocation_pools spec.gateway gateway);
    }
