-- ===== src/Tests/Ipam.antt =====
-- Allocations in the subnet 10.0.0.0/29 (src/sdn_controller/core/use_cases/ipam.py).
use mathlib.Core.Path.{subst}
use nervum.Prelude.{
  Bool-cases, str_eq, ℕ, ◌<◌, ◌≤◌, ◌≡◌, refl, ◌↔◌, inl, inr, true, none, some, [], ◌∷◌, String,
  arith, All, Any,
}
use nervum.Errors.{ok-injective, ok, err, conflict}
use nervum.Address.{IpAddress, v4, same_family, to_int}
use nervum.Ipam.{
  contains, IpRange, make_range, covers, overlaps, SubnetSpec, Subnet, make_subnet, OwnerRef,
  dynamic, reservation,
}
use nervum.Ipam.Ranges.{IsRange, IsSubnet, make_range-IsRange, overlaps_iff, make_subnet-IsSubnet}
use nervum.Ipam.Allocator.{
  is_address_assignable, iter_candidates, next_available_ip, is_allocatable, pools_of, is_taken,
  taken_of,
}
use nervum.Ipam.Candidates.{LiesIn, IsFree}
use nervum.Ipam.Guarantees.{
  next_available_ip-IsFree, next_available_ip_exhausted, next_available_ip_lowest,
}
use nervum.Network.{Network, vlan}
use nervum.Allocations.{
  get_by_subnet_id, get_by_address, list_for_subnet, make_allocation, IpAllocation, Store,
  resolve_subnet, allocate_ip, reserve_ip,
}
use nervum.Allocations.Exclusive.{IsExclusive, allocate_ip-IsExclusive}
use nervum.Allocations.Reserved.{IsCanonical, reserve_ip-IsExclusive, reserve_ip_respelled}
use nervum.Tests.Syntax.{table, table-IsFaithful, net}

abbrev low : IpRange
low = record { start = "10.0.0.2"; end = "10.0.0.4"; first = v4 167772162; last = v4 167772164 }

abbrev high : IpRange
high = record { start = "10.0.0.4"; end = "10.0.0.6"; first = v4 167772164; last = v4 167772166 }

make_range-low : make_range table "10.0.0.2" "10.0.0.4" ≡ ok low
unfolding make_range
make_range-low = refl

make_range-IsRange_example :
    IsRange low
    × (table.ip_address "10.0.0.2" ≡ some low.first)
    × (table.ip_address "10.0.0.4" ≡ some low.last)
make_range-IsRange_example = make_range-IsRange table "10.0.0.2" "10.0.0.4" low make_range-low

overlaps_iff_example :
    (overlaps low high ≡ true) ↔ ((t : IpAddress) × (covers low t ≡ true) × (covers high t ≡ true))
overlaps_iff_example = overlaps_iff low high (ground arith) (ground arith)

abbrev spec : SubnetSpec
spec = record {
  id = "subnet_1";
  cidr = "10.0.0.0/29";
  gateway = some "10.0.0.1";
  dns_servers = "10.0.0.5" ∷ [];
  allocation_pools = low ∷ [];
  reserved_ranges =
      record { start = "10.0.0.3"; end = "10.0.0.3"; first = v4 167772163; last = v4 167772163 }
      ∷ [];
  dhcp = none;
  dns_zone = none;
}

abbrev subnet : Subnet
subnet = record { spec = spec; net = net; gateway_ip = some (v4 167772161) }

make_subnet-spec : make_subnet table spec ≡ ok subnet
unfolding make_subnet overlaps contains
make_subnet-spec = refl

make_subnet-IsSubnet_example : IsSubnet table subnet
make_subnet-IsSubnet_example = make_subnet-IsSubnet table spec subnet make_subnet-spec

-- .2 is in use, .3 is reserved, .4 is the first free address of the pool.
next_address : next_available_ip table subnet ("10.0.0.2" ∷ "not an address" ∷ []) ≡ ok "10.0.0.4"
unfolding next_available_ip iter_candidates is_allocatable contains
next_address = refl

exhausted : next_available_ip table subnet ("10.0.0.2" ∷ "10.0.0.4" ∷ []) ≡ err conflict
unfolding next_available_ip iter_candidates is_allocatable contains
exhausted = refl

known : pools_of table subnet.net subnet.allocation_pools ≡ ok (low ∷ [])
unfolding pools_of
known = refl

allocatable : (n : ℕ) → (n ≡ 167772162) → is_allocatable table subnet (v4 n) ≡ true
unfolding is_allocatable contains
allocatable n e = rw e

next_available_ip-IsFree_example :
    (a : IpAddress) × ("10.0.0.4" ≡ table.str a)
    × IsFree table subnet ("10.0.0.2" ∷ "not an address" ∷ []) a
    × Any (LiesIn a) (low ∷ [])
next_available_ip-IsFree_example =
    next_available_ip-IsFree table subnet ("10.0.0.2" ∷ "not an address" ∷ []) (low ∷ []) "10.0.0.4"
      known next_address

next_available_ip_exhausted_example :
    is_taken (taken_of table ("10.0.0.2" ∷ "10.0.0.4" ∷ [])) (v4 167772162) ≡ true
next_available_ip_exhausted_example =
    next_available_ip_exhausted table subnet ("10.0.0.2" ∷ "10.0.0.4" ∷ []) (low ∷ []) known
      exhausted (v4 167772162) refl (inl (omega arith)) (allocatable 167772162 refl)

next_available_ip_lowest_example :
    (a : IpAddress) × ("10.0.0.4" ≡ table.str a)
    × ((b : IpAddress)
        → same_family b subnet.net.network_address ≡ true
        → to_int low.first ≤ to_int b
        → to_int b < to_int a
        → is_allocatable table subnet b ≡ true
        → is_taken (taken_of table ("10.0.0.2" ∷ "not an address" ∷ [])) b ≡ true)
next_available_ip_lowest_example =
    next_available_ip_lowest table subnet ("10.0.0.2" ∷ "not an address" ∷ []) low "10.0.0.4" known
      next_address

abbrev network : Network
network = record {
  id = "net_1";
  name = "blue";
  type = vlan;
  created_at = 0;
  updated_at = 0;
  mtu = 1500;
  vlan_id = some 7;
  vni = none;
  subnet = some subnet;
  intent_version = 1;
  labels = [];
  node_ids = [];
  nat = none;
  firewall_policy = none;
  spec_hash = "h";
  project_id = none;
}

abbrev owner : OwnerRef
owner = record { type = "vm-port"; id = "vm_1" }

abbrev entry : String → String → IpAllocation
entry id address = record {
  id = id;
  subnet_id = "subnet_1";
  ip_address = address;
  owner = owner;
  kind = dynamic;
  allocated_at = 5;
  label = none;
}

abbrev store : Store
store = record {
  networks = ("net_1", network) ∷ [];
  allocations = ("ip_1", entry "ip_1" "10.0.0.2") ∷ [];
}

abbrev store_after : Store
store_after = record store {
  allocations = ("ip_1", entry "ip_1" "10.0.0.2") ∷ ("ip_2", entry "ip_2" "10.0.0.4") ∷ [];
}

allocate :
    allocate_ip table "ip_2" 5 "subnet_1" owner none store
    ≡ ok (store_after, entry "ip_2" "10.0.0.4")
unfolding allocate_ip resolve_subnet get_by_subnet_id list_for_subnet make_allocation
    next_available_ip iter_candidates is_allocatable contains
allocate = refl

-- Each stored subnet is one that `Subnet` accepted.
accepted_subnet : (s : Subnet) → resolve_subnet store.networks "subnet_1" ≡ ok s → IsSubnet table s
unfolding resolve_subnet get_by_subnet_id
accepted_subnet s h =
    subst (IsSubnet table) (ok-injective h)
      (make_subnet-IsSubnet table spec subnet make_subnet-spec)

exclusive : IsExclusive table store.allocations
exclusive sid = elim (Bool-cases (str_eq "subnet_1" sid)) [
  | inl e ↦ rw e (tt, tt)
  | inr e ↦ rw e tt
]

allocate_ip-IsExclusive_example : IsExclusive table store_after.allocations
allocate_ip-IsExclusive_example =
    allocate_ip-IsExclusive table "ip_2" 5 "subnet_1" owner none store store_after
      (entry "ip_2" "10.0.0.4") table-IsFaithful accepted_subnet refl exclusive allocate

abbrev reserved : IpAllocation
reserved = record (entry "ip_2" "10.0.0.4") { kind = reservation }

reserve :
    reserve_ip table "ip_2" 5 "subnet_1" "10.0.0.4" owner none store
    ≡ ok (
      record store { allocations = ("ip_1", entry "ip_1" "10.0.0.2") ∷ ("ip_2", reserved) ∷ [] },
      reserved,
    )
unfolding reserve_ip resolve_subnet get_by_subnet_id get_by_address make_allocation
    is_address_assignable contains
reserve = refl

IsCanonical-texts :
    (s : Subnet)
    → resolve_subnet store.networks "subnet_1" ≡ ok s
    → IsCanonical table s.net "10.0.0.4"
      × All
          (λ (b : IpAllocation). IsCanonical table s.net b.ip_address)
          (entry "ip_1" "10.0.0.2" ∷ [])
unfolding resolve_subnet get_by_subnet_id
IsCanonical-texts s h =
    subst
      (λ (t : Subnet).
        IsCanonical table t.net "10.0.0.4"
        × All (λ (b : IpAllocation). IsCanonical table t.net b.ip_address)
            (entry "ip_1" "10.0.0.2" ∷ []))
      (let e : subnet ≡ s = ok-injective h in e)
      ((v4 167772164, refl, refl, refl), ((v4 167772162, refl, refl, refl), tt))

reserve_ip-IsExclusive_example :
    IsExclusive table (("ip_1", entry "ip_1" "10.0.0.2") ∷ ("ip_2", reserved) ∷ [])
reserve_ip-IsExclusive_example =
    reserve_ip-IsExclusive table "ip_2" 5 "subnet_1" "10.0.0.4" owner none store
      (record store { allocations = ("ip_1", entry "ip_1" "10.0.0.2") ∷ ("ip_2", reserved) ∷ [] })
      reserved refl IsCanonical-texts exclusive reserve

resolved : resolve_subnet store.networks "subnet_1" ≡ ok subnet
unfolding resolve_subnet get_by_subnet_id
resolved = refl

assignable : is_address_assignable table subnet "010.0.0.2" ≡ ok tt
unfolding is_address_assignable contains
assignable = refl

no_clash : get_by_address "subnet_1" "010.0.0.2" store.allocations ≡ none
unfolding get_by_address
no_clash = refl

reserve_ip_respelled_example :
    (st' : Store) × (a : IpAllocation) × (reserve_ip table "ip_2" 5 "subnet_1" "010.0.0.2" owner
        none store
      ≡ ok (st', a))
    × ¬ IsExclusive table st'.allocations
reserve_ip_respelled_example =
    reserve_ip_respelled table "ip_2" 5 "subnet_1" "010.0.0.2" owner none store subnet
      (v4 167772162) resolved assignable no_clash refl (λ h. h.0 refl) refl refl refl
