-- ===== src/Allocations.antt =====
-- The IPAM use cases of src/sdn_controller/core/use_cases/ipam.py with `IpAllocation` of
-- src/sdn_controller/core/entities/ip_allocation.py, over the in-memory repositories of
-- src/sdn_controller/adapters/memory/repositories.py, which keep deep copies: dicts of values. A
-- use case writes only after its last check, so one that raises leaves the store as it was. A new
-- identifier and the clock's reading are arguments.
pub mod Exclusive
pub mod Reserved
use nervum.Prelude.{
  ℕ, String, Bool, true, false, not, ◌&&◌, ◌||◌, Option, none, some, List, [], ◌∷◌, map, is_some,
  is_empty, str_eq, Dict, lookup, insert, erase, find_value, filter_values,
}
use nervum.Errors.{
  Result, ok, err, validation_error, not_found, conflict, value_error, raise_if, or_raise, for_each,
  ◌>>=◌, ◌>>◌,
}
use nervum.Address.{IpSyntax, IpNetwork, in_network}
use nervum.EdgeServices.{DhcpSpec}
use nervum.Ipam.{
  IpRange, OwnerRef, IpAllocationKind, dynamic, reservation, SubnetSpec, Subnet, make_subnet,
}
use nervum.Ipam.Allocator.{next_available_ip, is_address_assignable}
use nervum.Network.{Network, Canonical, bump_intent}

pub record IpAllocation : Type 0 where
  pub id : String
  pub subnet_id : String
  pub ip_address : String
  pub owner : OwnerRef
  pub kind : IpAllocationKind
  pub allocated_at : ℕ
  pub label : Option String

-- `IpAllocation.__post_init__`
unfoldable pub make_allocation : IpSyntax → IpAllocation → Result IpAllocation
make_allocation ip a = do
  raise_if (not (is_some (ip.ip_address a.ip_address))) validation_error
  raise_if (is_empty a.owner.type || is_empty a.owner.id) validation_error
  ok a

-- The two repositories.
pub record Store : Type 0 where
  pub networks : Dict Network
  pub allocations : Dict IpAllocation

has_subnet : String → Option Subnet → Bool
has_subnet sid none = false
has_subnet sid (some s) = str_eq s.id sid

unfoldable pub get_by_subnet_id : String → Dict Network → Option Network
unfolding has_subnet
get_by_subnet_id sid = find_value (λ n. has_subnet sid n.subnet)

abbrev pub in_subnet : String → IpAllocation → Bool
in_subnet sid a = str_eq a.subnet_id sid

unfoldable pub list_for_subnet : String → Dict IpAllocation → List IpAllocation
list_for_subnet sid = filter_values (in_subnet sid)

unfoldable pub get_by_address : String → String → Dict IpAllocation → Option IpAllocation
get_by_address sid address = find_value (λ a. in_subnet sid a && str_eq a.ip_address address)

-- `_resolve_subnet`
unfoldable pub resolve_subnet : Dict Network → String → Result Subnet
resolve_subnet networks sid = do
  network ← or_raise (get_by_subnet_id sid networks) not_found
  or_raise network.subnet not_found

-- `UpsertSubnetCommand`
pub record UpsertSubnetCommand : Type 0 where
  pub cidr : String
  pub gateway : Option String
  pub dns_servers : List String
  pub allocation_pools : List IpRange
  pub reserved_ranges : List IpRange
  pub dhcp : Option DhcpSpec
  pub dns_zone : Option String

id_or_new : Option Subnet → String → String
id_or_new none new_id = new_id
id_or_new (some s) new_id = s.id

-- `if ip_address(alloc.ip_address) not in net: raise ConflictError`
check_stranded : IpSyntax → IpNetwork → IpAllocation → Result (Unit {0})
check_stranded ip net alloc = do
  a ← or_raise (ip.ip_address alloc.ip_address) value_error
  raise_if (not (in_network a net)) conflict

check_previous : IpSyntax → IpNetwork → Option Subnet → Dict IpAllocation → Result (Unit {0})
unfolding check_stranded
check_previous ip net none allocations = ok tt
check_previous ip net (some s) allocations =
    for_each (check_stranded ip net) (list_for_subnet s.id allocations)

unfoldable pub upsert_subnet :
    (Canonical → String)
    → IpSyntax
    → String
    → ℕ
    → String
    → UpsertSubnetCommand
    → Store
    → Result (Store × Network)
unfolding id_or_new check_previous
upsert_subnet digest ip new_id now network_id cmd st = do
  network ← or_raise (lookup network_id st.networks) not_found
  subnet ← make_subnet ip (record {
    id = id_or_new network.subnet new_id;
    cidr = cmd.cidr;
    gateway = cmd.gateway;
    dns_servers = cmd.dns_servers;
    allocation_pools = cmd.allocation_pools;
    reserved_ranges = cmd.reserved_ranges;
    dhcp = cmd.dhcp;
    dns_zone = cmd.dns_zone;
  })
  check_previous ip subnet.net network.subnet st.allocations
  let network' = bump_intent digest now (record network { subnet = some subnet })
  ok (record st { networks = insert network'.id network' st.networks }, network')

-- `AllocateIp.execute`
unfoldable pub allocate_ip :
    IpSyntax
    → String
    → ℕ
    → String
    → OwnerRef
    → Option String
    → Store
    → Result (Store × IpAllocation)
allocate_ip ip new_id now subnet_id owner label st = do
  subnet ← resolve_subnet st.networks subnet_id
  let in_use = map (λ (a : IpAllocation). a.ip_address) (list_for_subnet subnet_id st.allocations)
  text ← next_available_ip ip subnet in_use
  allocation ← make_allocation ip (record {
    id = new_id;
    subnet_id = subnet_id;
    ip_address = text;
    owner = owner;
    kind = dynamic;
    allocated_at = now;
    label = label;
  })
  ok (record st { allocations = insert allocation.id allocation st.allocations }, allocation)

-- `ReserveIp.execute`
unfoldable pub reserve_ip :
    IpSyntax
    → String
    → ℕ
    → String
    → String
    → OwnerRef
    → Option String
    → Store
    → Result (Store × IpAllocation)
reserve_ip ip new_id now subnet_id address owner label st = do
  subnet ← resolve_subnet st.networks subnet_id
  is_address_assignable ip subnet address
  raise_if (is_some (get_by_address subnet_id address st.allocations)) conflict
  allocation ← make_allocation ip (record {
    id = new_id;
    subnet_id = subnet_id;
    ip_address = address;
    owner = owner;
    kind = reservation;
    allocated_at = now;
    label = label;
  })
  ok (record st { allocations = insert allocation.id allocation st.allocations }, allocation)

-- `ReleaseIp.execute`
unfoldable pub release_ip : String → Store → Store
release_ip allocation_id st = record st { allocations = erase allocation_id st.allocations }

-- `ListAllocations.execute`
unfoldable pub list_allocations : String → Store → Result (List IpAllocation)
list_allocations subnet_id st = do
  subnet ← resolve_subnet st.networks subnet_id
  ok (list_for_subnet subnet_id st.allocations)

-- `GetAllocation.execute`
unfoldable pub get_allocation : String → Store → Result IpAllocation
get_allocation allocation_id st = or_raise (lookup allocation_id st.allocations) not_found
