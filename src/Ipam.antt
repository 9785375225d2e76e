-- ===== src/Ipam.antt =====
-- Address ranges and subnets: src/sdn_controller/core/value_objects/ipam.py and the `Subnet` of
-- src/sdn_controller/core/entities/network.py. A range or subnet is an object whose
-- `__post_init__` has passed; beside each text it holds the address that the text reads as, since
-- the methods read the same texts again.
pub mod Ranges
pub mod Allocator
pub mod Candidates
pub mod Guarantees
use nervum.Prelude.{
  zero, suc, ◌-◌, ℕ, ◌+◌, String, Bool, true, false, not, ◌&&◌, ◌||◌, Option, none, some, List, [],
  ◌∷◌, map, leb, ltb, any, is_some,
}
use nervum.Errors.{
  Result, ok, err, validation_error, conflict, raise_if, or_raise, for_each, ◌>>=◌, ◌>>◌,
}
use nervum.Address.{IpAddress, IpNetwork, IpSyntax, to_int, same_family, in_network, with_int}
use nervum.EdgeServices.{DhcpSpec}

pub record IpRange : Type 0 where
  pub start : String
  pub end : String
  pub first : IpAddress
  pub last : IpAddress

unfoldable pub make_range : IpSyntax → String → String → Result IpRange
make_range ip start end = do
  first ← or_raise (ip.ip_address start) validation_error
  last ← or_raise (ip.ip_address end) validation_error
  raise_if (not (same_family first last)) validation_error
  raise_if (ltb (to_int last) (to_int first)) validation_error
  ok (record { start = start; end = end; first = first; last = last })

-- `start <= target <= end`, for a target of the range's family
abbrev pub covers : IpRange → IpAddress → Bool
covers rng target =
    same_family rng.first target
    && (leb (to_int rng.first) (to_int target) && leb (to_int target) (to_int rng.last))

contains_target : IpRange → Option IpAddress → Bool
contains_target rng none = false
contains_target rng (some target) = covers rng target

unfoldable pub contains : IpSyntax → IpRange → String → Bool
unfolding contains_target
contains ip rng address = contains_target rng (ip.ip_address address)

unfoldable pub overlaps : IpRange → IpRange → Bool
overlaps a b =
    same_family a.first b.first
    && (leb (to_int a.first) (to_int b.last) && leb (to_int b.first) (to_int a.last))

-- `range(start, start + n)`, as addresses of the family of `a`
abbrev pub addresses_from : IpAddress → ℕ → ℕ → List IpAddress
addresses_from a zero value = []
addresses_from a (suc n) value = with_int a value ∷ addresses_from a n (value + 1)

unfoldable pub iter_addresses : IpSyntax → IpRange → List String
iter_addresses ip rng =
    map ip.str
      (addresses_from rng.first (to_int rng.last + 1 - to_int rng.first) (to_int rng.first))

pub record OwnerRef : Type 0 where
  pub type : String
  pub id : String

pub data IpAllocationKind : Type 0 where
  dynamic reservation : IpAllocationKind

-- The arguments of `Subnet(...)`.
pub record SubnetSpec : Type 0 where
  pub id : String
  pub cidr : String
  pub gateway : Option String
  pub dns_servers : List String
  pub allocation_pools : List IpRange
  pub reserved_ranges : List IpRange
  pub dhcp : Option DhcpSpec
  pub dns_zone : Option String

pub record Subnet : Type 0 where
  pub spec : SubnetSpec
  pub open spec use *
  pub net : IpNetwork
  pub gateway_ip : Option IpAddress

-- `_require_inside_cidr`
require_inside_cidr : IpNetwork → IpRange → Result (Unit {0})
require_inside_cidr net rng =
    raise_if (not (in_network rng.first net) || not (in_network rng.last net)) validation_error

read_gateway : IpSyntax → IpNetwork → Option String → Result (Option IpAddress)
read_gateway ip net none = ok none
read_gateway ip net (some text) = do
  gw ← or_raise (ip.ip_address text) validation_error
  raise_if (not (in_network gw net)) validation_error
  ok (some gw)

-- The two nested loops over the pools.
any_overlap : List IpRange → Bool
any_overlap [] = false
any_overlap (a ∷ rest) = any (overlaps a) rest || any_overlap rest

gateway_in_pool : IpSyntax → List IpRange → Option String → Bool
gateway_in_pool ip pools none = false
gateway_in_pool ip pools (some text) = any (λ pool. contains ip pool text) pools

unfoldable pub make_subnet : IpSyntax → SubnetSpec → Result Subnet
unfolding require_inside_cidr read_gateway any_overlap gateway_in_pool
make_subnet ip spec = do
  net ← or_raise (ip.ip_network spec.cidr) validation_error
  gateway_ip ← read_gateway ip net spec.gateway
  for_each (λ ds. raise_if (not (is_some (ip.ip_address ds))) validation_error) spec.dns_servers
  for_each (require_inside_cidr net) spec.allocation_pools
  for_each (require_inside_cidr net) spec.reserved_ranges
  raise_if (any_overlap spec.allocation_pools) validation_error
  raise_if (gateway_in_pool ip spec.allocation_pools spec.gateway) validation_error
  ok (record { spec = spec; net = net; gateway_ip = gateway_ip })
