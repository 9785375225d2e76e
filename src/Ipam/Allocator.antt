-- ===== src/Ipam/Allocator.antt =====
-- The allocator: src/sdn_controller/core/services/ip_allocator.py. The generator of candidates is
-- the list of what it yields.
use nervum.Prelude.{
  ℕ, ◌+◌, ◌-◌, String, Bool, false, not, ◌&&◌, ◌||◌, Option, none, some, List, [], ◌∷◌, ◌++◌, ◌==◌,
  any, filter, if◌then◌else◌,
}
use nervum.Errors.{
  Result, ok, validation_error, conflict, value_error, raise_if, or_raise, ◌>>=◌, ◌>>◌,
}
use nervum.Address.{
  IpAddress, IpNetwork, IpSyntax, to_int, addr_eq, in_network, broadcast_address, plus, minus,
}
use nervum.Ipam.{IpRange, Subnet, make_range, contains, addresses_from}

-- `subnet.allocation_pools or (IpRange(str(network + 1), str(broadcast - 1)),)`
whole_network : IpSyntax → IpNetwork → Result (List IpRange)
whole_network ip net = do
  start ← or_raise (plus net.network_address 1) value_error
  end ← or_raise (minus (broadcast_address net) 1) value_error
  pool ← make_range ip (ip.str start) (ip.str end)
  ok (pool ∷ [])

unfoldable pub pools_of : IpSyntax → IpNetwork → List IpRange → Result (List IpRange)
unfolding whole_network
pools_of ip net [] = whole_network ip net
pools_of ip net (pool ∷ pools) = ok (pool ∷ pools)

-- `gateway_int is not None and int(address) == gateway_int`
is_gateway : Option IpAddress → IpAddress → Bool
is_gateway none address = false
is_gateway (some gw) address = to_int address == to_int gw

-- The tests that skip an address of a pool.
unfoldable pub is_allocatable : IpSyntax → Subnet → IpAddress → Bool
unfolding is_gateway
is_allocatable ip subnet address =
    in_network address subnet.net
    && (not (
          addr_eq address subnet.net.network_address
          || addr_eq address (broadcast_address subnet.net))
        && (not (is_gateway subnet.gateway_ip address)
            && not (any (λ rng. contains ip rng (ip.str address)) subnet.reserved_ranges)))

-- `range(int(pool.start), int(pool.end) + 1)`, as addresses of the network's family
abbrev pub pool_addresses : Subnet → IpRange → List IpAddress
pool_addresses subnet pool =
    addresses_from subnet.net.network_address (to_int pool.last + 1 - to_int pool.first)
      (to_int pool.first)

abbrev pub candidates_in : IpSyntax → Subnet → List IpRange → List IpAddress
candidates_in ip subnet [] = []
candidates_in ip subnet (pool ∷ pools) =
    filter (is_allocatable ip subnet) (pool_addresses subnet pool) ++ candidates_in ip subnet pools

unfoldable pub iter_candidates : IpSyntax → Subnet → Result (List IpAddress)
unfolding pools_of
iter_candidates ip subnet = do
  pools ← pools_of ip subnet.net subnet.allocation_pools
  ok (candidates_in ip subnet pools)

-- `taken`: a text that does not read as an address is skipped
abbrev pub add_taken : Option IpAddress → List ℕ → List ℕ
add_taken none taken = taken
add_taken (some a) taken = to_int a ∷ taken

abbrev pub taken_of : IpSyntax → List String → List ℕ
taken_of ip [] = []
taken_of ip (raw ∷ in_use) = add_taken (ip.ip_address raw) (taken_of ip in_use)

abbrev pub is_taken : List ℕ → IpAddress → Bool
is_taken taken a = any (λ t. to_int a == t) taken

-- The loop over the candidates.
abbrev pub first_free : List ℕ → List IpAddress → Option IpAddress
first_free taken [] = none
first_free taken (a ∷ candidates) =
    let rest = first_free taken candidates in if is_taken taken a then rest else some a

unfoldable pub next_available_ip : IpSyntax → Subnet → List String → Result String
next_available_ip ip subnet in_use = do
  candidates ← iter_candidates ip subnet
  candidate ← or_raise (first_free (taken_of ip in_use) candidates) conflict
  ok (ip.str candidate)

is_gateway_address : Option IpAddress → IpAddress → Bool
is_gateway_address none target = false
is_gateway_address (some gw) target = addr_eq gw target

-- `subnet.allocation_pools and not any(p.contains(address) for p in subnet.allocation_pools)`
is_outside : IpSyntax → String → List IpRange → Bool
is_outside ip address [] = false
is_outside ip address (pool ∷ pools) = not (any (λ p. contains ip p address) (pool ∷ pools))

unfoldable pub is_address_assignable : IpSyntax → Subnet → String → Result (Unit {0})
unfolding is_gateway_address is_outside
is_address_assignable ip subnet address = do
  target ← or_raise (ip.ip_address address) validation_error
  raise_if (not (in_network target subnet.net)) validation_error
  raise_if (is_gateway_address subnet.gateway_ip target) conflict
  raise_if (any (λ rng. contains ip rng address) subnet.reserved_ranges) conflict
  raise_if (is_outside ip address subnet.allocation_pools) conflict
