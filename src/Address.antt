-- ===== src/Address.antt =====
-- IP addresses as Python's `ipaddress` reads and prints them. An address is its family and its
-- number; the syntax of the texts is a parameter, since the program only calls it.
use nervum.Prelude.{
  none, ℕ, ◌+◌, ◌-◌, ◌≡◌, String, Bool, true, false, ◌&&◌, Option, some, leb, ltb, ◌==◌,
  if◌then◌else◌, ◌^◌,
}

pub data IpAddress : Type 0 where
  v4 : ℕ → IpAddress
  v6 : ℕ → IpAddress

-- `int(address)`
abbrev pub to_int : IpAddress → ℕ
to_int (v4 n) = n
to_int (v6 n) = n

-- `type(a) is type(b)`
abbrev pub same_family : IpAddress → IpAddress → Bool
same_family (v4 _) (v4 _) = true
same_family (v4 _) (v6 _) = false
same_family (v6 _) (v4 _) = false
same_family (v6 _) (v6 _) = true

-- `a == b`: of one family, with one number
abbrev pub addr_eq : IpAddress → IpAddress → Bool
addr_eq a b = same_family a b && to_int a == to_int b

-- `cls(i)` where `cls = type(a)`
abbrev pub with_int : IpAddress → ℕ → IpAddress
with_int (v4 _) n = v4 n
with_int (v6 _) n = v6 n

-- The number of addresses of a family.
abbrev pub family_size : IpAddress → ℕ
family_size (v4 _) = 2 ^ 32
family_size (v6 _) = 2 ^ 128

-- `a + k` and `a - k`: a `ValueError` outside the family.
abbrev pub plus : IpAddress → ℕ → Option IpAddress
plus a k = if ltb (to_int a + k) (family_size a) then some (with_int a (to_int a + k)) else none

abbrev pub minus : IpAddress → ℕ → Option IpAddress
minus a k = if leb k (to_int a) then some (with_int a (to_int a - k)) else none

-- A network: its first address, of a family, and the number of its addresses.
pub record IpNetwork : Type 0 where
  pub network_address : IpAddress
  pub num_addresses : ℕ

-- `int(net.broadcast_address)`, and the address
abbrev pub broadcast_int : IpNetwork → ℕ
broadcast_int net = to_int net.network_address + net.num_addresses - 1

abbrev pub broadcast_address : IpNetwork → IpAddress
broadcast_address net = with_int net.network_address (broadcast_int net)

-- `a in net`
abbrev pub in_network : IpAddress → IpNetwork → Bool
in_network a net =
    same_family a net.network_address
    && (leb (to_int net.network_address) (to_int a) && leb (to_int a) (broadcast_int net))

-- The text syntax. `none` stands for `ValueError`.
pub record IpSyntax : Type 0 where
  pub ip_address : String → Option IpAddress
  pub ip_network : String → Option IpNetwork
  pub str : IpAddress → String

-- What the documentation of `ipaddress` promises of an address in a network that was read: its
-- text reads back as that address.
pub record IsFaithful (ip : IpSyntax) : Type 0 where
  pub round_trip :
      (cidr : String) (net : IpNetwork) (a : IpAddress)
      → ip.ip_network cidr ≡ some net
      → in_network a net ≡ true
      → ip.ip_address (ip.str a) ≡ some a
