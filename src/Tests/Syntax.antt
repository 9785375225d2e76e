-- ===== src/Tests/Syntax.antt =====
-- A text syntax that is read and printed by table: the network 10.0.0.0/29, its eight addresses, and
-- a second spelling of its third address.
use nervum.Prelude.{
  ℕ, ◌≡◌, String, true, Option, none, some, ◌==◌, str_eq, if◌then◌else◌, arith, inl, inr, ◌⊎◌,
}
use nervum.Address.{IpAddress, v4, v6, IpNetwork, IpSyntax, IsFaithful, in_network}

abbrev pub base : ℕ
base = 167772160

abbrev pub net : IpNetwork
net = record { network_address = v4 base; num_addresses = 8 }

abbrev read : String → Option IpAddress
read t =
    if str_eq t "10.0.0.0"
    then some (v4 167772160)
    else if str_eq t "10.0.0.1"
    then some (v4 167772161)
    else if str_eq t "10.0.0.2"
    then some (v4 167772162)
    else if str_eq t "010.0.0.2"
    then some (v4 167772162)
    else if str_eq t "10.0.0.3"
    then some (v4 167772163)
    else if str_eq t "10.0.0.4"
    then some (v4 167772164)
    else if str_eq t "10.0.0.5"
    then some (v4 167772165)
    else if str_eq t "10.0.0.6"
    then some (v4 167772166)
    else if str_eq t "10.0.0.7"
    then some (v4 167772167)
    else none

abbrev print_v4 : ℕ → String
print_v4 n =
    if n == 167772160
    then "10.0.0.0"
    else if n == 167772161
    then "10.0.0.1"
    else if n == 167772162
    then "10.0.0.2"
    else if n == 167772163
    then "10.0.0.3"
    else if n == 167772164
    then "10.0.0.4"
    else if n == 167772165
    then "10.0.0.5"
    else if n == 167772166
    then "10.0.0.6"
    else if n == 167772167
    then "10.0.0.7"
    else "?"

abbrev print : IpAddress → String
print (v4 n) = print_v4 n
print (v6 n) = "?"

abbrev read_network : String → Option IpNetwork
read_network t = if str_eq t "10.0.0.0/29" then some net else none

abbrev pub table : IpSyntax
table = record { ip_address = read; ip_network = read_network; str = print }

OneOf : ℕ → Type 0
OneOf n =
    (n ≡ 167772160)
    ⊎ (n ≡ 167772161)
    ⊎ (n ≡ 167772162)
    ⊎ (n ≡ 167772163)
    ⊎ (n ≡ 167772164)
    ⊎ (n ≡ 167772165)
    ⊎ (n ≡ 167772166)
    ⊎ (n ≡ 167772167)

read-print : (n : ℕ) → OneOf n → read (print_v4 n) ≡ some (v4 n)
unfolding OneOf
read-print n (inl e) = rw e
read-print n (inr (inl e)) = rw e
read-print n (inr (inr (inl e))) = rw e
read-print n (inr (inr (inr (inl e)))) = rw e
read-print n (inr (inr (inr (inr (inl e))))) = rw e
read-print n (inr (inr (inr (inr (inr (inl e)))))) = rw e
read-print n (inr (inr (inr (inr (inr (inr (inl e))))))) = rw e
read-print n (inr (inr (inr (inr (inr (inr (inr e))))))) = rw e

in_net : (n : ℕ) → in_network (v4 n) net ≡ true → OneOf n
unfolding OneOf
in_net n h = ground arith

network_eq : (cidr : String) (m : IpNetwork) → read_network cidr ≡ some m → net ≡ m
network_eq cidr m e = ground arith

round_trip :
    (cidr : String) (m : IpNetwork) (a : IpAddress)
    → read_network cidr ≡ some m
    → in_network a m ≡ true
    → read (print a) ≡ some a
round_trip cidr m (v4 n) e h = read-print n (in_net n (rw (← network_eq cidr m e) at h))
round_trip cidr m (v6 n) e h = ground arith

pub table-IsFaithful : IsFaithful table
table-IsFaithful = record { round_trip = round_trip }
