-- ===== src/Allocations/Exclusive.antt =====
-- No address of a subnet is held twice (src/sdn_controller/core/use_cases/ipam.py).
use mathlib.Core.Path.{subst}
use mathlib.Core.List.{append-nil}
use nervum.Prelude.{
  ap, ◌∙◌, inr, inl, if◌then◌else◌, sym, ℕ, ◌≡◌, refl, ◌≢◌, String, Option, none, some, List, [],
  ◌∷◌, ◌++◌, map, arith, All, eq_iff, Dict, lookup, insert, Bool-cases, filter_values,
}
use nervum.Errors.{ok, >>=-eq-ok}
use nervum.Address.{IpSyntax, IpAddress, IsFaithful, to_int}
use nervum.Ipam.{OwnerRef, Subnet}
use nervum.Ipam.Ranges.{IsSubnet}
use nervum.Ipam.Allocator.{taken_of, next_available_ip, add_taken}
use nervum.Ipam.Candidates.{}
use nervum.Ipam.Guarantees.{next_available_ip-IsFree, next_available_ip_pools}
use nervum.Allocations.{
  IpAllocation, Store, in_subnet, list_for_subnet, resolve_subnet, allocate_ip, make_allocation,
}

abbrev pub address_of : IpAllocation → String
address_of a = a.ip_address

-- The numbers of the addresses that are allocated in a subnet.
abbrev pub held : IpSyntax → String → Dict IpAllocation → List ℕ
held ip sid d = taken_of ip (map address_of (filter_values (in_subnet sid) d))

abbrev pub NoRepeat : List ℕ → Type 0
NoRepeat [] = Unit
NoRepeat (n ∷ ns) = All (λ m. n ≢ m) ns × NoRepeat ns

-- In no subnet is an address held twice.
abbrev pub IsExclusive : IpSyntax → Dict IpAllocation → Type 0
IsExclusive ip d = (sid : String) → NoRepeat (held ip sid d)

pub NoRepeat-snoc :
    (ns : List ℕ) (n : ℕ) → NoRepeat ns → All (λ m. n ≢ m) ns → NoRepeat (ns ++ n ∷ [])
NoRepeat-snoc [] n h f = (tt, tt)
NoRepeat-snoc (m ∷ ns) n h f = (All-snoc m ns n h.0 (λ e. f.0 (sym e)), NoRepeat-snoc ns n h.1 f.1)
  where
    All-snoc :
        (m : ℕ) (ns : List ℕ) (n : ℕ)
        → All (λ k. m ≢ k) ns
        → m ≢ n
        → All (λ k. m ≢ k) (ns ++ n ∷ [])
    All-snoc m [] n h f = (f, tt)
    All-snoc m (k ∷ ns) n h f = (h.0, All-snoc m ns n h.1 f)

-- A new key is written at the end.
pub insert-append :
    (k : String) (v : IpAllocation) (d : Dict IpAllocation)
    → lookup k d ≡ none
    → insert k v d ≡ d ++ (k, v) ∷ []
insert-append k v [] h = refl
insert-append k v ((j, w) ∷ d) h = ground (arith, insert-append k v d)

-- What a new entry adds to the addresses held in a subnet.
abbrev pub held_by : IpSyntax → String → IpAllocation → List ℕ
held_by ip sid v = if in_subnet sid v then add_taken (ip.ip_address v.ip_address) [] else []

add_taken-append :
    (o : Option IpAddress) (ns ms : List ℕ) → add_taken o (ns ++ ms) ≡ add_taken o ns ++ ms
add_taken-append none ns ms = refl
add_taken-append (some a) ns ms = refl

pub held-snoc :
    (ip : IpSyntax) (sid k : String) (v : IpAllocation) (d : Dict IpAllocation)
    → held ip sid (d ++ (k, v) ∷ []) ≡ held ip sid d ++ held_by ip sid v
held-snoc ip sid k v [] = elim (Bool-cases (in_subnet sid v)) [ inl e ↦ rw e | inr e ↦ rw e ]
held-snoc ip sid k v ((j, w) ∷ d) = elim (Bool-cases (in_subnet sid w)) [
  | inl e ↦ rw e (
      rw (held-snoc ip sid k v d)
        (add_taken-append (ip.ip_address w.ip_address) (held ip sid d) (held_by ip sid v)))
  | inr e ↦ rw e (held-snoc ip sid k v d)
]

module _ (ip : IpSyntax) (new_id : String) (now : ℕ) (subnet_id : String) (owner : OwnerRef)
    (label : Option String) where
  allocate_ip-parts :
      (st st' : Store) (a : IpAllocation)
      → allocate_ip ip new_id now subnet_id owner label st ≡ ok (st', a)
      → (subnet : Subnet) × (resolve_subnet st.networks subnet_id ≡ ok subnet)
        × (next_available_ip ip subnet (map address_of (list_for_subnet subnet_id st.allocations))
            ≡ ok a.ip_address)
        × (st'.networks ≡ st.networks)
        × (st'.allocations ≡ insert new_id a st.allocations)
        × (a.subnet_id ≡ subnet_id)
  unfolding allocate_ip make_allocation
  allocate_ip-parts st st' a h =
      let (subnet, resolved, h1) = >>=-eq-ok (resolve_subnet st.networks subnet_id) _ h in
      let (text, found, h2) =
        >>=-eq-ok
          (next_available_ip ip subnet (map address_of (list_for_subnet subnet_id st.allocations)))
          _ h1 in
      let stored : (a.ip_address ≡ text)
          × (st'.networks ≡ st.networks)
          × (st'.allocations ≡ insert new_id a st.allocations)
          × (a.subnet_id ≡ subnet_id) =
        ground arith in
      (subnet, resolved, found ∙ ap ok (sym stored.0), stored.1, stored.2, stored.3)

  -- A dynamic allocation under a new identifier keeps the addresses that are held in each subnet
  -- distinct, if the text of an address in a network reads back as that address and the subnet is one
  -- that `Subnet` accepted.
  pub allocate_ip-IsExclusive :
      (st st' : Store) (a : IpAllocation)
      → IsFaithful ip
      → ((s : Subnet) → resolve_subnet st.networks subnet_id ≡ ok s → IsSubnet ip s)
      → lookup new_id st.allocations ≡ none
      → IsExclusive ip st.allocations
      → allocate_ip ip new_id now subnet_id owner label st ≡ ok (st', a)
      → IsExclusive ip st'.allocations
  allocate_ip-IsExclusive st st' a faithful subnets fresh exclusive h sid =
      let (subnet, resolved, found, nets, kept, same_sid) = allocate_ip-parts st st' a h in
      let in_use = map address_of (list_for_subnet subnet_id st.allocations) in
      let (pools, known) = next_available_ip_pools ip subnet in_use a.ip_address found in
      let (addr, text, free, lies) =
        next_available_ip-IsFree ip subnet in_use pools a.ip_address known found in
      let reads : ip.ip_address a.ip_address ≡ some addr = rw text (
        faithful.round_trip subnet.cidr subnet.net addr (subnets subnet resolved).network
          free.inside) in
      rw
        (
          kept,
          insert-append new_id a st.allocations fresh,
          held-snoc ip sid new_id a st.allocations,
        )
        (elim (Bool-cases (in_subnet sid a)) [
          | inl e ↦
              let here : subnet_id ≡ sid = cc ((eq_iff a.subnet_id sid).0 e, same_sid) in
              rw (e, reads)
                (NoRepeat-snoc (held ip sid st.allocations) (to_int addr) (exclusive sid) (
                  subst (λ t. All (λ m. to_int addr ≢ m) (held ip t st.allocations)) here
                    (unfold list_for_subnet in free.not_taken)))
          | inr e ↦ rw (e, append-nil (held ip sid st.allocations)) (exclusive sid)
        ])
