-- ===== src/Allocations/Reserved.antt =====
-- Reservations of `ReserveIp` (src/sdn_controller/core/use_cases/ipam.py), which compares addresses
-- by their texts, and releases.
use mathlib.Core.Path.{subst}
use mathlib.Core.List.{append-nil}
use nervum.Prelude.{
  is_empty, eq_refl, ℕ, ◌≡◌, ◌≢◌, sym, ap, ◌∙◌, inl, inr, String, true, false, Option, none, some,
  List, [], ◌∷◌, ◌++◌, arith, All, eq_iff, Dict, lookup, insert, Bool-cases, filter_values,
}
use nervum.Errors.{ok, >>=-eq-ok}
use nervum.Address.{IpSyntax, IpAddress, IpNetwork, to_int, in_network}
use nervum.Ipam.{OwnerRef, Subnet, reservation}
use nervum.Ipam.Allocator.{is_address_assignable}
use nervum.Allocations.{
  IpAllocation, Store, in_subnet, get_by_address, resolve_subnet, reserve_ip, make_allocation,
}
use nervum.Allocations.Exclusive.{
  IsExclusive, held, held-snoc, NoRepeat, NoRepeat-snoc, insert-append,
}

-- The text is the one that `str` gives for the address that it reads as, which lies in the network.
abbrev pub IsCanonical : IpSyntax → IpNetwork → String → Type 0
IsCanonical ip net text =
    (x : IpAddress) × (ip.ip_address text ≡ some x) × (in_network x net ≡ true) × (text ≡ ip.str x)

-- Two addresses of one network with one number are one address.
eq_in_network :
    (net : IpNetwork) (x y : IpAddress)
    → in_network x net ≡ true
    → in_network y net ≡ true
    → to_int x ≡ to_int y
    → x ≡ y
eq_in_network net x y hx hy e = ground arith

abbrev texts_in : String → Dict IpAllocation → List IpAllocation
texts_in sid d = filter_values (in_subnet sid) d

clash_found :
    (ip : IpSyntax) (net : IpNetwork) (sid address : String) (x y : IpAddress) (k : String)
    (a : IpAllocation) (d : Dict IpAllocation)
    → in_subnet sid a ≡ true
    → in_network x net ≡ true
    → in_network y net ≡ true
    → address ≡ ip.str x
    → a.ip_address ≡ ip.str y
    → to_int x ≡ to_int y
    → get_by_address sid address ((k, a) ∷ d) ≢ none
unfolding get_by_address
clash_found ip net sid address x y k a d here hx hy hs text same h =
    let one : x ≡ y = eq_in_network net x y hx hy same in
    let equal : a.ip_address ≡ address = text ∙ ap ip.str (sym one) ∙ sym hs in
    ground (arith, (eq_iff a.ip_address address).1 equal)

-- With no clash among canonical texts, no held address has the number of the new one.
no_clash :
    (ip : IpSyntax) (net : IpNetwork) (sid address : String) (x : IpAddress) (d : Dict IpAllocation)
    → in_network x net ≡ true
    → address ≡ ip.str x
    → All (λ a. IsCanonical ip net a.ip_address) (texts_in sid d)
    → get_by_address sid address d ≡ none
    → All (λ m. to_int x ≢ m) (held ip sid d)
unfolding get_by_address
no_clash ip net sid address x [] hx hs all h = tt
no_clash ip net sid address x ((k, a) ∷ d) hx hs all h = elim (Bool-cases (in_subnet sid a)) [
  | inr out ↦ rw out (no_clash ip net sid address x d hx hs (rw out at all) (ground arith))
  | inl here ↦
      let both : IsCanonical ip net a.ip_address
          × All (λ b. IsCanonical ip net b.ip_address) (texts_in sid d) =
        rw here at all in
      let (y, reads, hy, text) = both.0 in
      rw (here, reads)
        (
          λ same. absurd (clash_found ip net sid address x y k a d here hx hy hs text same h),
          no_clash ip net sid address x d hx hs both.1 (ground arith),
        )
]

NoRepeat-last : (ns : List ℕ) (n : ℕ) → NoRepeat (ns ++ n ∷ []) → All (λ m. n ≢ m) ns
NoRepeat-last [] n h = tt
NoRepeat-last (m ∷ ns) n h = (λ e. All-last m ns n h.0 (sym e), NoRepeat-last ns n h.1)
  where
    All-last : (m : ℕ) (ns : List ℕ) (n : ℕ) → All (λ k. m ≢ k) (ns ++ n ∷ []) → m ≢ n
    All-last m [] n h = h.0
    All-last m (k ∷ ns) n h = All-last m ns n h.1

module _ (ip : IpSyntax) (new_id : String) (now : ℕ) (subnet_id address : String) (owner : OwnerRef)
    (label : Option String) where
  reserve_ip-parts :
      (st st' : Store) (a : IpAllocation)
      → reserve_ip ip new_id now subnet_id address owner label st ≡ ok (st', a)
      → (subnet : Subnet) × (resolve_subnet st.networks subnet_id ≡ ok subnet)
        × (is_address_assignable ip subnet address ≡ ok tt)
        × (get_by_address subnet_id address st.allocations ≡ none)
        × (st'.allocations ≡ insert new_id a st.allocations)
        × (a.subnet_id ≡ subnet_id)
        × (a.ip_address ≡ address)
  unfolding reserve_ip make_allocation
  reserve_ip-parts st st' a h =
      let (subnet, resolved, h1) = >>=-eq-ok (resolve_subnet st.networks subnet_id) _ h in
      let (unit, assignable, h2) = >>=-eq-ok (is_address_assignable ip subnet address) _ h1 in
      (subnet, resolved, assignable, ground arith, ground arith, ground arith, ground arith)

  -- A reservation under a new identifier keeps the addresses that are held in each subnet distinct, if
  -- its text and those held in the subnet are written as `str` writes them and lie in its network.
  pub reserve_ip-IsExclusive :
      (st st' : Store) (a : IpAllocation)
      → lookup new_id st.allocations ≡ none
      → ((s : Subnet)
          → resolve_subnet st.networks subnet_id ≡ ok s
          → IsCanonical ip s.net address
            × All (λ b. IsCanonical ip s.net b.ip_address) (texts_in subnet_id st.allocations))
      → IsExclusive ip st.allocations
      → reserve_ip ip new_id now subnet_id address owner label st ≡ ok (st', a)
      → IsExclusive ip st'.allocations
  reserve_ip-IsExclusive st st' a fresh canonical exclusive h sid =
      let (subnet, resolved, assignable, none_found, kept, same_sid, same_text) =
        reserve_ip-parts st st' a h in
      let ((x, reads, inside, text), all) = canonical subnet resolved in
      let reads' : ip.ip_address a.ip_address ≡ some x = ap ip.ip_address same_text ∙ reads in
      let apart =
        no_clash ip subnet.net subnet_id address x st.allocations inside text all none_found in
      rw
        (
          kept,
          insert-append new_id a st.allocations fresh,
          held-snoc ip sid new_id a st.allocations,
        )
        (elim (Bool-cases (in_subnet sid a)) [
          | inl e ↦
              let here : subnet_id ≡ sid = cc ((eq_iff a.subnet_id sid).0 e, same_sid) in
              rw (e, reads')
                (NoRepeat-snoc (held ip sid st.allocations) (to_int x) (exclusive sid)
                  (subst (λ t. All (λ m. to_int x ≢ m) (held ip t st.allocations)) here apart))
          | inr e ↦ rw (e, append-nil (held ip sid st.allocations)) (exclusive sid)
        ])

  -- Two spellings of one address pass the clash test: a reservation of a text that no entry has, but
  -- that reads as an address which an entry of the subnet holds, succeeds where the address is
  -- assignable, and the address is then held twice.
  pub reserve_ip_respelled :
      (st : Store) (subnet : Subnet) (x : IpAddress)
      → resolve_subnet st.networks subnet_id ≡ ok subnet
      → is_address_assignable ip subnet address ≡ ok tt
      → get_by_address subnet_id address st.allocations ≡ none
      → ip.ip_address address ≡ some x
      → ¬ All (λ m. to_int x ≢ m) (held ip subnet_id st.allocations)
      → is_empty owner.type ≡ false
      → is_empty owner.id ≡ false
      → lookup new_id st.allocations ≡ none
      → (st' : Store) × (a : IpAllocation) × (reserve_ip ip new_id now subnet_id address owner label
            st
          ≡ ok (st', a))
        × ¬ IsExclusive ip st'.allocations
  unfolding reserve_ip make_allocation
  reserve_ip_respelled st subnet x resolved assignable none_found reads holds typed owned fresh =
      let made : IpAllocation = record {
        id = new_id;
        subnet_id = subnet_id;
        ip_address = address;
        owner = owner;
        kind = reservation;
        allocated_at = now;
        label = label;
      } in
      (
        record st { allocations = insert new_id made st.allocations },
        made,
        ground arith,
        λ exclusive. holds (
            NoRepeat-last (held ip subnet_id st.allocations) (to_int x) (
              rw
                (
                  insert-append new_id made st.allocations fresh,
                  held-snoc ip subnet_id new_id made st.allocations,
                  eq_refl subnet_id,
                  reads,
                )
                at (exclusive subnet_id))),
      )
