-- ===== src/Inventory/Revisions.antt =====
-- What an update keeps of a network (src/sdn_controller/core/use_cases/networks.py, `_apply_update`,
-- and `bump_intent` and `set_nodes` of core/entities/network.py).
use nervum.Prelude.{
  subst, ℕ, ◌≡◌, refl, sym, arith, String, Bool, true, false, Option, none, some, List, dict_eq,
  ◌==◌, strs_eq, Bool-cases, inl, inr, if◌then◌else◌, Dict,
}
use nervum.Errors.{Result, ok, err, ◌>>◌, >>=-eq-ok, ok-injective}
use nervum.EdgeServices.{NatSpec, FirewallPolicy}
use nervum.Address.{IpSyntax}
use nervum.Ipam.{Subnet}
use nervum.Network.{Network, Canonical, validate, bump_intent, set_nodes, has_duplicates}
use nervum.Network.Validity.{IsValid, validate_iff}
use nervum.Inventory.Networks.{
  SubnetArgs, UpdateNetworkCommand, apply_update, set_mtu, replace_subnet, set_subnet, set_labels,
  set_nat, set_policy, revalidate, plain_subnet, id_or_new, has_subnet, has_nat, has_policy, bumped,
  reassigned,
}

-- The same network, by its identity, its name, its project and its nodes.
abbrev pub IsSame : Network → Network → Type 0
IsSame n m = (m.id ≡ n.id) × (m.name ≡ n.name) × (m.project_id ≡ n.project_id)

module _ (n : Network) where
  -- So far the network is the same, and it is unchanged unless the flag is set.
  abbrev Follows : Bool × Network → Type 0
  Follows r = IsSame n r.1 × (r.0 ≡ false → r.1 ≡ n)

  set_mtu-Follows : (mtu : Option ℕ) (r : Bool × Network) → Follows r → Follows (set_mtu mtu r)
  set_mtu-Follows none r f = f
  set_mtu-Follows (some mtu) (changed, m) f = elim (Bool-cases (mtu == m.mtu)) [
    | inl same ↦ rw same f
    | inr other ↦ rw other (f.0, λ e. cc e)
  ]

  replace_subnet-Follows :
      (subnet : Subnet) (r : Bool × Network) → Follows r → Follows (replace_subnet subnet r)
  replace_subnet-Follows subnet (changed, m) f = elim (Bool-cases (has_subnet m.subnet subnet)) [
    | inl same ↦ rw same f
    | inr other ↦ rw other (f.0, λ e. cc e)
  ]

  set_labels-Follows :
      (labels : Option (Dict String)) (r : Bool × Network)
      → Follows r
      → Follows (set_labels labels r)
  set_labels-Follows none r f = f
  set_labels-Follows (some labels) (changed, m) f = elim (Bool-cases (dict_eq labels m.labels)) [
    | inl same ↦ rw same f
    | inr other ↦ rw other (f.0, λ e. cc e)
  ]

  set_nat-Follows :
      (nat : Option NatSpec) (r : Bool × Network) → Follows r → Follows (set_nat nat r)
  set_nat-Follows none r f = f
  set_nat-Follows (some nat) (changed, m) f = elim (Bool-cases (has_nat m.nat nat)) [
    | inl same ↦ rw same f
    | inr other ↦ rw other (f.0, λ e. cc e)
  ]

  set_policy-Follows :
      (policy : Option FirewallPolicy) (r : Bool × Network)
      → Follows r
      → Follows (set_policy policy r)
  set_policy-Follows none r f = f
  set_policy-Follows (some policy) (changed, m) f =
      elim (Bool-cases (has_policy m.firewall_policy policy)) [
        | inl same ↦ rw same f
        | inr other ↦ rw other (f.0, λ e. cc e)
      ]

  set_subnet-Follows :
      (ip : IpSyntax) (id : String) (args : Option SubnetArgs) (r s : Bool × Network)
      → Follows r
      → set_subnet ip id args r ≡ ok s
      → Follows s
  set_subnet-Follows ip id none r s f h = subst Follows (ok-injective h) f
  set_subnet-Follows ip id (some args) (changed, m) s f h =
      let (subnet, made, rest) =
        >>=-eq-ok (plain_subnet ip (id_or_new m.subnet id) args)
          (λ subnet. ok (replace_subnet subnet (changed, m))) h in
      subst Follows (ok-injective rest) (replace_subnet-Follows subnet (changed, m) f)

  revalidate-IsValid :
      (r s : Bool × Network) → IsValid n → Follows r → revalidate r ≡ ok s → (s ≡ r) × IsValid s.1
  revalidate-IsValid (false, m) s v f h =
      let same : (false, m) ≡ s = ok-injective h in
      (sym same, subst (λ t. IsValid t.1) same (subst IsValid (sym (f.1 refl)) v))
  revalidate-IsValid (true, m) s v f h = go (validate m) refl h
    where
      go :
          (checked : Result (Unit {0}))
          → validate m ≡ checked
          → (checked >> ok (true, m)) ≡ ok s
          → (s ≡ (true, m)) × IsValid s.1
      go (ok t) e k =
          let same : (true, m) ≡ s = ok-injective k in
          (sym same, subst (λ t. IsValid t.1) same ((validate_iff m).0 e))
      go (err x) e k = cc k

  pub apply_update-IsValid :
      (ip : IpSyntax) (id : String) (cmd : UpdateNetworkCommand) (s : Bool × Network)
      → IsValid n
      → apply_update ip id cmd n ≡ ok s
      → IsSame n s.1 × IsValid s.1
  unfolding apply_update
  apply_update-IsValid ip id cmd s v h =
      let (r, set, rest) =
        >>=-eq-ok (set_subnet ip id cmd.subnet (set_mtu cmd.mtu (false, n)))
          (λ r.
            revalidate (set_policy cmd.firewall_policy (set_nat cmd.nat (set_labels cmd.labels r))))
          h in
      let f =
        set_subnet-Follows ip id cmd.subnet (set_mtu cmd.mtu (false, n)) r
          (set_mtu-Follows cmd.mtu (false, n) ((refl, refl, refl), λ e. refl)) set in
      let g =
        set_policy-Follows cmd.firewall_policy (set_nat cmd.nat (set_labels cmd.labels r))
          (set_nat-Follows cmd.nat (set_labels cmd.labels r) (set_labels-Follows cmd.labels r f)) in
      let (same, valid) =
        revalidate-IsValid
          (set_policy cmd.firewall_policy (set_nat cmd.nat (set_labels cmd.labels r))) s v g rest in
      (subst (λ t. IsSame n t.1) (sym same) g.0, valid)

  -- A new revision is the same network.
  pub bumped-IsValid :
      (digest : Canonical → String) (ip : IpSyntax) (changed : Bool) (now : ℕ)
      → IsValid n
      → IsSame n (bumped digest ip changed now n) × IsValid (bumped digest ip changed now n)
  unfolding bump_intent
  bumped-IsValid digest ip false now v = ((refl, refl, refl), v)
  bumped-IsValid digest ip true now v = (
    (refl, refl, refl),
    record {
      named = v.named;
      mtu_low = v.mtu_low;
      mtu_high = v.mtu_high;
      tags = v.tags;
      nodes_distinct = v.nodes_distinct;
    },
  )

  set_nodes-parts :
      (digest : Canonical → String) (ids : List String) (now : ℕ) (m : Network)
      → set_nodes digest ids now n ≡ ok m
      → (has_duplicates ids ≡ false) × (bump_intent digest now (record n { node_ids = ids }) ≡ m)
  unfolding set_nodes
  set_nodes-parts digest ids now m h = ground arith

  set_nodes-IsValid :
      (digest : Canonical → String) (ids : List String) (now : ℕ) (m : Network)
      → IsValid n
      → set_nodes digest ids now n ≡ ok m
      → IsSame n m × IsValid m
  unfolding bump_intent
  set_nodes-IsValid digest ids now m v h =
      let (distinct, e) = set_nodes-parts digest ids now m h in
      subst (λ k. IsSame n k × IsValid k) e
        (
          (refl, refl, refl),
          record {
            named = v.named;
            mtu_low = v.mtu_low;
            mtu_high = v.mtu_high;
            tags = v.tags;
            nodes_distinct = distinct;
          },
        )

  pub reassigned-IsValid :
      (digest : Canonical → String) (ip : IpSyntax) (ids : List String) (now : ℕ) (m : Network)
      → IsValid n
      → reassigned digest ip ids now n ≡ ok m
      → IsSame n m × IsValid m
  reassigned-IsValid digest ip ids now m v h = go (strs_eq n.node_ids ids) h
    where
      go :
          (same : Bool)
          → (if same then ok n else set_nodes digest ids now n) ≡ ok m
          → IsSame n m × IsValid m
      go true k = subst (λ x. IsSame n x × IsValid x) (ok-injective k) ((refl, refl, refl), v)
      go false k = set_nodes-IsValid digest ids now m v k
