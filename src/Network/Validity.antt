-- ===== src/Network/Validity.antt =====
-- Which networks pass `_validate` of src/sdn_controller/core/entities/network.py.
use nervum.Prelude.{
  ℕ, ◌≤◌, ◌≡◌, refl, ◌↔◌, String, false, Option, none, some, arith, is_blank, is_empty,
}
use nervum.Errors.{ok}
use nervum.Network.{NetworkType, flat, vlan, vxlan, Network, has_duplicates, validate, check_type}

-- The tags that a type of network carries: none, a VLAN id, or a VXLAN identifier of 24 bits.
abbrev pub HasTags : NetworkType → Option ℕ → Option ℕ → Type 0
HasTags flat vlan_id vni = (vlan_id ≡ none) × (vni ≡ none)
HasTags vlan vlan_id vni = (vni ≡ none) × ((n : ℕ) × (vlan_id ≡ some n) × (1 ≤ n) × (n ≤ 4094))
HasTags vxlan vlan_id vni = (vlan_id ≡ none) × ((n : ℕ) × (vni ≡ some n) × (1 ≤ n) × (n ≤ 16777215))

pub record IsValid (n : Network) : Type 0 where
  pub named : is_blank n.name ≡ false
  pub mtu_low : 576 ≤ n.mtu
  pub mtu_high : n.mtu ≤ 9216
  pub tags : HasTags n.type n.vlan_id n.vni
  pub nodes_distinct : has_duplicates n.node_ids ≡ false

check_type-ok : (t : NetworkType) (a b : Option ℕ) → check_type t a b ≡ ok tt → HasTags t a b
unfolding check_type
check_type-ok flat a b h = ground arith
check_type-ok vlan none b h = cc
check_type-ok vlan (some n) b h = (ground arith, (n, refl, ground arith, ground arith))
check_type-ok vxlan a none h = cc
check_type-ok vxlan a (some n) h = (ground arith, (n, refl, ground arith, ground arith))

check_type-HasTags : (t : NetworkType) (a b : Option ℕ) → HasTags t a b → check_type t a b ≡ ok tt
unfolding check_type
check_type-HasTags flat a b h = ground arith
check_type-HasTags vlan a b h = ground arith
check_type-HasTags vxlan a b h = ground arith

validate-parts :
    (n : Network)
    → validate n ≡ ok tt
    → (is_blank n.name ≡ false)
      × (576 ≤ n.mtu)
      × (n.mtu ≤ 9216)
      × (check_type n.type n.vlan_id n.vni ≡ ok tt)
      × (has_duplicates n.node_ids ≡ false)
unfolding validate
validate-parts n h = ground arith

not_empty : (s : String) → is_blank s ≡ false → is_empty s ≡ false
not_empty String.[] h = cc
not_empty (String.◌∷◌ c s) h = refl

validate_of :
    (n : Network) → IsValid n → check_type n.type n.vlan_id n.vni ≡ ok tt → validate n ≡ ok tt
unfolding validate
validate_of n v t = ground (arith, not_empty n.name v.named)

-- A network passes validation exactly when it has a name that is not blank, an MTU from 576 to 9216,
-- the tags of its type and no other (a VLAN id from 1 to 4094, a VNI from 1 to 2^24 - 1), and no node
-- twice.
pub validate_iff : (n : Network) → (validate n ≡ ok tt) ↔ IsValid n
validate_iff n = (
  λ h.
      let (named, low, high, tags, distinct) = validate-parts n h in
      record {
        named = named;
        mtu_low = low;
        mtu_high = high;
        tags = check_type-ok n.type n.vlan_id n.vni tags;
        nodes_distinct = distinct;
      },
  λ v. validate_of n v (check_type-HasTags n.type n.vlan_id n.vni v.tags),
)
