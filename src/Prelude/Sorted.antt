-- ===== src/Prelude/Sorted.antt =====
-- Sorting a dict by its keys keeps its entries; equality of dicts is reflexive.
use mathlib.Core.Path.{sym, ap, ◌≡◌, refl, ◌∙◌}
use mathlib.Core.Bool.{true}
use mathlib.Core.Option.{Option, none, some}
use mathlib.Core.List.{[], ◌∷◌}
use Prim.Native.String.{String}
use text.Mathlib.Text.{◌==◌ as str_eq}
use text.Mathlib.TextEquality.{eq_iff}
use text.Mathlib.TextPositions.{eq_refl}
use mathlib.Core.Logic.{inl, inr}
use native.Mathlib.Omega.{arith}
use nervum.Prelude.Tests.{Option-cases, if◌then◌else◌}
use nervum.Prelude.Dicts.{
  has_value, Dict, lookup, IsDict, insert_item, sort_items, is_included, dict_eq,
}

module _ {ℓ} {V : Type ℓ} where
  lookup-insert_item :
      (k j : String) (v : V) (d : Dict V)
      → lookup k d ≡ none
      → lookup j (insert_item (k, v) d) ≡ (if str_eq k j then some v else lookup j d)
  unfolding insert_item
  lookup-insert_item k j v [] h = refl
  lookup-insert_item k j v ((i, w) ∷ d) h =
      ground (arith, eq_iff i k, eq_iff i j, eq_iff k j, lookup-insert_item k j v d)

  pub lookup-sort_items :
      (j : String) (d : Dict V) → IsDict d → lookup j (sort_items d) ≡ lookup j d
  unfolding sort_items
  lookup-sort_items j [] h = refl
  lookup-sort_items j ((k, v) ∷ d) h = ground (
    arith,
    lookup-insert_item k j v (sort_items d),
    lookup-sort_items j d h.1,
    lookup-sort_items k d h.1,
    h.0,
  )

  insert_item-IsDict :
      (k : String) (v : V) (d : Dict V)
      → lookup k d ≡ none
      → IsDict d
      → IsDict (insert_item (k, v) d)
  unfolding insert_item
  insert_item-IsDict k v [] h w = (refl, tt)
  insert_item-IsDict k v ((i, x) ∷ d) h w =
      ground
        (arith, eq_iff i k, eq_iff k i, insert_item-IsDict k v d, lookup-insert_item k i v d, w)

  pub sort_items-IsDict : (d : Dict V) → IsDict d → IsDict (sort_items d)
  unfolding sort_items
  sort_items-IsDict [] h = tt
  sort_items-IsDict ((k, v) ∷ d) h =
      insert_item-IsDict k v (sort_items d) (lookup-sort_items k d h.1 ∙ h.0)
        (sort_items-IsDict d h.1)

is_included-later :
    (c d : Dict String) (k v : String)
    → lookup k c ≡ none
    → is_included c d ≡ true
    → is_included c ((k, v) ∷ d) ≡ true
is_included-later [] d k v h i = refl
is_included-later ((j, w) ∷ c) d k v h i =
    ground (arith, eq_iff j k, eq_iff k j, is_included-later c d k v)

is_included_refl : (d : Dict String) → IsDict d → is_included d d ≡ true
is_included_refl [] h = refl
is_included_refl ((k, v) ∷ d) h =
    ground (arith, eq_iff k k, eq_iff v v, is_included-later d d k v h.0 (is_included_refl d h.1))

pub dict_eq_refl : (d : Dict String) → IsDict d → dict_eq d d ≡ true
dict_eq_refl d h = ground (arith, is_included_refl d h)

pub has_value-eq : (o : Option String) (v : String) → has_value o v ≡ true → o ≡ some v
has_value-eq none v h = cc h
has_value-eq (some w) v h = ap some ((eq_iff w v).0 h)

-- What a dict holds, a dict that includes it holds too; and conversely.
pub is_included-lookup :
    (c d : Dict String) (k v : String)
    → is_included c d ≡ true
    → lookup k c ≡ some v
    → lookup k d ≡ some v
is_included-lookup [] d k v h e = cc e
is_included-lookup ((j, w) ∷ c) d k v h e =
    ground (arith, eq_iff j k, has_value-eq (lookup j d) w, is_included-lookup c d k v)

pub lookup-is_included :
    (c d : Dict String)
    → IsDict c
    → ((k v : String) → lookup k c ≡ some v → lookup k d ≡ some v)
    → is_included c d ≡ true
lookup-is_included [] d w h = refl
lookup-is_included ((j, x) ∷ c) d w h =
    let head : lookup j d ≡ some x = h j x (rw (eq_refl j) refl) in
    let tail : is_included c d ≡ true =
      lookup-is_included c d w.1 (λ k v e. h k v (ground (arith, eq_iff j k, w.0, e))) in
    rw (head, eq_refl x) tail

-- Equal dicts hold the same values.
pub dict_eq-lookup :
    (c d : Dict String) → dict_eq c d ≡ true → (k : String) → lookup k c ≡ lookup k d
dict_eq-lookup c d h k =
    let there : is_included c d ≡ true = ground arith in
    let back : is_included d c ≡ true = ground arith in
    elim (Option-cases (lookup k c)) [
      | inr (v, e) ↦ e ∙ sym (is_included-lookup c d k v there e)
      | inl e ↦ elim (Option-cases (lookup k d)) [
        | inl f ↦ e ∙ sym f
        | inr (v, f) ↦ cc (is_included-lookup d c k v back f)
      ]
    ]

-- Only what the second dict holds decides whether it includes the first.
is_included_sorted :
    (c d : Dict String) → IsDict d → is_included c (sort_items d) ≡ true → is_included c d ≡ true
is_included_sorted [] d w h = refl
is_included_sorted ((k, v) ∷ c) d w h =
    ground (arith, lookup-sort_items k d w, is_included_sorted c d w)

pub dict_eq-sort_items :
    (c d : Dict String) → IsDict d → dict_eq c (sort_items d) ≡ true → dict_eq c d ≡ true
dict_eq-sort_items c d w h =
    let there : is_included c (sort_items d) ≡ true = ground arith in
    let back : is_included (sort_items d) c ≡ true = ground arith in
    let first : is_included d c ≡ true =
      lookup-is_included d c w
        (λ k v e. is_included-lookup (sort_items d) c k v back (lookup-sort_items k d w ∙ e)) in
    rw (is_included_sorted c d w there, first) refl
