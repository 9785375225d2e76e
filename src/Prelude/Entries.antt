-- ===== src/Prelude/Entries.antt =====
-- Dicts all of whose entries satisfy a predicate on the key and the value.
use mathlib.Core.Path.{◌∙◌, ◌≡◌, refl, sym, subst}
use mathlib.Core.Bool.{Bool, false}
use mathlib.Core.Option.{none, some}
use mathlib.Core.List.{[], ◌∷◌}
use mathlib.Core.Logic.{inl, inr}
use Prim.Native.String.{String}
use text.Mathlib.Text.{◌==◌ as str_eq}
use text.Mathlib.TextEquality.{eq_iff}
use text.Mathlib.TextPositions.{eq_refl}
use native.Mathlib.Omega.{arith}
use nervum.Prelude.Tests.{Bool-cases}
use nervum.Prelude.Dicts.{
  drop_values, find_value, Dict, lookup, insert, erase, contains, IsDict, insert-IsDict,
  erase-IsDict, lookup-insert, lookup-erase, lookup-erase_self,
}

module _ {ℓ κ} {V : Type ℓ} (P : String → V → Type κ) where
  abbrev pub AllEntries : Dict V → Type (ℓ ⊔ κ)
  AllEntries d = IsDict d × ((k : String) (v : V) → lookup k d ≡ some v → P k v)

  pub insert-AllEntries :
      (k : String) (v : V) (d : Dict V) → P k v → AllEntries d → AllEntries (insert k v d)
  insert-AllEntries k v d p (w, each) = (
    insert-IsDict k v d w,
    λ j x h. elim (Bool-cases (str_eq k j)) [
      | inl e ↦
          let new : v ≡ x = cc (h, e, lookup-insert k j v d) in
          let key : k ≡ j = (eq_iff k j).0 e in subst (λ y. P j y) new (subst (λ y. P y v) key p)
      | inr e ↦ each j x (cc (h, e, lookup-insert k j v d))
    ],
  )

  pub erase-AllEntries : (k : String) (d : Dict V) → AllEntries d → AllEntries (erase k d)
  erase-AllEntries k d (w, each) = (
    erase-IsDict k d w,
    λ j x h. elim (Bool-cases (str_eq k j)) [
      | inl e ↦ let key : k ≡ j = (eq_iff k j).0 e in cc (h, key, lookup-erase_self k d w)
      | inr e ↦ each j x (sym (lookup-erase k j d (λ q. cc ((eq_iff k j).1 q, e))) ∙ h)
    ],
  )

  pub rest-AllEntries : (k : String) (v : V) (d : Dict V) → AllEntries ((k, v) ∷ d) → AllEntries d
  rest-AllEntries k v d (w, each) = (w.1, λ j x h. each j x (ground (arith, eq_iff k j, w.0, h)))

-- A dict in which a key has its value is left as it is by storing that value.
module _ {ℓ} {V : Type ℓ} where
  pub insert-same : (k : String) (v : V) (d : Dict V) → lookup k d ≡ some v → insert k v d ≡ d
  insert-same k v [] h = cc
  insert-same k v ((j, w) ∷ d) h = ground (arith, insert-same k v d)

  pub contains_absent : (k : String) (d : Dict V) → lookup k d ≡ none → contains k d ≡ false
  contains_absent k d h = ground (arith, h)

  pub erase-absent : (k : String) (d : Dict V) → lookup k d ≡ none → erase k d ≡ d
  erase-absent k [] h = refl
  erase-absent k ((j, w) ∷ d) h = ground (arith, erase-absent k d)

  pub insert-insert : (k : String) (u v : V) (d : Dict V) → insert k v (insert k u d) ≡ insert k v d
  insert-insert k u v [] = ground (arith, eq_iff k k)
  insert-insert k u v ((j, w) ∷ d) = ground (arith, eq_iff k k, insert-insert k u v d)

module _ {ℓ} {V : Type ℓ} (p : V → Bool) where
  lookup-drop_values :
      (k : String) (d : Dict V) → lookup k d ≡ none → lookup k (drop_values p d) ≡ none
  lookup-drop_values k [] h = refl
  lookup-drop_values k ((j, w) ∷ d) h = ground (arith, lookup-drop_values k d)

  drop_values-lookup :
      (k : String) (v : V) (d : Dict V)
      → IsDict d
      → lookup k (drop_values p d) ≡ some v
      → lookup k d ≡ some v
  drop_values-lookup k v [] w h = cc
  drop_values-lookup k v ((j, x) ∷ d) w h =
      ground (arith, eq_iff j k, drop_values-lookup k v d w.1, lookup-drop_values j d w.0)

  drop_values-IsDict : (d : Dict V) → IsDict d → IsDict (drop_values p d)
  drop_values-IsDict [] w = tt
  drop_values-IsDict ((k, v) ∷ d) w =
      ground (arith, drop_values-IsDict d w.1, lookup-drop_values k d w.0)

  -- What `find_value` finds stands under some key.
  pub find_value-lookup :
      (v : V) (d : Dict V)
      → IsDict d
      → find_value p d ≡ some v
      → (k : String) × (lookup k d ≡ some v)
  find_value-lookup v [] w h = cc h
  find_value-lookup v ((j, x) ∷ d) w h = elim (Bool-cases (p x)) [
    | inl e ↦ (j, rw (eq_refl j) (cc (h, e)))
    | inr e ↦
        let (k, found) = find_value-lookup v d w.1 (cc (h, e)) in
        (k, ground (arith, eq_iff j k, w.0, found))
  ]

module _ {ℓ κ} {V : Type ℓ} (p : V → Bool) (P : String → V → Type κ) where
  pub drop_values-AllEntries : (d : Dict V) → AllEntries P d → AllEntries P (drop_values p d)
  drop_values-AllEntries d (w, each) =
      (drop_values-IsDict p d w, λ k v h. each k v (drop_values-lookup p k v d w h))
