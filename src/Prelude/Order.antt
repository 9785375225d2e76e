-- ===== src/Prelude/Order.antt =====
-- The order of texts, and dicts whose entries are in the order of their keys.
use Prim.Native.Nat.{ℕ, zero, suc, Ordering, compare as compare_ℕ}
use Prim.Native.Char.{code}
use Prim.Native.Nat.compare as compare_ℕ
use Prim.Native.String.compare
use Prim.Native.String.{String, compare, then}
use mathlib.Core.Path.{◌∙◌, ◌≡◌, refl, ap}
use mathlib.Core.Bool.{true, false}
use mathlib.Core.Option.{none, some}
use mathlib.Core.List.{[], ◌∷◌}
use mathlib.Core.Logic.{◌≢◌, inl, inr}
use native.Mathlib.Omega.{arith}
use text.Mathlib.TextEquality.{path_by_compare, eq_iff}
use nervum.Prelude.Tests.{Bool-cases}
use nervum.Prelude.Dicts.{Dict, comes_after, insert_item, sort_items, IsDict, lookup}
use nervum.Prelude.Sorted.{lookup-sort_items}

turn : Ordering → Ordering
turn Ordering.lt = Ordering.gt
turn Ordering.eq = Ordering.eq
turn Ordering.gt = Ordering.lt

then_turned : (x y : Ordering) → then (turn x) (turn y) ≡ turn (then x y)
unfolding turn
then_turned Ordering.lt y = refl
then_turned Ordering.eq y = refl
then_turned Ordering.gt y = refl

numbers_turned : (m n : ℕ) → compare_ℕ m n ≡ turn (compare_ℕ n m)
unfolding turn
numbers_turned zero zero = refl
numbers_turned zero (suc n) = rw (compare_ℕ.zero-suc n, compare_ℕ.suc-zero n) refl
numbers_turned (suc m) zero = rw (compare_ℕ.zero-suc m, compare_ℕ.suc-zero m) refl
numbers_turned (suc m) (suc n) =
    rw (compare_ℕ.suc-suc m n, compare_ℕ.suc-suc n m) (numbers_turned m n)

texts_turned : (s t : String) → compare s t ≡ turn (compare t s)
unfolding turn
texts_turned String.[] String.[] = refl
texts_turned String.[] (String.◌∷◌ d t) = rw (compare.nil-cons d t, compare.cons-nil d t) refl
texts_turned (String.◌∷◌ c s) String.[] = rw (compare.nil-cons c s, compare.cons-nil c s) refl
texts_turned (String.◌∷◌ c s) (String.◌∷◌ d t) =
    rw
      (
        compare.cons-cons c d s t,
        compare.cons-cons d c t s,
        numbers_turned (code c) (code d),
        texts_turned s t,
      )
      (then_turned (compare_ℕ (code d) (code c)) (compare t s))

after_gt : (s t : String) → compare s t ≡ Ordering.gt → comes_after s t ≡ true
unfolding comes_after
after_gt s t e = ap (λ o. elim o [ Ordering.gt ↦ true | _ ↦ false ]) e

-- Of two texts that differ, one comes after the other.
comes_after_total : (s t : String) → s ≢ t → comes_after s t ≡ false → comes_after t s ≡ true
unfolding comes_after turn
comes_after_total s t differ h = go (compare s t) refl
  where
    go : (o : Ordering) → compare s t ≡ o → comes_after t s ≡ true
    go Ordering.lt e = after_gt t s (texts_turned t s ∙ ap turn e)
    go Ordering.eq e = absurd (differ (path_by_compare s t e))
    go Ordering.gt e = cc (h, after_gt s t e)

module _ {ℓ} {V : Type ℓ} where
  abbrev pub IsFirst : String → Dict V → Type 0
  IsFirst k [] = Unit
  IsFirst k ((j, _) ∷ d) = comes_after j k ≡ true

  abbrev pub IsSorted : Dict V → Type 0
  IsSorted [] = Unit
  IsSorted ((k, _) ∷ d) = IsFirst k d × IsSorted d

  -- A sorted dict is left as it is.
  pub sort_items-IsSorted : (d : Dict V) → IsSorted d → sort_items d ≡ d
  unfolding sort_items insert_item
  sort_items-IsSorted [] h = refl
  sort_items-IsSorted ((k, v) ∷ []) h = refl
  sort_items-IsSorted ((k, v) ∷ (j, w) ∷ d) h = rw (sort_items-IsSorted ((j, w) ∷ d) h.1, h.0) refl

  found_first : (j k : String) (w : V) (d : Dict V) → j ≡ k → lookup k ((j, w) ∷ d) ≡ some w
  found_first j k w d e = rw ((eq_iff j k).1 e) refl

  missing_rest :
      (j k : String) (w : V) (d : Dict V) → lookup k ((j, w) ∷ d) ≡ none → lookup k d ≡ none
  missing_rest j k w d h = ground arith

  IsFirst-insert_item :
      (k : String) (v : V) (j : String) (d : Dict V)
      → comes_after k j ≡ true
      → IsFirst j d
      → IsFirst j (insert_item (k, v) d)
  unfolding insert_item
  IsFirst-insert_item k v j [] above f = above
  IsFirst-insert_item k v j ((i, w) ∷ d) above f = elim (Bool-cases (comes_after i k)) [
    | inl e ↦ rw e above
    | inr e ↦ rw e f
  ]

  insert_item-IsSorted :
      (k : String) (v : V) (d : Dict V)
      → lookup k d ≡ none
      → IsSorted d
      → IsSorted (insert_item (k, v) d)
  unfolding insert_item
  insert_item-IsSorted k v [] h s = (tt, tt)
  insert_item-IsSorted k v ((j, w) ∷ d) h s = elim (Bool-cases (comes_after j k)) [
    | inl above ↦ rw above (above, s)
    | inr other ↦
        let above : comes_after k j ≡ true =
          comes_after_total j k (λ e. cc (h, found_first j k w d e)) other in
        rw other (
          IsFirst-insert_item k v j d above s.0,
          insert_item-IsSorted k v d (missing_rest j k w d h) s.1,
        )
  ]

  -- Sorting sorts.
  pub IsSorted-sort_items : (d : Dict V) → IsDict d → IsSorted (sort_items d)
  unfolding sort_items
  IsSorted-sort_items [] h = tt
  IsSorted-sort_items ((k, v) ∷ d) h =
      insert_item-IsSorted k v (sort_items d) (lookup-sort_items k d h.1 ∙ h.0)
        (IsSorted-sort_items d h.1)
