-- ===== src/Prelude/Dicts.antt =====
-- Python's `dict` with text keys, as an association list in insertion order.
use Prim.Native.Nat.{Ordering}
use Prim.Native.String.{String, compare}
use mathlib.Core.Path.{◌≡◌, refl}
use mathlib.Core.Logic.{◌≢◌}
use mathlib.Core.Bool.{Bool, true, false, ◌&&◌}
use mathlib.Core.Option.{Option, none, some}
use mathlib.Core.List.{List, [], ◌∷◌}
use text.Mathlib.Text.{◌==◌ as str_eq}
use text.Mathlib.TextEquality.{eq_iff}
use native.Mathlib.Omega.{arith}
use nervum.Prelude.Tests.{if◌then◌else◌}

abbrev pub Dict {ℓ} : Type ℓ → Type ℓ
Dict V = List (String × V)

module _ {ℓ} {V : Type ℓ} where
  -- `d.get(k)`
  abbrev pub lookup : String → Dict V → Option V
  lookup k [] = none
  lookup k ((j, v) ∷ d) = if str_eq j k then some v else lookup k d

  -- `k in d`
  abbrev pub contains : String → Dict V → Bool
  contains k d = elim (lookup k d) [ none ↦ false | some _ ↦ true ]

  -- `d[k] = v`
  abbrev pub insert : String → V → Dict V → Dict V
  insert k v [] = (k, v) ∷ []
  insert k v ((j, w) ∷ d) = if str_eq j k then (j, v) ∷ d else (j, w) ∷ insert k v d

  -- `d.pop(k, None)`, the dict that is left
  abbrev pub erase : String → Dict V → Dict V
  erase k [] = []
  erase k ((j, w) ∷ d) = if str_eq j k then d else (j, w) ∷ erase k d

  -- No key is listed twice.
  abbrev pub IsDict : Dict V → Type ℓ
  IsDict [] = Unit {ℓ}
  IsDict ((k, _) ∷ d) = (lookup k d ≡ none) × IsDict d

  pub lookup-insert :
      (k j : String) (v : V) (d : Dict V)
      → lookup j (insert k v d) ≡ (if str_eq k j then some v else lookup j d)
  lookup-insert k j v [] = refl
  lookup-insert k j v ((i, w) ∷ d) =
      ground (arith, eq_iff k j, eq_iff i k, eq_iff i j, lookup-insert k j v d)

  pub lookup-insert_self : (k : String) (v : V) (d : Dict V) → lookup k (insert k v d) ≡ some v
  lookup-insert_self k v d = ground (arith, eq_iff k k, lookup-insert k k v d)

  pub lookup-insert_ne :
      (k j : String) (v : V) (d : Dict V) → k ≢ j → lookup j (insert k v d) ≡ lookup j d
  lookup-insert_ne k j v d h = ground (arith, eq_iff k j, lookup-insert k j v d)

  pub insert-IsDict : (k : String) (v : V) (d : Dict V) → IsDict d → IsDict (insert k v d)
  insert-IsDict k v [] h = (refl, tt)
  insert-IsDict k v ((i, w) ∷ d) h =
      ground (arith, eq_iff i k, eq_iff k i, insert-IsDict k v d h.1, lookup-insert k i v d)

  pub lookup-erase : (k j : String) (d : Dict V) → k ≢ j → lookup j (erase k d) ≡ lookup j d
  lookup-erase k j [] h = refl
  lookup-erase k j ((i, w) ∷ d) h = ground (arith, eq_iff i k, eq_iff i j, lookup-erase k j d h)

  pub lookup-erase_self : (k : String) (d : Dict V) → IsDict d → lookup k (erase k d) ≡ none
  lookup-erase_self k [] h = refl
  lookup-erase_self k ((i, w) ∷ d) h = ground (arith, eq_iff i k, lookup-erase_self k d h.1)

  pub erase-IsDict : (k : String) (d : Dict V) → IsDict d → IsDict (erase k d)
  erase-IsDict k [] h = tt
  erase-IsDict k ((i, w) ∷ d) h =
      ground (arith, eq_iff i k, eq_iff k i, erase-IsDict k d h.1, lookup-erase k i d)

-- `k > j` on texts, by code points
unfoldable pub comes_after : String → String → Bool
comes_after k j = elim (compare k j) [ Ordering.gt ↦ true | _ ↦ false ]

module _ {ℓ} {V : Type ℓ} where
  unfoldable pub insert_item : String × V → Dict V → Dict V
  unfolding comes_after
  insert_item x [] = x ∷ []
  insert_item x (y ∷ ys) =
      let rest = insert_item x ys in if comes_after y.0 x.0 then x ∷ y ∷ ys else y ∷ rest

  -- `dict(sorted(d.items()))`: the entries by their keys, which are distinct
  unfoldable pub sort_items : Dict V → Dict V
  unfolding insert_item
  sort_items [] = []
  sort_items (x ∷ xs) = insert_item x (sort_items xs)

module _ {ℓ} {V : Type ℓ} where
  -- `for v in d.values(): if p(v): return v`, and `None` at the end
  abbrev pub find_value : (V → Bool) → Dict V → Option V
  find_value p [] = none
  find_value p ((_, v) ∷ d) = if p v then some v else find_value p d

  -- `[v for v in d.values() if p(v)]`
  abbrev pub filter_values : (V → Bool) → Dict V → List V
  filter_values p [] = []
  filter_values p ((_, v) ∷ d) = let rest = filter_values p d in if p v then v ∷ rest else rest

  -- `d` without the entries whose value satisfies `p`
  abbrev pub drop_values : (V → Bool) → Dict V → Dict V
  drop_values p [] = []
  drop_values p ((k, v) ∷ d) = let rest = drop_values p d in if p v then rest else (k, v) ∷ rest

  -- What `find_value` finds satisfies its test.
  pub find_value_holds : (p : V → Bool) (d : Dict V) {v : V} → find_value p d ≡ some v → p v ≡ true
  find_value_holds p [] h = cc
  find_value_holds p ((k, w) ∷ d) {v} h = ground (arith, find_value_holds p d {v = v})

  -- `list(d.values())`
  abbrev pub values : Dict V → List V
  values [] = []
  values ((_, v) ∷ d) = v ∷ values d

abbrev pub has_value : Option String → String → Bool
has_value none v = false
has_value (some w) v = str_eq w v

-- Every entry of the first dict is in the second.
abbrev pub is_included : Dict String → Dict String → Bool
is_included [] d = true
is_included ((k, v) ∷ c) d = has_value (lookup k d) v && is_included c d

-- `c == d` on dicts of texts: they have the same entries
abbrev pub dict_eq : Dict String → Dict String → Bool
dict_eq c d = is_included c d && is_included d c
