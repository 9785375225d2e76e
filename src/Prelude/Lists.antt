-- ===== src/Prelude/Lists.antt =====
-- Lists measured by native numbers, and Python's `any`, `all` and comprehensions.
use Prim.Native.Nat.{ℕ, suc, ◌+◌}
use mathlib.Core.Path.{◌≡◌}
use mathlib.Core.Logic.{◌⊎◌}
use mathlib.Core.Bool.{Bool, true, false, ◌&&◌, ◌||◌}
use mathlib.Core.List.{List, [], ◌∷◌, ◌++◌}
use native.Mathlib.Omega.{arith}
use nervum.Prelude.Tests.{if◌then◌else◌}

module _ {ℓ} {A : Type ℓ} where
  abbrev pub length : List A → ℕ
  length [] = 0
  length (x ∷ xs) = suc (length xs)

  -- `any(p(x) for x in xs)`
  abbrev pub any : (A → Bool) → List A → Bool
  any p [] = false
  any p (x ∷ xs) = p x || any p xs

  -- `all(p(x) for x in xs)`
  abbrev pub all : (A → Bool) → List A → Bool
  all p [] = true
  all p (x ∷ xs) = p x && all p xs

  -- `[x for x in xs if p(x)]`
  abbrev pub filter : (A → Bool) → List A → List A
  filter p [] = []
  filter p (x ∷ xs) = let rest = filter p xs in if p x then x ∷ rest else rest

  pub length-append : (xs ys : List A) → length (xs ++ ys) ≡ length xs + length ys
  length-append [] ys = omega arith
  length-append (x ∷ xs) ys = omega (arith, length-append xs ys)

module _ {ℓ κ} {A : Type ℓ} where
  -- Every element satisfies `P`.
  abbrev pub All : (A → Type κ) → List A → Type κ
  All P [] = Unit
  All P (y ∷ ys) = P y × All P ys

  pub All-append : (P : A → Type κ) (ys zs : List A) → All P ys → All P zs → All P (ys ++ zs)
  All-append P [] zs _ later = later
  All-append P (y ∷ ys) zs (now, rest) later = (now, All-append P ys zs rest later)

-- Some element satisfies `P`, and it is at hand.
abbrev pub Any {ℓ} : {A : Type ℓ} → (A → Type 0) → List A → Type 0
Any P [] = ⊥
Any P (x ∷ xs) = P x ⊎ Any P xs

pub All-zip {ℓ κ} :
    {A : Type ℓ} (P Q R : A → Type κ) (both : (a : A) → P a → Q a → R a) (xs : List A)
    → All P xs
    → All Q xs
    → All R xs
All-zip P Q R both [] ps qs = tt
All-zip P Q R both (x ∷ xs) (p, ps) (q, qs) = (both x p q, All-zip P Q R both xs ps qs)

pub All-fill {ℓ κ} : {A : Type ℓ} (P : A → Type κ) → ((a : A) → P a) → (xs : List A) → All P xs
All-fill P each [] = tt
All-fill P each (x ∷ xs) = (each x, All-fill P each xs)
