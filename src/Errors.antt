-- ===== src/Errors.antt =====
-- The domain errors of src/sdn_controller/core/value_objects/errors.py, and calls that may raise
-- one. An error is told by its class; the message text is not modelled.
use nervum.Prelude.{subst, ◌≡◌, refl, Bool, true, false, Option, none, some, List, [], ◌∷◌}

pub data DomainError : Type 0 where
  validation_error not_found conflict invalid_state_transition : DomainError
  unauthorized forbidden rate_limited : DomainError
  -- a `ValueError` or a `KeyError` of Python's that the code does not turn into a domain error
  value_error : DomainError

-- What a call ends with: it returns, or it raises.
pub data Result {ℓ} (R : Type ℓ) : Type ℓ where
  ok : R → Result R
  err : DomainError → Result R

module _ {ℓ κ} {R : Type ℓ} {S : Type κ} where
  infixl 5 ◌>>=◌
  -- The rest of a body goes on with what a call returned; what it raised passes through.
  abbrev pub ◌>>=◌ : Result R → (R → Result S) → Result S
  ok returned >>= rest = rest returned
  err raised >>= rest = err raised

  -- Where a body returned, its first call did.
  pub >>=-eq-ok :
      (call : Result R) (rest : R → Result S) {s : S}
      → (call >>= rest) ≡ ok s
      → (r : R) × (call ≡ ok r) × (rest r ≡ ok s)
  >>=-eq-ok (ok r) rest returned = (r, refl, returned)
  >>=-eq-ok (err raised) rest returned = cc

infixl 5 ◌>>◌
abbrev pub ◌>>◌ {κ} : {S : Type κ} → Result (Unit {0}) → Result S → Result S
check >> rest = check >>= λ _. rest

-- `if c: raise e`
abbrev pub raise_if : Bool → DomainError → Result (Unit {0})
raise_if true e = err e
raise_if false e = ok tt

-- `try: x = f(...) except ValueError: raise e`
abbrev pub or_raise {ℓ} : {A : Type ℓ} → Option A → DomainError → Result A
or_raise none e = err e
or_raise (some a) e = ok a

-- The call returned.
abbrev pub is_ok {ℓ} : {A : Type ℓ} → Result A → Bool
is_ok (ok _) = true
is_ok (err _) = false

pub ok-injective {ℓ} : {A : Type ℓ} {a b : A} → ok a ≡ ok b → a ≡ b
ok-injective h = cc

-- `for x in xs: check(x)`, where a check may raise
module _ {ℓ} {A : Type ℓ} where
  abbrev pub for_each : (A → Result (Unit {0})) → List A → Result (Unit {0})
  for_each check [] = ok tt
  for_each check (x ∷ xs) = check x >> for_each check xs

-- What a body returns, if it returns, satisfies `P`.
pub record Yields {ℓ} {A : Type ℓ} (P : A → Type 0) (r : Result A) : Type ℓ where
  pub holds : (a : A) → r ≡ ok a → P a

module _ {ℓ κ} {R : Type ℓ} {S : Type κ} {P : S → Type 0} where
  pub >>=-Yields :
      (call : Result R) (rest : R → Result S)
      → ((r : R) → call ≡ ok r → Yields P (rest r))
      → Yields P (call >>= rest)
  >>=-Yields call rest each = record {
    holds = λ s h. let (r, e, k) = >>=-eq-ok call rest h in (each r e).holds s k;
  }

-- A body goes on past a test that did not raise.
pub raise_if-Yields {κ} :
    {S : Type κ} {P : S → Type 0} (b : Bool) (e : DomainError) (rest : Result S)
    → (b ≡ false → Yields P rest)
    → Yields P (raise_if b e >> rest)
raise_if-Yields true e rest next = record { holds = λ s h. cc h }
raise_if-Yields false e rest next = next refl

pub ok-Yields {ℓ} : {A : Type ℓ} {P : A → Type 0} (a : A) → P a → Yields P (ok a)
ok-Yields {P = P} a p = record { holds = λ b h. subst P (ok-injective h) p }
