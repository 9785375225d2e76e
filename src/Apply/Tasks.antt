-- ===== src/Apply/Tasks.antt =====
-- Coroutines that change a state and may raise, as the methods of
-- src/sdn_controller/core/use_cases/reconcile.py are, and Hoare triples for them.
use nervum.Prelude.{String}
use nervum.Operation.{OperationError}

-- An exception: a domain error with its code, message and details, or any other one with its text.
pub data Raised : Type 0 where
  domain_error : OperationError → Raised
  unexpected : String → Raised

pub data Outcome {ℓ} (A : Type ℓ) : Type ℓ where
  returned : A → Outcome A
  raised : Raised → Outcome A

-- A body that finds the state of its argument, and leaves one.
abbrev pub Task {κ ℓ} : Type κ → Type ℓ → Type (κ ⊔ ℓ)
Task S A = S → Outcome A × S

module _ {κ ℓ} {S : Type κ} {A : Type ℓ} where
  abbrev pub pure : A → Task S A
  pure a s = (returned a, s)

  abbrev pub raise : Raised → Task S A
  raise e s = (raised e, s)

module _ {κ ℓ μ} {S : Type κ} {A : Type ℓ} {B : Type μ} where
  abbrev pub resume : (A → Task S B) → Outcome A × S → Outcome B × S
  resume rest (returned a, s) = rest a s
  resume rest (raised e, s) = (raised e, s)

  infixl 5 ◌>>=◌
  -- What follows an `await` goes on with what it returned; what it raised passes through.
  abbrev pub ◌>>=◌ : Task S A → (A → Task S B) → Task S B
  (task >>= rest) s = resume rest (task s)

infixl 5 ◌>>◌
abbrev pub ◌>>◌ {κ μ} : {S : Type κ} {B : Type μ} → Task S (Unit {0}) → Task S B → Task S B
(task >> rest) s = resume (λ _. rest) (task s)

module _ {κ ℓ} {S : Type κ} {A : Type ℓ} where
  -- `Q` holds of what was returned, or `E` of the state in which the body raised.
  abbrev pub Ends : (A → S → Type 0) → (S → Type 0) → Outcome A × S → Type 0
  Ends Q E (returned a, s) = Q a s
  Ends Q E (raised e, s) = E s

  -- From a state with `P`, the task ends as `Ends Q E` says.
  pub record Triple (P : S → Type 0) (task : Task S A) (Q : A → S → Type 0) (E : S → Type 0)
      : Type κ where
    pub ends : (s : S) → P s → Ends Q E (task s)

-- No claim on a state.
abbrev pub Anything {κ} : {S : Type κ} → S → Type 0
Anything s = Unit

module _ {κ ℓ} {S : Type κ} {A : Type ℓ} where
  Ends-mono :
      (Q R : A → S → Type 0) (E F : S → Type 0) (result : Outcome A × S)
      → ((a : A) (s : S) → Q a s → R a s)
      → ((s : S) → E s → F s)
      → Ends Q E result
      → Ends R F result
  Ends-mono Q R E F (returned a, s) q e h = q a s h
  Ends-mono Q R E F (raised x, s) q e h = e s h

  -- From more, a task ends with less.
  pub consequence :
      {P P' : S → Type 0} {Q R : A → S → Type 0} {E F : S → Type 0} {task : Task S A}
      → ((s : S) → P' s → P s)
      → ((a : A) (s : S) → Q a s → R a s)
      → ((s : S) → E s → F s)
      → Triple P task Q E
      → Triple P' task R F
  consequence {Q = Q} {R = R} {E = E} {F = F} {task = task} p q e triple = record {
    ends = λ s h. Ends-mono Q R E F (task s) q e (triple.ends s (p s h));
  }

  -- A fact that does not depend on the state is at hand.
  pub given :
      {F : Type 0} {P : S → Type 0} {Q : A → S → Type 0} {E : S → Type 0} {task : Task S A}
      → (F → Triple P task Q E)
      → Triple (λ s. P s × F) task Q E
  given f = record { ends = λ s h. (f h.1).ends s h.0 }

module _ {κ ℓ μ} {S : Type κ} {A : Type ℓ} {B : Type μ} where
  resume-Ends :
      (R : A → S → Type 0) (Q : B → S → Type 0) (E : S → Type 0) (rest : A → Task S B)
      (result : Outcome A × S)
      → ((a : A) → Triple (R a) (rest a) Q E)
      → Ends R E result
      → Ends Q E (resume rest result)
  resume-Ends R Q E rest (returned a, s) each h = (each a).ends s h
  resume-Ends R Q E rest (raised e, s) each h = h

  pub >>=-Triple :
      {P : S → Type 0} {R : A → S → Type 0} {Q : B → S → Type 0} {E : S → Type 0} {task : Task S A}
      {rest : A → Task S B}
      → Triple P task R E
      → ((a : A) → Triple (R a) (rest a) Q E)
      → Triple P (task >>= rest) Q E
  >>=-Triple {R = R} {Q = Q} {E = E} {task = task} {rest = rest} first each = record {
    ends = λ s h. resume-Ends R Q E rest (task s) each (first.ends s h);
  }

pub >>-Triple {κ μ} :
    {S : Type κ} {B : Type μ} {P R : S → Type 0} {Q : B → S → Type 0} {E : S → Type 0}
    {task : Task S (Unit {0})} {rest : Task S B}
    → Triple P task (λ _. R) E
    → Triple R rest Q E
    → Triple P (task >> rest) Q E
>>-Triple {R = R} {Q = Q} {E = E} {task = task} {rest = rest} first second = record {
  ends = λ s h. resume-Ends (λ _. R) Q E (λ _. rest) (task s) (λ _. second) (first.ends s h);
}
