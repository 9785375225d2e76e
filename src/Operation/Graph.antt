-- ===== src/Operation/Graph.antt =====
-- The diagram of the operation life cycle drawn in the docstring of `OperationStatus`
-- (src/sdn_controller/core/value_objects/enums.py), and how `transition_to` follows it.
use nervum.Prelude.{ℕ, ◌≡◌, refl, ◌↔◌, ◌⊎◌, String, true, false, Option, arith, is_some, Dict}
use nervum.Errors.{DomainError, err, invalid_state_transition, is_ok}
use nervum.Operation.{
  OperationStatus, accepted, planning, running, verifying, succeeded, failed, cancelled,
  rolled_back, is_terminal, allowed_transitions, status_in, OperationError, Operation,
  transition_to,
}

infix 40 ◌⟶◌
pub data ◌⟶◌ : OperationStatus → OperationStatus → Type 0 where
  plan : accepted ⟶ planning
  launch : planning ⟶ running
  check : running ⟶ verifying
  finish : verifying ⟶ succeeded
  cancel_accepted : accepted ⟶ cancelled
  cancel_planning : planning ⟶ cancelled
  cancel_running : running ⟶ cancelled
  fail_accepted : accepted ⟶ failed
  fail_planning : planning ⟶ failed
  fail_running : running ⟶ failed
  fail_verifying : verifying ⟶ failed
  roll_back_running : running ⟶ rolled_back
  roll_back_verifying : verifying ⟶ rolled_back

pub ruleset edges = (
  plan, launch, check, finish, cancel_accepted, cancel_planning, cancel_running, fail_accepted,
  fail_planning, fail_running, fail_verifying, roll_back_running, roll_back_verifying,
)

-- How far a status is from the end of the life cycle.
abbrev pub steps_left : OperationStatus → ℕ
steps_left accepted = 4
steps_left planning = 3
steps_left running = 2
steps_left verifying = 1
steps_left succeeded = 0
steps_left failed = 0
steps_left cancelled = 0
steps_left rolled_back = 0

-- A status in which an error may be recorded.
abbrev pub TakesError : OperationStatus → Type 0
TakesError s = (s ≡ failed) ⊎ (s ≡ rolled_back)

-- The table of the code lists every edge.
⟶-allowed : {s t : OperationStatus} → s ⟶ t → status_in t (allowed_transitions s) ≡ true
unfolding allowed_transitions
⟶-allowed plan = refl
⟶-allowed _ = refl

-- A transition succeeds exactly along an edge of the diagram, where an error comes only with
-- `failed` or `rolled_back`; it raises nothing but `InvalidStateTransition`.
module _ (s : OperationStatus) (now : ℕ) (m : String) (p : Option (Dict String)) where
  pub transition_to-⟶ :
      (x : Option OperationError) (op : Operation)
      → is_ok (transition_to s now m p x op) ≡ true
      → (op.status ⟶ s) × (is_some x ≡ true → TakesError s)
  unfolding transition_to
  transition_to-⟶ x op h = grind (arith, edges)

  transition_to-ok :
      (x : Option OperationError) (op : Operation)
      → op.status ⟶ s
      → (is_some x ≡ true → TakesError s)
      → is_ok (transition_to s now m p x op) ≡ true
  unfolding transition_to
  transition_to-ok x op edge h = ground (arith, ⟶-allowed edge)

  transition_to-err :
      (x : Option OperationError) (op : Operation) {e : DomainError}
      → transition_to s now m p x op ≡ err e
      → e ≡ invalid_state_transition
  unfolding transition_to
  transition_to-err x op h = ground arith

-- `transition_to` succeeds exactly along an edge of the life cycle, where an error is handed in
-- only with `failed` or `rolled_back`; what it raises otherwise is `InvalidStateTransition`.
pub transition_to_iff :
    (s : OperationStatus) (now : ℕ) (m : String) (p : Option (Dict String))
    (x : Option OperationError) (op : Operation)
    → ((is_ok (transition_to s now m p x op) ≡ true)
        ↔ ((op.status ⟶ s) × (is_some x ≡ true → TakesError s)))
      × ((e : DomainError) → transition_to s now m p x op ≡ err e → e ≡ invalid_state_transition)
transition_to_iff s now m p x op = (
  (transition_to-⟶ s now m p x op, λ h. transition_to-ok s now m p x op h.0 h.1),
  λ e h. transition_to-err s now m p x op h,
)

-- No edge leaves a status that takes an error.
pub ⟶-no_error : {s t : OperationStatus} → s ⟶ t → ¬ TakesError s
⟶-no_error plan h = ground arith
⟶-no_error _ h = ground arith

terminal_no_edge : {s t : OperationStatus} → s ⟶ t → is_terminal s ≡ true → ⊥
unfolding is_terminal
terminal_no_edge plan h = cc
terminal_no_edge _ h = cc

open_fails : (s : OperationStatus) → is_terminal s ≡ false → s ⟶ failed
unfolding is_terminal
open_fails accepted h = fail_accepted
open_fails planning h = fail_planning
open_fails running h = fail_running
open_fails verifying h = fail_verifying
open_fails _ h = cc

-- A terminal status has no edge out of it, and every other one has an edge to `failed`.
pub is_terminal_iff :
    (s : OperationStatus)
    → (is_terminal s ≡ true → (t : OperationStatus) → ¬ (s ⟶ t))
      × (is_terminal s ≡ false → s ⟶ failed)
unfolding is_terminal
is_terminal_iff s = (λ h t edge. terminal_no_edge edge h, open_fails s)
