-- ===== src/Inventory/Recorded.antt =====
-- The operation that each use case records (src/sdn_controller/core/use_cases/networks.py, nodes.py).
use nervum.Prelude.{none, subst, ℕ, ◌+◌, ◌≡◌, refl, String, Option, List, [], ◌∷◌}
use nervum.Errors.{ok, >>=-eq-ok, ok-injective}
use nervum.Operation.{
  Operation, OperationStatus, OperationKind, succeeded, accept, transition_to, allowed_transitions,
}
use nervum.Operation.Events.{IsValid, accept-IsValid, transition_to-IsValid}
use nervum.Inventory.{walk, record_operation, stages_of}

walk-IsValid :
    (clock : ℕ → ℕ) (k : ℕ) (stages : List (OperationStatus × String)) (op op' : Operation)
    → IsValid op
    → walk clock k stages op ≡ ok op'
    → IsValid op'
unfolding walk
walk-IsValid clock k [] op op' v h = subst IsValid (ok-injective h) v
walk-IsValid clock k ((status, message) ∷ stages) op op' v h =
    let (moved, first, rest) =
      >>=-eq-ok (transition_to status (clock k) message none none op)
        (λ moved. walk clock (k + 1) stages moved.0) h in
    walk-IsValid clock (k + 1) stages moved.0 op'
      (transition_to-IsValid status (clock k) message none none op moved.0 moved.1 v first) rest

-- An operation that a use case records has a history that follows the diagram.
pub recorded-IsValid :
    (clock : ℕ → ℕ) (operation_id : String) (kind : OperationKind) (type id : String)
    (by : Option String) (message : String) (stages : List (OperationStatus × String))
    (op : Operation)
    → record_operation clock operation_id kind type id by message stages ≡ ok op
    → IsValid op
unfolding record_operation
recorded-IsValid clock operation_id kind type id by message stages op h =
    walk-IsValid clock 1 stages _ op (accept-IsValid operation_id kind _ (clock 0) by message) h

-- A use case whose checks pass records an operation that has succeeded, with a history that follows
-- the diagram.
pub recorded :
    (clock : ℕ → ℕ) (operation_id : String) (kind : OperationKind) (type id : String)
    (by : Option String) (message plan run verify done : String)
    → (op : Operation) × (record_operation clock operation_id kind type id by message
          (stages_of plan run verify done)
        ≡ ok op)
      × (op.status ≡ succeeded)
      × (op.id ≡ operation_id)
      × IsValid op
unfolding record_operation walk accept transition_to allowed_transitions
recorded clock operation_id kind type id by message plan run verify done = (
  _,
  refl,
  refl,
  refl,
  walk-IsValid clock 1 (stages_of plan run verify done) _ _
      (accept-IsValid operation_id kind _ (clock 0) by message) refl,
)
