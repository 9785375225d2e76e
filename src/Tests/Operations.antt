-- ===== src/Tests/Operations.antt =====
-- The life of one operation (src/sdn_controller/core/entities/operation.py).
use nervum.Prelude.{
  ◌+◌, ◌≤◌, ◌≡◌, refl, ◌↔◌, true, false, none, some, List, [], ◌∷◌, is_some, length,
}
use nervum.Errors.{is_ok, err, invalid_state_transition, DomainError}
use nervum.Operation.{
  OperationStatus, planning, running, verifying, succeeded, failed, network_apply, OperationError,
  Operation, accept, transition_to, log, is_terminal,
}
use nervum.Operation.Graph.{◌⟶◌, TakesError, transition_to_iff, is_terminal_iff, steps_left}
use nervum.Operation.Events.{
  IsValid, Call, move, note, run, run-accept-IsValid, run-steps, run-terminal,
}

abbrev op : Operation
op = accept "op_1" network_apply (record { type = "network"; id = "net_1" }) 100 none "start"

abbrev boom : OperationError
boom = record { code = "verify_failed"; message = "drift"; details = [] }

-- One call is refused for its target, one for an error that its status does not take.
abbrev calls : List Call
calls =
    move planning 110 "plan" none none
    ∷ move succeeded 115 "skip" none none
    ∷ note 120 "planned" none
    ∷ move running 130 "run" none (some boom)
    ∷ move running 140 "run" none none
    ∷ move failed 150 "boom" none (some boom)
    ∷ move verifying 160 "late" none none
    ∷ []

run-calls :
    let (o, n) = run calls op in
    (o.status ≡ failed)
    × (n ≡ 3)
    × (o.error ≡ some boom)
    × (length o.events ≡ 5)
    × (o.updated_at ≡ 150)
unfolding run accept transition_to log
run-calls = (refl, refl, refl, refl, refl)

transition_to_iff_example :
    ((is_ok (transition_to planning 110 "plan" none none op) ≡ true)
      ↔ ((op.status ⟶ planning) × (is_some {A = OperationError} none ≡ true → TakesError planning)))
    × ((e : DomainError)
        → transition_to planning 110 "plan" none none op ≡ err e
        → e ≡ invalid_state_transition)
transition_to_iff_example = transition_to_iff planning 110 "plan" none none op

is_terminal_iff_example :
    (is_terminal failed ≡ true → (t : OperationStatus) → ¬ (failed ⟶ t))
    × (is_terminal failed ≡ false → failed ⟶ failed)
is_terminal_iff_example = is_terminal_iff failed

run-accept-IsValid_example : IsValid (run calls op).0
run-accept-IsValid_example =
    run-accept-IsValid "op_1" network_apply (record { type = "network"; id = "net_1" }) 100 none
      "start" calls

run-steps_example : (run calls op).1 + steps_left (run calls op).0.status ≤ steps_left op.status
run-steps_example = run-steps calls op

run-terminal_example :
    let done = (run calls op).0 in
    ((run calls done).0.status ≡ done.status) × ((run calls done).0.error ≡ done.error)
unfolding run accept is_terminal transition_to log
run-terminal_example = run-terminal calls (run calls op).0 refl
