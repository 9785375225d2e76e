-- ===== src/Apply/Conclusions.antt =====
-- What the `try` statement of an apply leaves: the operation has ended and is saved
-- (src/sdn_controller/core/use_cases/reconcile.py, `_execute_in_span`).
use nervum.Errors.{Result, ok, err}
use nervum.Prelude.{
  arith, ◌+◌, if◌then◌else◌, ap, sym, subst, ◌++◌, ℕ, String, true, false, Bool, none, some, [],
  ◌∷◌, ◌≡◌, refl, inl, insert,
}
use nervum.Operation.{
  Operation, OperationEvent, transition_to, OperationStatus, OperationError, accepted, verifying,
  succeeded, failed,
}
use nervum.Operation.Graph.{◌⟶◌, finish, is_terminal_iff}
use nervum.Operation.Events.{IsValid}
use nervum.Network.{Network}
use nervum.Apply.{applied_event, fail, save_and_publish, conclude, attempt}
use nervum.Apply.Tasks.{
  Anything, resume, ◌>>◌, raise, consequence, Triple, Ends, >>-Triple, Outcome, returned, raised,
  domain_error, unexpected,
}
use nervum.Apply.Setting.{World, Applying, Services, Published, wrap_unexpected}
use nervum.Apply.Phases.{phases, move, moved, now}
use nervum.Apply.Steps.{InStage, IsOpen, move-Triple}
use nervum.Apply.Stages.{phases-Triple}

module _ {Agents : Type 0} (start : World Agents) (operation_id : String) where
  -- The operation ended in the given status, was saved, and one event announces it.
  abbrev pub Saved : OperationStatus → Bool → Applying Agents → Type 0
  Saved st converged s =
      (s.operation.status ≡ st)
      × (s.operation.id ≡ operation_id)
      × IsValid s.operation
      × (s.world.operations ≡ insert s.operation.id s.operation start.operations)
      × (s.world.networks ≡ start.networks)
      × (s.world.nodes ≡ start.nodes)
      × (s.world.held ≡ start.held)
      × ((event : Published) × (s.world.outbox ≡ start.outbox ++ event ∷ [])
          × (event.operation_id ≡ s.operation.id)
          × (event.ok ≡ converged)
          × (event.event_type ≡ (if converged then "network.applied" else "network.apply_failed")))

module _ {Agents : Type 0} (self : Services Agents) (start : World Agents)
    (operation_id : String) where
  save-Triple :
      {E : Applying Agents → Type 0} (st : OperationStatus) (network : Network) (converged : Bool)
      (n : ℕ)
      → Triple
          (InStage start operation_id st)
          (save_and_publish self network converged n)
          (λ _. Saved start operation_id st converged)
          E
  unfolding save_and_publish
  save-Triple st network converged n = record {
    ends = λ s (status, (id, valid, (networks, nodes, operations, held, outbox))). (
      status,
      id,
      valid,
      rw operations refl,
      networks,
      nodes,
      held,
      (
        applied_event network converged n s.operation,
        ap (λ box. box ++ applied_event network converged n s.operation ∷ []) outbox,
        refl,
        refl,
        refl,
      ),
    );
  }

  fail-Triple :
      {E : Applying Agents → Type 0} (error : OperationError)
      → Triple
          (IsOpen start operation_id)
          (fail self error)
          (λ _. InStage start operation_id failed)
          E
  unfolding fail
  fail-Triple error =
      consequence (λ s h. ((is_terminal_iff s.operation.status).1 h.0, h.1)) (λ _ s h. h) (λ s h. h)
        (move-Triple self start operation_id failed error.message (some error) (λ _. inl refl))

  succeed-Triple :
      (network : Network) (n : ℕ)
      → Triple
          (InStage start operation_id verifying)
          (conclude self network (returned n))
          (λ _. Saved start operation_id succeeded true)
          (λ _. ⊥)
  unfolding conclude
  succeed-Triple network n =
      >>-Triple
        (consequence (λ s h. (subst (λ x. x ⟶ succeeded) (sym h.0) finish, h.1)) (λ _ s h. h)
          (λ s h. h) (move-Triple self start operation_id succeeded _ none (λ e. cc e)))
        (save-Triple succeeded network true n)

  pub domain-Triple :
      (network : Network) (error : OperationError)
      → Triple
          (IsOpen start operation_id)
          (conclude self network (raised (domain_error error)))
          (λ _. Saved start operation_id failed false)
          (Saved start operation_id failed false)
  unfolding conclude
  domain-Triple network error = >>-Triple (fail-Triple error) (save-Triple failed network false 0)

  pub unexpected-Triple :
      (network : Network) (text : String)
      → Triple
          (IsOpen start operation_id)
          (conclude self network (raised (unexpected text)))
          (λ _. Saved start operation_id failed false)
          (Saved start operation_id failed false)
  unfolding conclude
  unexpected-Triple network text =
      >>-Triple (fail-Triple (wrap_unexpected text))
        (>>-Triple (save-Triple failed network false 0) (record { ends = λ s h. h }))

  -- What the `try` statement makes of an outcome of the phases: it returns after a success and after
  -- a domain error, which the operation then holds, and passes on any other exception, which the
  -- operation holds wrapped.
  abbrev pub Concluded : Outcome ℕ → Outcome (Unit {0}) × Applying Agents → Type 0
  Concluded (returned n) (returned _, s) = Saved start operation_id succeeded true s
  Concluded (returned n) (raised _, s) = ⊥
  Concluded (raised (domain_error error)) (returned _, s) =
      Saved start operation_id failed false s × (s.operation.error ≡ some error)
  Concluded (raised (domain_error error)) (raised _, s) = ⊥
  Concluded (raised (unexpected text)) (returned _, s) = ⊥
  Concluded (raised (unexpected text)) (raised x, s) =
      (x ≡ unexpected text)
      × Saved start operation_id failed false s
      × (s.operation.error ≡ some (wrap_unexpected text))

  transition_to-error :
      (t : OperationStatus) (at : ℕ) (m : String) (e : OperationError) (op op' : Operation)
      (event : OperationEvent)
      → transition_to t at m none (some e) op ≡ ok (op', event)
      → op'.error ≡ some e
  unfolding transition_to
  transition_to-error t at m e op op' event h = ground arith

  moved_error :
      (t : OperationStatus) (at : ℕ) (m : String) (e : OperationError) (s : Applying Agents)
      (r : Result (Operation × OperationEvent))
      → transition_to t at m none (some e) s.operation ≡ r
      → Ends (λ _ s'. s'.operation.error ≡ some e) Anything (moved self s r)
  moved_error t at m e s (ok (op', event)) h = transition_to-error t at m e s.operation op' event h
  moved_error t at m e s (err x) h = tt

  fail_error :
      (error : OperationError) (s : Applying Agents)
      → Ends (λ _ s'. s'.operation.error ≡ some error) Anything (fail self error s)
  unfolding fail move now
  fail_error error s =
      moved_error failed (self.clock s.world.ticks) error.message error
        (record s { world = record (s.world) { ticks = s.world.ticks + 1 } }) _ refl

  conclude_returned :
      (network : Network) (n : ℕ) (r : Outcome (Unit {0}) × Applying Agents)
      → Ends (λ _. Saved start operation_id succeeded true) (λ _. ⊥) r
      → Concluded (returned n) r
  conclude_returned network n (returned _, s) h = h
  conclude_returned network n (raised _, s) h = h

  saved_failed :
      (network : Network) (s : Applying Agents)
      → InStage start operation_id failed s
      → Saved start operation_id failed false (save_and_publish self network false 0 s).1
  unfolding save_and_publish
  saved_failed network s h = (save-Triple {E = λ _. ⊥} failed network false 0).ends s h

  conclude_domain :
      (network : Network) (error : OperationError) (r : Outcome (Unit {0}) × Applying Agents)
      → Ends (λ _. InStage start operation_id failed) (λ _. ⊥) r
      → Ends (λ _ s'. s'.operation.error ≡ some error) Anything r
      → Concluded
          (raised (domain_error error))
          (resume (λ _. save_and_publish self network false 0) r)
  unfolding save_and_publish
  conclude_domain network error (returned _, s) h e = (saved_failed network s h, e)
  conclude_domain network error (raised _, s) h e = h

  conclude_unexpected :
      (network : Network) (text : String) (r : Outcome (Unit {0}) × Applying Agents)
      → Ends (λ _. InStage start operation_id failed) (λ _. ⊥) r
      → Ends (λ _ s'. s'.operation.error ≡ some (wrap_unexpected text)) Anything r
      → Concluded
          (raised (unexpected text))
          (resume (λ _. save_and_publish self network false 0 >> raise (unexpected text)) r)
  unfolding save_and_publish
  conclude_unexpected network text (returned _, s) h e = (refl, saved_failed network s h, e)
  conclude_unexpected network text (raised _, s) h e = absurd h

  conclude-Concluded :
      (network : Network) (r : Outcome ℕ × Applying Agents)
      → Ends (λ _. InStage start operation_id verifying) (IsOpen start operation_id) r
      → Concluded r.0 (conclude self network r.0 r.1)
  unfolding conclude
  conclude-Concluded network (returned n, s) h =
      conclude_returned network n (conclude self network (returned n) s)
        ((succeed-Triple network n).ends s h)
  conclude-Concluded network (raised (domain_error error), s) h =
      conclude_domain network error (fail self error s) ((fail-Triple error).ends s h)
        (fail_error error s)
  conclude-Concluded network (raised (unexpected text), s) h =
      conclude_unexpected network text (fail self (wrap_unexpected text) s)
        ((fail-Triple (wrap_unexpected text)).ends s h) (fail_error (wrap_unexpected text) s)

  pub attempt-Concluded :
      (network : Network) (s : Applying Agents)
      → InStage start operation_id accepted s
      → Concluded (phases self network s).0 (attempt self network s)
  attempt-Concluded network s h =
      conclude-Concluded network (phases self network s)
        ((phases-Triple self start operation_id network).ends s h)
