-- ===== src/Apply/Steps.antt =====
-- What the awaits and calls of an apply leave as it was, and how its operation moves on
-- (src/sdn_controller/core/use_cases/reconcile.py).
use nervum.Prelude.{
  ◌∙◌, ◌+◌, ℕ, String, true, false, Option, none, some, ◌≡◌, refl, arith, is_some, Dict,
}
use nervum.Errors.{Result, ok, err}
use nervum.Operation.{
  Operation, OperationStatus, OperationEvent, OperationError, transition_to, log, is_terminal,
}
use nervum.Operation.Graph.{◌⟶◌, TakesError, transition_to_iff}
use nervum.Operation.Events.{IsValid, log-IsValid, transition_to-IsValid}
use nervum.Network.{Network}
use nervum.Agent.{Plan}
use nervum.Node.{Node}
use nervum.Planning.Observed.{ObservedState}
use nervum.Apply.Tasks.{Raised, >>=-Triple, Triple, Task, Ends, Outcome, returned, raised}
use nervum.Apply.Setting.{World, Applying, Services}
use nervum.Apply.Phases.{
  now, move, moved, note, get_state, apply_plan, save_observed, observe_node, save_report,
  with_agents, get_node, make_plans, found,
}

-- What no phase touches in the world.
abbrev pub Untouched : {Agents : Type 0} → World Agents → World Agents → Type 0
Untouched start w =
    (w.networks ≡ start.networks)
    × (w.nodes ≡ start.nodes)
    × (w.operations ≡ start.operations)
    × (w.held ≡ start.held)
    × (w.outbox ≡ start.outbox)

module _ {Agents : Type 0} (start : World Agents) (operation_id : String) where
  -- The operation has the id and a valid history, and nothing was saved yet.
  abbrev pub Kept : Applying Agents → Type 0
  Kept s = (s.operation.id ≡ operation_id) × IsValid s.operation × Untouched start s.world

  -- The operation is in the given status.
  abbrev pub InStage : OperationStatus → Applying Agents → Type 0
  InStage status s = (s.operation.status ≡ status) × Kept s

  -- The operation has not ended.
  abbrev pub IsOpen : Applying Agents → Type 0
  IsOpen s = (is_terminal s.operation.status ≡ false) × Kept s

transition_to-id :
    (t : OperationStatus) (at : ℕ) (m : String) (x : Option OperationError) (op op' : Operation)
    (e : OperationEvent)
    → transition_to t at m none x op ≡ ok (op', e)
    → (op'.status ≡ t) × (op'.id ≡ op.id)
unfolding transition_to
transition_to-id t at m x op op' e h = ground arith

module _ {Agents : Type 0} (self : Services Agents) (start : World Agents)
    (operation_id : String) where
  moved-Ends :
      (E : Applying Agents → Type 0) (t : OperationStatus) (at : ℕ) (m : String)
      (x : Option OperationError) (s : Applying Agents) (r : Result (Operation × OperationEvent))
      → transition_to t at m none x s.operation ≡ r
      → s.operation.status ⟶ t
      → (is_some x ≡ true → TakesError t)
      → Kept start operation_id s
      → Ends (λ _. InStage start operation_id t) E (moved self s r)
  moved-Ends E t at m x s (ok (op', e)) h edge takes kept =
      let (status, same) = transition_to-id t at m x s.operation op' e h in
      (
        status,
        (same ∙ kept.0, transition_to-IsValid t at m none x s.operation op' e kept.1 h, kept.2),
      )
  moved-Ends E t at m x s (err e) h edge takes kept =
      let granted = (transition_to_iff t at m none x s.operation).0.1 (edge, takes) in
      absurd (cc (granted, h))

  -- A transition along an edge of the life cycle does not raise.
  pub move-Triple :
      {E : Applying Agents → Type 0} (t : OperationStatus) (m : String) (x : Option OperationError)
      → (is_some x ≡ true → TakesError t)
      → Triple
          (λ s. (s.operation.status ⟶ t) × Kept start operation_id s)
          (move self t m x)
          (λ _. InStage start operation_id t)
          E
  unfolding move now
  move-Triple {E = E} t m x takes = record {
    ends = λ s h.
        moved-Ends E t (self.clock s.world.ticks) m x
          (record s { world = record (s.world) { ticks = s.world.ticks + 1 } }) _ refl h.0 takes
          h.1;
  }

  -- The task neither moves the operation nor touches what is kept, also where it raises.
  abbrev pub Stays {ℓ} : {A : Type ℓ} → OperationStatus → Task (Applying Agents) A → Type 0
  Stays st task =
      Triple (InStage start operation_id st) task (λ _. InStage start operation_id st)
        (InStage start operation_id st)

  pub note-Stays :
      (st : OperationStatus) (m : String) (payload : Dict String) → Stays st (note self m payload)
  unfolding note now log
  note-Stays st m payload = record {
    ends = λ s h. (
      h.0,
      (h.1.0, log-IsValid (self.clock s.world.ticks) m (some payload) s.operation h.1.1, h.1.2),
    );
  }

  with_agents-Ends :
      {A : Type 0} (st : OperationStatus) (s : Applying Agents) (r : Outcome A × Agents)
      → InStage start operation_id st s
      → Ends
          (λ _. InStage start operation_id st)
          (InStage start operation_id st)
          (with_agents self s r)
  with_agents-Ends st s (returned a, agents) h = h
  with_agents-Ends st s (raised e, agents) h = h

  found-Ends :
      (st : OperationStatus) (s : Applying Agents) (missing : Raised) (o : Option Node)
      → InStage start operation_id st s
      → Ends
          (λ _. InStage start operation_id st)
          (InStage start operation_id st)
          (found self missing o s)
  found-Ends st s missing none h = h
  found-Ends st s missing (some node) h = h

  pub get_node-Stays :
      (st : OperationStatus) (network : Network) (nid : String)
      → Stays st (get_node self network nid)
  unfolding get_node
  get_node-Stays st network nid = record { ends = λ s h. found-Ends st s _ _ h }

  pub get_state-Stays : (st : OperationStatus) (nid : String) → Stays st (get_state self nid)
  unfolding get_state
  get_state-Stays st nid = record {
    ends = λ s h. with_agents-Ends st s (self.agent.get_state nid s.world.agents) h;
  }

  pub apply_plan-Stays :
      (st : OperationStatus) (nid : String) (steps : Plan) → Stays st (apply_plan self nid steps)
  unfolding apply_plan
  apply_plan-Stays st nid steps = record {
    ends = λ s h. with_agents-Ends st s (self.agent.apply_plan nid steps s.world.agents) h;
  }

  pub observe_node-Stays : (st : OperationStatus) (nid : String) → Stays st (observe_node self nid)
  unfolding observe_node save_report save_observed now
  observe_node-Stays st nid =
      >>=-Triple (get_state-Stays st nid) (λ view. record { ends = λ s h. h })

  pub make_plans-Stays :
      (st : OperationStatus) (network : Network) (nodes : Dict Node) (observed : Dict ObservedState)
      → Stays st (make_plans self network nodes observed)
  unfolding make_plans
  make_plans-Stays st network nodes observed = record { ends = λ s h. h }
