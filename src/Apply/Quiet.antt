-- ===== src/Apply/Quiet.antt =====
-- The parts of an apply that leave the node repository and the observed states as they were
-- (src/sdn_controller/core/use_cases/reconcile.py).
use nervum.Prelude.{◌+◌, String, Option, List, [], ◌∷◌, arith, Dict}
use nervum.Errors.{Result, ok, err}
use nervum.Operation.{Operation, OperationStatus, OperationEvent, OperationError}
use nervum.Node.{Node}
use nervum.Agent.{Plan, PlanResult}
use nervum.Planning.Observed.{ObservedState}
use nervum.Planning.Planner.{PerNodePlan}
use nervum.Apply.Tasks.{
  Anything, Triple, Task, Ends, >>=-Triple, >>-Triple, Outcome, returned, raised,
}
use nervum.Apply.Setting.{Applying, Services}
use nervum.Apply.Phases.{
  move, moved, now, note, apply_plan, with_agents, check_result, run_plans, run_phase,
}

module _ {Agents : Type 0} (self : Services Agents)
    (P : Dict Node → Dict ObservedState → Type 0) where
  -- `P` holds of the nodes and the observed states that the repositories hold.
  abbrev pub Sees : Applying Agents → Type 0
  Sees s = P s.world.nodes s.world.observed

  abbrev pub Quiet {ℓ} : {A : Type ℓ} → Task (Applying Agents) A → Type 0
  Quiet task = Triple Sees task (λ _. Sees) Anything

  moved-Ends :
      (s : Applying Agents) (r : Result (Operation × OperationEvent))
      → Sees s
      → Ends (λ _. Sees) Anything (moved self s r)
  moved-Ends s (ok (op, e)) h = h
  moved-Ends s (err e) h = tt

  pub move-Quiet :
      (t : OperationStatus) (m : String) (x : Option OperationError) → Quiet (move self t m x)
  unfolding move now
  move-Quiet t m x = record {
    ends =
        λ s h. moved-Ends (record s { world = record (s.world) { ticks = s.world.ticks + 1 } }) _ h;
  }

  pub note-Quiet : (m : String) (payload : Dict String) → Quiet (note self m payload)
  unfolding note now
  note-Quiet m payload = record { ends = λ s h. h }

  with_agents-Ends :
      {A : Type 0} (s : Applying Agents) (r : Outcome A × Agents)
      → Sees s
      → Ends (λ _. Sees) Anything (with_agents self s r)
  with_agents-Ends s (returned a, agents) h = h
  with_agents-Ends s (raised e, agents) h = tt

  apply_plan-Quiet : (nid : String) (steps : Plan) → Quiet (apply_plan self nid steps)
  unfolding apply_plan
  apply_plan-Quiet nid steps = record {
    ends = λ s h. with_agents-Ends s (self.agent.apply_plan nid steps s.world.agents) h;
  }

  check_result-Quiet : (nid : String) (result : PlanResult) → Quiet (check_result self nid result)
  check_result-Quiet nid result = record { ends = λ s h. ground (arith, h) }

  run_plans-Quiet : (plans : List PerNodePlan) → Quiet (run_plans self plans)
  unfolding run_plans
  run_plans-Quiet [] = record { ends = λ s h. h }
  run_plans-Quiet (p ∷ plans) = >>=-Triple (apply_plan-Quiet p.node_id p.plan) (λ result.
      >>-Triple (note-Quiet _ _)
        (>>-Triple (check_result-Quiet p.node_id result) (run_plans-Quiet plans)))

  pub run_phase-Quiet : (plans : List PerNodePlan) → Quiet (run_phase self plans)
  unfolding run_phase
  run_phase-Quiet plans = >>-Triple (move-Quiet _ _ _) (run_plans-Quiet plans)
