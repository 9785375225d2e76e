-- ===== src/Apply/Stages.antt =====
-- How the phases of an apply move its operation from `accepted` to `verifying`
-- (src/sdn_controller/core/use_cases/reconcile.py, `_plan`, `_run` and `_verify`).
use nervum.Prelude.{sym, subst, String, false, none, List, [], ◌∷◌, ◌≡◌, refl, arith, Dict}
use nervum.Operation.{OperationStatus, accepted, planning, running, verifying, is_terminal}
use nervum.Operation.Graph.{◌⟶◌, launch, check, plan}
use nervum.Node.{Node}
use nervum.Network.{Network}
use nervum.Agent.{PlanResult}
use nervum.Planning.{NodeAddress}
use nervum.Planning.Observed.{ObservedState}
use nervum.Planning.Planner.{PerNodePlan}
use nervum.Apply.Tasks.{consequence, ◌>>◌, Triple, Task, >>=-Triple, >>-Triple}
use nervum.Apply.Setting.{World, Applying, Services}
use nervum.Apply.Phases.{
  observe_nodes, plan_nodes, plan_phase, check_result, run_plans, run_phase, gather_peers,
  check_compliance, verify_plans, verify_phase, phases, move,
}
use nervum.Apply.Steps.{
  InStage, IsOpen, Stays, move-Triple, note-Stays, get_node-Stays, apply_plan-Stays,
  observe_node-Stays, make_plans-Stays,
}

module _ {Agents : Type 0} (self : Services Agents) (start : World Agents)
    (operation_id : String) where
  abbrev Keeps {ℓ} : {A : Type ℓ} → OperationStatus → Task (Applying Agents) A → Type 0
  Keeps = Stays self start operation_id

  observe_nodes-Stays :
      (st : OperationStatus) (network : Network) (nids : List String) (nodes : Dict Node)
      (observed : Dict ObservedState)
      → Keeps st (observe_nodes self network nids nodes observed)
  unfolding observe_nodes
  observe_nodes-Stays st network [] nodes observed = record { ends = λ s h. h }
  observe_nodes-Stays st network (nid ∷ nids) nodes observed =
      >>=-Triple (get_node-Stays self start operation_id st network nid) (λ node.
        >>=-Triple (observe_node-Stays self start operation_id st nid)
          (λ obs. observe_nodes-Stays st network nids _ _))

  plan_nodes-Stays :
      (st : OperationStatus) (network : Network) (nids : List String)
      → Keeps st (plan_nodes self network nids)
  unfolding plan_nodes
  plan_nodes-Stays st network [] = record { ends = λ s h. h }
  plan_nodes-Stays st network (nid ∷ nids) =
      >>=-Triple (observe_nodes-Stays st network (nid ∷ nids) [] []) (λ seen.
        >>=-Triple (make_plans-Stays self start operation_id st network seen.0 seen.1) (λ plans.
          >>-Triple (note-Stays self start operation_id st _ _) (record { ends = λ s h. h })))

  check_result-Stays :
      (st : OperationStatus) (nid : String) (result : PlanResult)
      → Keeps st (check_result self nid result)
  check_result-Stays st nid result = record { ends = λ s h. ground (arith, h) }

  run_plans-Stays :
      (st : OperationStatus) (plans : List PerNodePlan) → Keeps st (run_plans self plans)
  unfolding run_plans
  run_plans-Stays st [] = record { ends = λ s h. h }
  run_plans-Stays st (p ∷ plans) =
      >>=-Triple (apply_plan-Stays self start operation_id st p.node_id p.plan) (λ result.
        >>-Triple (note-Stays self start operation_id st _ _)
          (>>-Triple (check_result-Stays st p.node_id result) (run_plans-Stays st plans)))

  gather_peers-Stays :
      (st : OperationStatus) (network : Network) (nids : List String)
      → Keeps st (gather_peers self network nids)
  unfolding gather_peers
  gather_peers-Stays st network [] = record { ends = λ s h. h }
  gather_peers-Stays st network (nid ∷ nids) =
      >>=-Triple (get_node-Stays self start operation_id st network nid) (λ node.
        >>=-Triple (gather_peers-Stays st network nids) (λ peers. record { ends = λ s h. h }))

  check_compliance-Stays :
      (st : OperationStatus) (network : Network) (peers : List NodeAddress) (nid : String)
      (observed : ObservedState)
      → Keeps st (check_compliance self network peers nid observed)
  check_compliance-Stays st network peers nid observed = record { ends = λ s h. ground (arith, h) }

  verify_plans-Stays :
      (st : OperationStatus) (network : Network) (peers : List NodeAddress)
      (plans : List PerNodePlan)
      → Keeps st (verify_plans self network peers plans)
  unfolding verify_plans
  verify_plans-Stays st network peers [] = record { ends = λ s h. h }
  verify_plans-Stays st network peers (p ∷ plans) =
      >>=-Triple (observe_node-Stays self start operation_id st p.node_id) (λ observed.
        >>-Triple (check_compliance-Stays st network peers p.node_id observed)
          (verify_plans-Stays st network peers plans))

  -- An open stage: raising in it leaves the operation open.
  IsOpen-stage :
      {st : OperationStatus}
      → is_terminal st ≡ false
      → (s : Applying Agents) → InStage start operation_id st s
      → IsOpen start operation_id s
  IsOpen-stage o s h = (cc (o, h.0), h.1)

  -- A phase moves the operation along an edge to an open status, and goes on in that status.
  phase :
      {A : Type 0} {st t : OperationStatus} (m : String) {body : Task (Applying Agents) A}
      → st ⟶ t
      → is_terminal t ≡ false
      → Keeps t body
      → Triple
          (InStage start operation_id st)
          (move self t m none >> body)
          (λ _. InStage start operation_id t)
          (IsOpen start operation_id)
  phase {t = t} m edge o stays =
      >>-Triple
        (consequence (λ s h. (subst (λ x. x ⟶ t) (sym h.0) edge, h.1)) (λ _ s h. h) (λ s h. h)
          (move-Triple self start operation_id t m none (λ e. cc e)))
        (consequence (λ s h. h) (λ _ s h. h) (IsOpen-stage o) stays)

  plan_phase-Triple :
      (network : Network)
      → Triple
          (InStage start operation_id accepted)
          (plan_phase self network)
          (λ _. InStage start operation_id planning)
          (IsOpen start operation_id)
  unfolding plan_phase is_terminal
  plan_phase-Triple network = phase _ plan refl (plan_nodes-Stays planning network network.node_ids)

  run_phase-Triple :
      (plans : List PerNodePlan)
      → Triple
          (InStage start operation_id planning)
          (run_phase self plans)
          (λ _. InStage start operation_id running)
          (IsOpen start operation_id)
  unfolding run_phase is_terminal
  run_phase-Triple plans = phase _ launch refl (run_plans-Stays running plans)

  verify_phase-Triple :
      (network : Network) (plans : List PerNodePlan)
      → Triple
          (InStage start operation_id running)
          (verify_phase self network plans)
          (λ _. InStage start operation_id verifying)
          (IsOpen start operation_id)
  unfolding verify_phase is_terminal
  verify_phase-Triple network plans = phase _ check refl (
      >>=-Triple (gather_peers-Stays verifying network network.node_ids)
        (λ peers. verify_plans-Stays verifying network peers plans))

  -- The phases leave the operation in status `verifying`; where one raises, the operation has not
  -- ended. They save no operation, publish nothing and touch neither the networks, the nodes nor
  -- the locks.
  pub phases-Triple :
      (network : Network)
      → Triple
          (InStage start operation_id accepted)
          (phases self network)
          (λ _. InStage start operation_id verifying)
          (IsOpen start operation_id)
  unfolding phases
  phases-Triple network = >>=-Triple (plan_phase-Triple network) (λ plans.
      >>-Triple (run_phase-Triple plans)
        (>>-Triple (verify_phase-Triple network plans) (record { ends = λ s h. h })))
