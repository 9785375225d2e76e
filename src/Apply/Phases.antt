-- ===== src/Apply/Phases.antt =====
-- The phases of an apply: `_plan`, `_run` and `_verify` of
-- src/sdn_controller/core/use_cases/reconcile.py.
use nervum.Prelude.{
  ℕ, String, not, Option, none, some, List, [], ◌∷◌, filter, length, Dict, decimal, lookup, insert,
  if◌then◌else◌, ◌+++◌, ◌+◌,
}
use nervum.Errors.{Result, ok, err}
use nervum.Operation.{
  Operation, OperationStatus, OperationEvent, OperationError, planning, running, verifying,
  transition_to, log,
}
use nervum.Node.{Node}
use nervum.Network.{Network}
use nervum.Ovs.Dumps.{OvsState}
use nervum.Agent.{Plan, PlanResult}
use nervum.Planning.{NodeAddress, is_in_compliance}
use nervum.Planning.Observed.{ObservedState, state_view_to_observed}
use nervum.Planning.Planner.{PerNodePlan, plan_for_network}
use nervum.Apply.Tasks.{Raised, Outcome, returned, raised, Task, pure, raise, ◌>>=◌, ◌>>◌}
use nervum.Apply.Setting.{
  Applying, Services, code_of, an_error, apply_failed, verify_failed, missing_node,
}

-- The methods of an `ApplyNetwork`.
module _ {Agents : Type 0} (self : Services Agents) where
  abbrev Step {ℓ} : Type ℓ → Type ℓ
  Step = Task (Applying Agents)

  -- `self._clock.now()`
  unfoldable pub now : Step ℕ
  now s =
      let w = s.world in
      (returned (self.clock w.ticks), record s { world = record w { ticks = w.ticks + 1 } })

  -- What a transition leaves: it raises before it changes anything.
  abbrev pub moved :
      Applying Agents → Result (Operation × OperationEvent) → Outcome (Unit {0}) × Applying Agents
  moved s (ok (after, _)) = (returned tt, record s { operation = after })
  moved s (err e) = (raised (an_error (code_of e) "" []), s)

  -- `operation.transition_to(status, now=self._clock.now(), message=…, error=…)`
  unfoldable pub move : OperationStatus → String → Option OperationError → Step (Unit {0})
  move status message error = do
    at ← now
    λ s. moved s (transition_to status at message none error s.operation)

  -- `operation.log(now=self._clock.now(), message=…, payload=…)`
  unfoldable pub note : String → Dict String → Step (Unit {0})
  note message payload = do
    at ← now
    λ s. (returned tt, record s { operation = (log at message (some payload) s.operation).0 })

  abbrev pub found : Raised → Option Node → Step Node
  found missing none = raise missing
  found missing (some node) = pure node

  -- `await self._nodes.get(node_id)`, and the error where the answer is `None`
  unfoldable pub get_node : Network → String → Step Node
  get_node network node_id s = found (missing_node network node_id) (lookup node_id s.world.nodes) s

  abbrev pub with_agents {ℓ} :
      {A : Type ℓ} → Applying Agents → Outcome A × Agents → Outcome A × Applying Agents
  with_agents s (outcome, agents) =
      (outcome, record s { world = record (s.world) { agents = agents } })

  -- `await self._agent.get_state(node_id)` and `await self._agent.apply_plan(node_id, plan)`
  unfoldable pub get_state : String → Step (OvsState × String)
  get_state node_id s = with_agents s (self.agent.get_state node_id s.world.agents)

  unfoldable pub apply_plan : String → Plan → Step PlanResult
  apply_plan node_id plan s = with_agents s (self.agent.apply_plan node_id plan s.world.agents)

  -- `await self._observed.save(obs)`
  unfoldable pub save_observed : ObservedState → Step (Unit {0})
  save_observed obs s =
      let w = s.world in
      (returned tt, record s { world = record w { observed = insert obs.node_id obs w.observed } })

  unfoldable pub save_report : String → OvsState × String → Step ObservedState
  save_report node_id view = do
    at ← now
    let obs = state_view_to_observed node_id view.0 view.1 at
    save_observed obs
    pure obs

  -- An agent's report, converted and saved.
  unfoldable pub observe_node : String → Step ObservedState
  observe_node node_id = do view ← get_state node_id; save_report node_id view

  -- The loop of `_plan` over the nodes, with the two dicts that it fills.
  unfoldable pub observe_nodes :
      Network → List String → Dict Node → Dict ObservedState → Step (Dict Node × Dict ObservedState)
  observe_nodes network [] nodes observed = pure (nodes, observed)
  observe_nodes network (node_id ∷ node_ids) nodes observed = do
    node ← get_node network node_id
    obs ← observe_node node_id
    observe_nodes network node_ids (insert node_id node nodes) (insert node_id obs observed)

  -- `self._planner.plan_for_network(…)`, which draws an id for each plan
  unfoldable pub make_plans : Network → Dict Node → Dict ObservedState → Step (List PerNodePlan)
  make_plans network nodes observed s =
      let w = s.world in
      let plans = plan_for_network self.new_id network nodes observed w.next_id in
      (returned plans, record s { world = record w { next_id = w.next_id + length plans } })

  abbrev pub total_steps : List PerNodePlan → ℕ
  total_steps [] = 0
  total_steps (p ∷ plans) = length p.plan.steps + total_steps plans

  unfoldable pub plan_nodes : Network → List String → Step (List PerNodePlan)
  plan_nodes network [] = pure []
  plan_nodes network (node_id ∷ node_ids) = do
    seen ← observe_nodes network (node_id ∷ node_ids) [] []
    plans ← make_plans network seen.0 seen.1
    note
        ("planned "
          +++ decimal (total_steps plans)
          +++ " step(s) across "
          +++ decimal (length plans)
          +++ " node(s)")
        (("node_plans", self.texts.plans plans) ∷ [])
    pure plans

  -- `_plan`
  unfoldable pub plan_phase : Network → Step (List PerNodePlan)
  plan_phase network = do
    move planning "observing target nodes and computing diff" none
    plan_nodes network network.node_ids

  -- `if not result.ok: raise _apply_failed(…)`
  abbrev pub check_result : String → PlanResult → Step (Unit {0})
  check_result node_id result =
      if result.ok then pure tt else raise (apply_failed self.texts node_id result.steps)

  abbrev pub log_result : String → PlanResult → Step (Unit {0})
  log_result node_id result =
      note
        ("node "
          +++ node_id
          +++ ": "
          +++ (if result.ok then "ok" else "failed")
          +++ " ("
          +++ decimal (length (filter (λ s. s.changed) result.steps))
          +++ " changed, "
          +++ decimal (length (filter (λ s. not s.ok) result.steps))
          +++ " failed)")
        (("node_id", node_id)
          ∷ ("plan_id", result.plan_id)
          ∷ ("ok", self.texts.flag result.ok)
          ∷ ("steps", self.texts.results result.steps)
          ∷ [])

  -- The loop of `_run`.
  unfoldable pub run_plans : List PerNodePlan → Step (Unit {0})
  run_plans [] = pure tt
  run_plans (p ∷ plans) = do
    result ← apply_plan p.node_id p.plan
    log_result p.node_id result
    check_result p.node_id result
    run_plans plans

  -- `_run`
  unfoldable pub run_phase : List PerNodePlan → Step (Unit {0})
  run_phase plans = do move running "applying per-node plans" none; run_plans plans

  -- The first loop of `_verify`: `peers`
  unfoldable pub gather_peers : Network → List String → Step (List NodeAddress)
  gather_peers network [] = pure []
  gather_peers network (node_id ∷ node_ids) = do
    node ← get_node network node_id
    peers ← gather_peers network node_ids
    pure (record { node_id = node_id; mgmt_ip = node.mgmt_ip } ∷ peers)

  abbrev pub check_compliance :
      Network → List NodeAddress → String → ObservedState → Step (Unit {0})
  check_compliance network peers node_id observed =
      if not (is_in_compliance network node_id peers observed)
      then raise (verify_failed node_id)
      else pure tt

  -- The second loop of `_verify`.
  unfoldable pub verify_plans : Network → List NodeAddress → List PerNodePlan → Step (Unit {0})
  verify_plans network peers [] = pure tt
  verify_plans network peers (p ∷ plans) = do
    observed ← observe_node p.node_id
    check_compliance network peers p.node_id observed
    verify_plans network peers plans

  -- `_verify`
  unfoldable pub verify_phase : Network → List PerNodePlan → Step (Unit {0})
  verify_phase network plans = do
    move verifying "re-observing nodes to confirm convergence" none
    peers ← gather_peers network network.node_ids
    verify_plans network peers plans

  -- The three phases, and the number of plans.
  unfoldable pub phases : Network → Step ℕ
  phases network = do
    plans ← plan_phase network
    run_phase plans
    verify_phase network plans
    pure (length plans)
