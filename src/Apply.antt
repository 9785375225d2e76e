-- ===== src/Apply.antt =====
-- The use case `ApplyNetwork` of src/sdn_controller/core/use_cases/reconcile.py: its lock, its
-- operation, and the phases that plan, run and verify. A task that runs alone, whose repositories do
-- not fail.
pub mod Tasks
pub mod Setting
pub mod Phases
pub mod Steps
pub mod Stages
pub mod Conclusions
pub mod Outcomes
pub mod Quiet
pub mod Observation
pub mod Planned
pub mod Verified
pub mod Compliance
pub mod Exclusion
use nervum.Prelude.{
  ℕ, String, Bool, true, false, not, Option, none, some, List, [], ◌∷◌, ◌++◌, map, filter, length,
  Dict, decimal, lookup, insert, if◌then◌else◌, ◌+++◌, is_empty, ◌+◌,
}
use nervum.Errors.{DomainError, Result, ok, err}
use nervum.Operation.{
  Operation, OperationStatus, OperationEvent, OperationError, planning, running, verifying,
  succeeded, failed, accept, network_apply, transition_to, log,
}
use nervum.Node.{Node}
use nervum.Network.{Network}
use nervum.Locks.{Held, try_lock, release, current_owner}
use nervum.Ovs.Dumps.{OvsState}
use nervum.Agent.{Plan, PlanResult, PlanStepResult}
use nervum.Planning.{NodeAddress, is_in_compliance}
use nervum.Planning.Observed.{ObservedState, state_view_to_observed}
use nervum.Planning.Planner.{PerNodePlan, plan_for_network}
use nervum.Apply.Tasks.{
  Raised, domain_error, unexpected, Outcome, returned, raised, Task, pure, raise, ◌>>=◌, ◌>>◌,
}
use nervum.Apply.Setting.{
  AgentPort, Texts, Published, World, Applying, Services, code_of, an_error, apply_failed,
  already_running, verify_failed, missing_node, wrap_unexpected,
}
use nervum.Apply.Phases.{move, phases}

abbrev pub lock_key : String → String
lock_key network_id = "network:apply:" +++ network_id

-- `_APPLY_LOCK_TTL_SECONDS`
abbrev pub apply_lock_ttl_seconds : ℕ
apply_lock_ttl_seconds = 300

-- The event that `_publish_apply_result` makes.
abbrev pub applied_event : Network → Bool → ℕ → Operation → Published
applied_event network converged node_count op = record {
  event_type = if converged then "network.applied" else "network.apply_failed";
  resource_id = network.id;
  name = network.name;
  intent_version = network.intent_version;
  spec_hash = network.spec_hash;
  operation_id = op.id;
  node_count = node_count;
  ok = converged;
}

module _ {Agents : Type 0} (self : Services Agents) where
  abbrev Step {ℓ} : Type ℓ → Type ℓ
  Step = Task (Applying Agents)

  -- `_fail`
  unfoldable pub fail : OperationError → Step (Unit {0})
  fail error = move self failed error.message (some error)

  -- `await self._operations.save(operation)`, then `_publish_apply_result`
  unfoldable pub save_and_publish : Network → Bool → ℕ → Step (Unit {0})
  save_and_publish network converged node_count s =
      let w = s.world in
      let op = s.operation in
      (
        returned tt,
        record s {
          world = record w {
            operations = insert op.id op w.operations;
            outbox = w.outbox ++ applied_event network converged node_count op ∷ [];
            ticks = w.ticks + 1;
          };
        },
      )

  abbrev pub succeed : Network → ℕ → Step (Unit {0})
  succeed network node_count =
      move self succeeded
        ("network "
          +++ self.texts.repr network.name
          +++ " converged on "
          +++ decimal node_count
          +++ " node(s)")
        none

  -- What the `try` statement does with the outcome of the phases.
  unfoldable pub conclude : Network → Outcome ℕ → Step (Unit {0})
  conclude network (returned node_count) = do
    succeed network node_count
    save_and_publish network true node_count
  conclude network (raised (domain_error error)) = do fail error; save_and_publish network false 0
  conclude network (raised (unexpected text)) = do
    fail (wrap_unexpected text)
    save_and_publish network false 0
    raise (unexpected text)

  abbrev pub attempt : Network → Step (Unit {0})
  attempt network s = let (outcome, after) = phases self network s in conclude network outcome after

  abbrev pub result_of :
      Network → Outcome (Unit {0}) × Applying Agents → Outcome (Network × Operation) × World Agents
  result_of network (returned _, s) = (returned (network, s.operation), s.world)
  result_of network (raised e, s) = (raised e, s.world)

  -- `finally: await self._locks.release(lock_key, owner=operation_id)`
  abbrev pub releasing :
      String
      → String
      → Outcome (Network × Operation) × World Agents
      → Outcome (Network × Operation) × World Agents
  releasing key owner (outcome, w) = (outcome, record w { held = release key owner w.held })

  abbrev pub accepted_operation : Network → String → String → Option String → ℕ → Operation
  accepted_operation network network_id operation_id requested_by at =
      accept operation_id network_apply (record { type = "network"; id = network_id }) at
        requested_by
        ("apply network "
          +++ self.texts.repr network.name
          +++ " (intent_version="
          +++ decimal network.intent_version
          +++ ")")

  -- What follows the call of `try_lock`.
  unfoldable pub when_acquired :
      Network
      → String
      → String
      → Option String
      → Bool
      → World Agents
      → Outcome (Network × Operation) × World Agents
  when_acquired network network_id operation_id requested_by false w =
      let holder = current_owner (self.clock w.ticks) (lock_key network_id) w.held in
      (raised (already_running self.texts network_id holder), record w { ticks = w.ticks + 1 })
  when_acquired network network_id operation_id requested_by true w =
      let op =
        accepted_operation network network_id operation_id requested_by (self.clock w.ticks) in
      releasing (lock_key network_id) operation_id (
        result_of network
          (attempt network (record { world = record w { ticks = w.ticks + 1 }; operation = op })))

  abbrev pub apply_found :
      Option Network
      → String
      → Option String
      → World Agents
      → Outcome (Network × Operation) × World Agents
  apply_found none network_id requested_by w =
      (raised (an_error "not_found" ("network " +++ network_id +++ " not found") []), w)
  apply_found (some network) network_id requested_by w =
      let operation_id = self.new_id w.next_id in
      let (held, acquired) =
        try_lock (self.clock w.ticks) (lock_key network_id) operation_id apply_lock_ttl_seconds
          w.held in
      when_acquired network network_id operation_id requested_by acquired
        (record w { held = held; ticks = w.ticks + 1; next_id = w.next_id + 1 })

  -- `_execute_in_span`
  unfoldable pub apply_network :
      String → Option String → World Agents → Outcome (Network × Operation) × World Agents
  apply_network network_id requested_by w =
      apply_found (lookup network_id w.networks) network_id requested_by w
