-- ===== src/Apply/Setting.antt =====
-- What the use case `ApplyNetwork` of src/sdn_controller/core/use_cases/reconcile.py works on, and the
-- errors that it makes. The agents are behind an interface, and may raise anything at each call.
use nervum.Prelude.{
  ℕ, String, Bool, not, Option, none, some, List, [], ◌∷◌, filter, length, Dict, decimal,
  if◌then◌else◌, ◌+++◌, is_empty,
}
use nervum.Errors.{DomainError}
use nervum.Operation.{Operation, OperationError}
use nervum.Node.{Node}
use nervum.Network.{Network}
use nervum.Locks.{Held}
use nervum.Ovs.Dumps.{OvsState}
use nervum.Agent.{Plan, PlanResult, PlanStepResult}
use nervum.Planning.Observed.{ObservedState}
use nervum.Planning.Planner.{PerNodePlan}
use nervum.Apply.Tasks.{Raised, domain_error, Outcome}

-- `AgentPort`, of which the use case calls two methods; a view is read with its hash.
pub record AgentPort (Agents : Type 0) : Type 0 where
  pub get_state : String → Agents → Outcome (OvsState × String) × Agents
  pub apply_plan : String → Plan → Agents → Outcome PlanResult × Agents

-- How values that are no texts are written in messages and payloads.
pub record Texts : Type 0 where
  pub repr : String → String
  pub optional : Option String → String
  pub flag : Bool → String
  pub plans : List PerNodePlan → String
  pub results : List PlanStepResult → String

-- An event of the outbox.
pub record Published : Type 0 where
  pub event_type : String
  pub resource_id : String
  pub name : String
  pub intent_version : ℕ
  pub spec_hash : String
  pub operation_id : String
  pub node_count : ℕ
  pub ok : Bool

-- What the use case works on: the repositories, the lock store, the outbox and the agents, with the
-- numbers of readings that the clock gave and of operation ids that the factory gave.
pub record World (Agents : Type 0) : Type 0 where
  pub networks : Dict Network
  pub nodes : Dict Node
  pub observed : Dict ObservedState
  pub operations : Dict Operation
  pub held : Held
  pub outbox : List Published
  pub agents : Agents
  pub ticks : ℕ
  pub next_id : ℕ

-- The world, and the operation that the phases mutate.
pub record Applying (Agents : Type 0) : Type 0 where
  pub world : World Agents
  pub operation : Operation

-- The codes of the domain errors.
abbrev pub code_of : DomainError → String
code_of DomainError.validation_error = "validation_error"
code_of DomainError.not_found = "not_found"
code_of DomainError.conflict = "conflict"
code_of DomainError.invalid_state_transition = "invalid_state_transition"
code_of DomainError.unauthorized = "unauthorized"
code_of DomainError.forbidden = "forbidden"
code_of DomainError.rate_limited = "rate_limited"
code_of DomainError.value_error = "internal_error"

abbrev pub an_error : String → String → Dict String → Raised
an_error code message details =
    domain_error (record { code = code; message = message; details = details })

-- `_apply_failed`, `_verify_failed`, `_wrap_unexpected` and `_ApplyAlreadyRunning`
module _ (texts : Texts) where
  abbrev pub apply_failed : String → List PlanStepResult → Raised
  apply_failed node_id steps =
      let failures = filter (λ s. not s.ok) steps in
      an_error "apply_failed"
        ("agent "
          +++ node_id
          +++ " failed "
          +++ decimal (length failures)
          +++ "/"
          +++ decimal (length steps)
          +++ " step(s)")
        (("node_id", node_id) ∷ ("failed_steps", texts.results failures) ∷ [])

  abbrev pub already_running : String → Option String → Raised
  already_running network_id none =
      an_error "apply_already_running"
        ("apply for network " +++ network_id +++ " is already running")
        (("holder_operation_id", texts.optional none) ∷ [])
  already_running network_id (some holder) =
      an_error "apply_already_running"
        ("apply for network " +++ network_id +++ " is already running (operation " +++ holder
          +++ ")")
        (("holder_operation_id", texts.optional (some holder)) ∷ [])

abbrev pub verify_failed : String → Raised
verify_failed node_id =
    an_error "verify_failed"
      ("verification failed for node " +++ node_id +++ ": observed state still drifts")
      (("node_id", node_id) ∷ [])

abbrev pub missing_node : Network → String → Raised
missing_node network node_id =
    an_error "not_found" ("network " +++ network.id +++ " references missing node " +++ node_id) []

abbrev pub wrap_unexpected : String → OperationError
wrap_unexpected text = record {
  code = "internal_error";
  message = if is_empty text then "unexpected error during apply" else text;
  details = [];
}

-- What an `ApplyNetwork` is made with: the agents' port, the clock's readings in turn, and the
-- ids of the factory in turn. The repositories and the lock store are those of the world.
pub record Services (Agents : Type 0) : Type 0 where
  pub agent : AgentPort Agents
  pub texts : Texts
  pub clock : ℕ → ℕ
  pub new_id : ℕ → String
