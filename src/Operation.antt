-- ===== src/Operation.antt =====
-- The `Operation` aggregate: src/sdn_controller/core/entities/operation.py, with the status enum
-- of src/sdn_controller/core/value_objects/enums.py. A method that mutates the aggregate returns
-- the new one; a `datetime` is a number of microseconds.
pub mod Graph
pub mod Events
use nervum.Prelude.{
  ℕ, ◌+◌, String, Bool, true, false, not, ◌&&◌, Option, none, some, List, [], ◌∷◌, ◌++◌, ◌==◌, any,
  length, is_some, Dict, if◌then◌else◌,
}
use nervum.Errors.{Result, ok, err, invalid_state_transition, raise_if, ◌>>=◌, ◌>>◌}

pub data OperationStatus : Type 0 where
  accepted planning running verifying : OperationStatus
  succeeded failed cancelled rolled_back : OperationStatus

pub data OperationKind : Type 0 where
  network_create network_update network_delete network_apply : OperationKind
  node_enroll node_remove drift_scan : OperationKind

-- The place of a status in its enum, by which two members are compared.
abbrev pub status_index : OperationStatus → ℕ
status_index accepted = 0
status_index planning = 1
status_index running = 2
status_index verifying = 3
status_index succeeded = 4
status_index failed = 5
status_index cancelled = 6
status_index rolled_back = 7

-- `s in statuses`
abbrev pub status_in : OperationStatus → List OperationStatus → Bool
status_in s = any (λ t. status_index s == status_index t)

unfoldable pub terminal_operation_states : List OperationStatus
terminal_operation_states = succeeded ∷ failed ∷ cancelled ∷ rolled_back ∷ []

unfoldable pub is_terminal : OperationStatus → Bool
unfolding terminal_operation_states
is_terminal s = status_in s terminal_operation_states

pub record ResourceRef : Type 0 where
  pub type : String
  pub id : String

pub record OperationError : Type 0 where
  pub code : String
  pub message : String
  pub details : Dict String

pub record OperationEvent : Type 0 where
  pub sequence : ℕ
  pub at : ℕ
  pub status : OperationStatus
  pub message : String
  pub payload : Dict String

unfoldable pub allowed_transitions : OperationStatus → List OperationStatus
allowed_transitions accepted = planning ∷ cancelled ∷ failed ∷ []
allowed_transitions planning = running ∷ cancelled ∷ failed ∷ []
allowed_transitions running = verifying ∷ cancelled ∷ failed ∷ rolled_back ∷ []
allowed_transitions verifying = succeeded ∷ failed ∷ rolled_back ∷ []
allowed_transitions succeeded = []
allowed_transitions failed = []
allowed_transitions cancelled = []
allowed_transitions rolled_back = []

pub record Operation : Type 0 where
  pub id : String
  pub kind : OperationKind
  pub resource : ResourceRef
  pub created_at : ℕ
  pub updated_at : ℕ
  pub status : OperationStatus
  pub created_by : Option String
  pub events : List OperationEvent
  pub error : Option OperationError

unfoldable pub accept :
    String → OperationKind → ResourceRef → ℕ → Option String → String → Operation
accept operation_id kind resource now created_by message = record {
  id = operation_id;
  kind = kind;
  resource = resource;
  created_at = now;
  updated_at = now;
  status = accepted;
  created_by = created_by;
  events =
      record { sequence = 1; at = now; status = accepted; message = message; payload = [] } ∷ [];
  error = none;
}

-- `if error is not None: self.error = error`
abbrev or_keep {ℓ} : {A : Type ℓ} → Option A → Option A → Option A
or_keep none old = old
or_keep (some new) old = some new

-- `payload or {}`
abbrev or_empty : Option (Dict String) → Dict String
or_empty none = []
or_empty (some d) = d

unfoldable pub transition_to :
    OperationStatus
    → ℕ
    → String
    → Option (Dict String)
    → Option OperationError
    → Operation
    → Result (Operation × OperationEvent)
unfolding allowed_transitions
transition_to new_status now message payload error op =
    let event : OperationEvent = record {
      sequence = length op.events + 1;
      at = now;
      status = new_status;
      message = message;
      payload = or_empty payload;
    } in
    do
      raise_if (not (status_in new_status (allowed_transitions op.status))) invalid_state_transition
      raise_if (is_some error && not (status_in new_status (failed ∷ rolled_back ∷ [])))
          invalid_state_transition
      ok (
        record op {
          status = new_status;
          updated_at = now;
          error = or_keep error op.error;
          events = op.events ++ event ∷ [];
        },
        event,
      )

unfoldable pub log : ℕ → String → Option (Dict String) → Operation → Operation × OperationEvent
log now message payload op =
    let event : OperationEvent = record {
      sequence = length op.events + 1;
      at = now;
      status = op.status;
      message = message;
      payload = or_empty payload;
    } in
    (record op { updated_at = now; events = op.events ++ event ∷ [] }, event)
