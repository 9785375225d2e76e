-- ===== src/Inventory.antt =====
-- The use cases that register nodes and record the intent of networks, over the in-memory
-- repositories: src/sdn_controller/core/use_cases/networks.py and nodes.py. A call returns the new
-- inventory, or it raises before it saved anything. The clock's readings in turn and the new
-- identifiers are arguments; an event is told by its type and its resource.
pub mod Networks
pub mod Nodes
pub mod Recorded
pub mod Distinct
pub mod Revisions
pub mod Catalog
pub mod Upkeep
pub mod Calls
use nervum.Prelude.{ℕ, ◌+◌, String, Option, none, some, List, [], ◌∷◌, ◌++◌, ◌+++◌, Dict, insert}
use nervum.Errors.{Result, ok, err, ◌>>=◌}
use nervum.Operation.{
  Operation, OperationStatus, OperationKind, planning, running, verifying, succeeded, accept,
  transition_to,
}
use nervum.Node.{Node}
use nervum.Network.{Network}

pub record Event : Type 0 where
  pub event_type : String
  pub resource_type : String
  pub resource_id : String

pub record Inventory : Type 0 where
  pub networks : Dict Network
  pub nodes : Dict Node
  pub operations : Dict Operation
  pub outbox : List Event

-- The transitions of the loop over statuses and messages, with the readings of the clock from the
-- `k`-th on.
unfoldable pub walk : (ℕ → ℕ) → ℕ → List (OperationStatus × String) → Operation → Result Operation
walk clock k [] op = ok op
walk clock k ((status, message) ∷ stages) op = do
  moved ← transition_to status (clock k) message none none op
  walk clock (k + 1) stages moved.0

-- `Operation.accept(…)`, then the loop: its four messages are the arguments.
unfoldable pub record_operation :
    (ℕ → ℕ)
    → String
    → OperationKind
    → String
    → String
    → Option String
    → String
    → List (OperationStatus × String)
    → Result Operation
unfolding walk
record_operation clock operation_id kind type id by message stages =
    walk clock 1 stages
      (accept operation_id kind (record { type = type; id = id }) (clock 0) by message)

-- `{text!r}`, for a text without quotes, backslashes and unprintable characters
abbrev pub quoted : String → String
quoted text = "'" +++ text +++ "'"

-- `{texts}`, for such texts in a list
abbrev quoted_items : List String → String
quoted_items [] = ""
quoted_items (text ∷ []) = quoted text
quoted_items (text ∷ other ∷ texts) = quoted text +++ ", " +++ quoted_items (other ∷ texts)

abbrev pub quoted_list : List String → String
quoted_list texts = "[" +++ quoted_items texts +++ "]"

abbrev pub stages_of : String → String → String → String → List (OperationStatus × String)
stages_of plan run verify done =
    (planning, plan) ∷ ((running, run) ∷ ((verifying, verify) ∷ ((succeeded, done) ∷ [])))

abbrev pub save_network : Network → Inventory → Inventory
save_network n inv = record inv { networks = insert n.id n inv.networks }

abbrev pub save_operation : Operation → Inventory → Inventory
save_operation op inv = record inv { operations = insert op.id op inv.operations }

abbrev pub publish : String → String → String → Inventory → Inventory
publish event_type resource_type resource_id inv = record inv {
  outbox =
      inv.outbox
      ++ record {
        event_type = event_type;
        resource_type = resource_type;
        resource_id = resource_id;
      }
        ∷ [];
}
