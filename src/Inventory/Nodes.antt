-- ===== src/Inventory/Nodes.antt =====
-- The node use cases: src/sdn_controller/core/use_cases/nodes.py.
use nervum.Prelude.{
  ℕ, String, false, Option, none, List, map, find_value, values, str_eq, Dict, lookup, insert,
  erase, ◌+++◌, is_some,
}
use nervum.Errors.{Result, ok, conflict, not_found, raise_if, or_raise, ◌>>=◌, ◌>>◌}
use nervum.Operation.{Operation, node_enroll, node_remove}
use nervum.Address.{IpSyntax}
use nervum.Node.{Node, pending, post_init, apply_derived_status}
use nervum.Inventory.{quoted, Inventory, record_operation, stages_of, save_operation, publish}

pub record RegisterNodeCommand : Type 0 where
  pub name : String
  pub mgmt_ip : String
  pub roles : List String
  pub labels : Dict String
  pub created_by : Option String

-- The fields of the new node, before `__post_init__`.
abbrev pub draft_node : RegisterNodeCommand → String → ℕ → Node
draft_node cmd node_id now = record {
  id = node_id;
  name = cmd.name;
  mgmt_ip = cmd.mgmt_ip;
  created_at = now;
  updated_at = now;
  status = pending;
  roles = cmd.roles;
  labels = cmd.labels;
  agent_version = none;
  last_seen_at = none;
  capabilities = none;
  tls_thumbprint = none;
  project_id = none;
  maintenance = false;
  maintenance_at = none;
}

-- `InMemoryNodeRepository.get_by_name`
unfoldable pub get_by_name : String → Dict Node → Option Node
get_by_name name = find_value (λ n. str_eq n.name name)

abbrev pub save_node : Node → Inventory → Inventory
save_node n inv = record inv { nodes = insert n.id n inv.nodes }

-- `RegisterNode.execute`
unfoldable pub register_node :
    IpSyntax
    → (ℕ → ℕ)
    → String
    → String
    → RegisterNodeCommand
    → Inventory
    → Result (Node × Operation × Inventory)
register_node ip clock node_id operation_id cmd inv = do
  raise_if (is_some (get_by_name cmd.name inv.nodes)) conflict
  node ← post_init ip (draft_node cmd node_id (clock 0))
  operation ←
      record_operation clock operation_id node_enroll "node" node_id cmd.created_by
        ("register node " +++ quoted cmd.name)
        (stages_of "validating node intent" "persisting node record" "verifying persisted record"
          "node registered (pending agent enrolment)")
  ok (
    node,
    operation,
    publish "node.registered" "node" node.id (save_operation operation (save_node node inv)),
  )

-- `RemoveNode.execute`
unfoldable pub remove_node :
    (ℕ → ℕ) → String → String → Option String → Inventory → Result (Operation × Inventory)
remove_node clock operation_id node_id removed_by inv = do
  node ← or_raise (lookup node_id inv.nodes) not_found
  operation ←
      record_operation clock operation_id node_remove "node" node_id removed_by
        ("remove node " +++ quoted node.name)
        (stages_of "preparing node removal" "deleting node record" "verifying deletion"
          "node removed")
  ok (
    operation,
    publish "node.removed" "node" node_id
        (save_operation operation (record inv { nodes = erase node_id inv.nodes })),
  )

-- `ListNodes.execute` and `GetNode.execute`, with the thresholds of the settings
unfoldable pub list_nodes : ℕ → ℕ → ℕ → Inventory → List Node
list_nodes now stale_after offline_after inv =
    map (λ n. apply_derived_status n now stale_after offline_after) (values inv.nodes)

unfoldable pub get_node : ℕ → ℕ → ℕ → String → Inventory → Result Node
get_node now stale_after offline_after node_id inv = do
  node ← or_raise (lookup node_id inv.nodes) not_found
  ok (apply_derived_status node now stale_after offline_after)
