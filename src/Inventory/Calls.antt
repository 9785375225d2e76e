-- ===== src/Inventory/Calls.antt =====
-- Sequences of calls of the use cases, by one client at a time
-- (src/sdn_controller/core/use_cases/networks.py, nodes.py).
use nervum.Prelude.{
  ℕ, ◌≡◌, refl, sym, ◌∙◌, String, Option, List, [], ◌∷◌, lookup, erase, erase-AllEntries,
  insert-AllEntries, is_some, ◌+++◌, arith,
}
use nervum.Errors.{
  Yields, >>=-Yields, raise_if-Yields, ok-Yields, or_raise, not_found, conflict, Result, ok, err,
}
use nervum.Operation.{Operation, node_enroll, node_remove}
use nervum.Operation.Events as Events
use nervum.Address.{IpSyntax}
use nervum.Node as Node
use nervum.Node.{Node}
use nervum.Network.{Canonical}
use nervum.Inventory.{quoted, Inventory, record_operation, stages_of, save_operation}
use nervum.Inventory.Recorded.{recorded-IsValid}
use nervum.Inventory.Networks.{
  CreateNetworkCommand, UpdateNetworkCommand, AssignNodesCommand, create_network, update_network,
  assign_nodes,
}
use nervum.Inventory.Nodes.{
  get_by_name, draft_node, RegisterNodeCommand, register_node, remove_node,
}
use nervum.Inventory.Distinct.{IsUnlike, erase-Distinct}
use nervum.Inventory.Catalog.{
  IsCatalog, IsRecorded, IsNodeEntry, HaveOneName, published-IsCatalog, registered-IsCatalog,
  unlike_node,
}
use nervum.Inventory.Upkeep.{
  create_network-IsCatalog, update_network-IsCatalog, assign_nodes-IsCatalog,
}

post_init_keeps :
    (ip : IpSyntax) (n m : Node) → Node.post_init ip n ≡ ok m → (m.id ≡ n.id) × (m.name ≡ n.name)
unfolding Node.post_init
post_init_keeps ip n m h = ground arith

removed-IsCatalog :
    (inv : Inventory) (node_id : String) (op : Operation)
    → IsCatalog inv
    → Events.IsValid op
    → IsCatalog (save_operation op (record inv { nodes = erase node_id inv.nodes }))
removed-IsCatalog inv node_id op c history = record {
  networks = c.networks;
  network_names = c.network_names;
  nodes = erase-AllEntries IsNodeEntry node_id inv.nodes c.nodes;
  node_names = erase-Distinct HaveOneName node_id inv.nodes c.nodes.0 c.node_names;
  operations = insert-AllEntries IsRecorded op.id op inv.operations (refl, history) c.operations;
}

register_node-IsCatalog :
    (ip : IpSyntax) (clock : ℕ → ℕ) (node_id operation_id : String) (cmd : RegisterNodeCommand)
    (inv : Inventory)
    → IsCatalog inv
    → Yields (λ s. IsCatalog s.2) (register_node ip clock node_id operation_id cmd inv)
unfolding register_node
register_node-IsCatalog ip clock node_id operation_id cmd inv c =
    raise_if-Yields (is_some (get_by_name cmd.name inv.nodes)) conflict _ (λ free.
      >>=-Yields (Node.post_init ip (draft_node cmd node_id (clock 0))) _ (λ node built.
        >>=-Yields
          (record_operation clock operation_id node_enroll "node" node_id cmd.created_by
            ("register node " +++ quoted cmd.name)
            (stages_of "validating node intent" "persisting node record"
              "verifying persisted record" "node registered (pending agent enrolment)"))
          _
          (λ op recorded.
            let (_, named) = post_init_keeps ip (draft_node cmd node_id (clock 0)) node built in
            let unlike : IsUnlike HaveOneName node.id node inv.nodes = λ j w there same.
              absurd (unlike_node cmd.name inv.nodes free j w there (sym same ∙ named)) in
            ok-Yields _ (
              published-IsCatalog _ _ _ _ (
                registered-IsCatalog inv node op c unlike
                  (recorded-IsValid clock _ _ _ _ _ _ _ op recorded))))))

remove_node-IsCatalog :
    (clock : ℕ → ℕ) (operation_id node_id : String) (by : Option String) (inv : Inventory)
    → IsCatalog inv
    → Yields (λ s. IsCatalog s.1) (remove_node clock operation_id node_id by inv)
unfolding remove_node
remove_node-IsCatalog clock operation_id node_id by inv c =
    >>=-Yields (or_raise (lookup node_id inv.nodes) not_found) _ (λ node found.
      >>=-Yields
        (record_operation clock operation_id node_remove "node" node_id by
          ("remove node " +++ quoted node.name)
          (stages_of "preparing node removal" "deleting node record" "verifying deletion"
            "node removed"))
        _
        (λ op recorded. ok-Yields _ (
          published-IsCatalog _ _ _ _ (
            removed-IsCatalog inv node_id op c
              (recorded-IsValid clock _ _ _ _ _ _ _ op recorded)))))

-- A call, with the new identifiers it draws and its readings of the clock.
pub data Call : Type 0 where
  creating : (network_id subnet_id operation_id : String) → CreateNetworkCommand → Call
  updating : (subnet_id operation_id network_id : String) → UpdateNetworkCommand → Call
  assigning : (operation_id network_id : String) → AssignNodesCommand → Call
  registering : (node_id operation_id : String) → RegisterNodeCommand → Call
  removing : (operation_id node_id : String) → Option String → Call

-- What is saved when a call returns or raises.
abbrev pub saved_or {ℓ} : {A : Type ℓ} → (A → Inventory) → Inventory → Result A → Inventory
saved_or of inv (ok a) = of a
saved_or of inv (err e) = inv

saved_or-IsCatalog {ℓ} :
    {A : Type ℓ} (of : A → Inventory) (inv : Inventory) (r : Result A)
    → IsCatalog inv
    → Yields (λ a. IsCatalog (of a)) r
    → IsCatalog (saved_or of inv r)
saved_or-IsCatalog of inv (ok a) c y = y.holds a refl
saved_or-IsCatalog of inv (err e) c y = c

module _ (digest : Canonical → String) (ip : IpSyntax) where
  unfoldable pub perform : (ℕ → ℕ) → Call → Inventory → Inventory
  perform clock (creating n s o cmd) inv =
      saved_or (λ s. s.2) inv (create_network digest ip clock n s o cmd inv)
  perform clock (updating s o n cmd) inv =
      saved_or (λ s. s.2) inv (update_network digest ip clock s o n cmd inv)
  perform clock (assigning o n cmd) inv =
      saved_or (λ s. s.2) inv (assign_nodes digest ip clock o n cmd inv)
  perform clock (registering n o cmd) inv =
      saved_or (λ s. s.2) inv (register_node ip clock n o cmd inv)
  perform clock (removing o n by) inv = saved_or (λ s. s.1) inv (remove_node clock o n by inv)

  unfoldable pub run : List ((ℕ → ℕ) × Call) → Inventory → Inventory
  run [] inv = inv
  run ((clock, call) ∷ calls) inv = run calls (perform clock call inv)

  perform-IsCatalog :
      (clock : ℕ → ℕ) (call : Call) (inv : Inventory)
      → IsCatalog inv
      → IsCatalog (perform clock call inv)
  unfolding perform
  perform-IsCatalog clock (creating n s o cmd) inv c =
      saved_or-IsCatalog _ inv _ c (create_network-IsCatalog digest ip clock n s o cmd inv c)
  perform-IsCatalog clock (updating s o n cmd) inv c =
      saved_or-IsCatalog _ inv _ c (update_network-IsCatalog digest ip clock s o n cmd inv c)
  perform-IsCatalog clock (assigning o n cmd) inv c =
      saved_or-IsCatalog _ inv _ c (assign_nodes-IsCatalog digest ip clock o n cmd inv c)
  perform-IsCatalog clock (registering n o cmd) inv c =
      saved_or-IsCatalog _ inv _ c (register_node-IsCatalog ip clock n o cmd inv c)
  perform-IsCatalog clock (removing o n by) inv c =
      saved_or-IsCatalog _ inv _ c (remove_node-IsCatalog clock o n by inv c)

  -- Whatever sequence of calls clients make one after the other, from an inventory that is a catalog,
  -- and whether they return or raise, they leave a catalog: every network stands under its id and is
  -- valid, no two networks of a project have one name, every node stands under its id, no two nodes
  -- have one name, and every operation stands under its id with a history that follows the diagram.
  pub run-IsCatalog :
      (calls : List ((ℕ → ℕ) × Call)) (inv : Inventory) → IsCatalog inv → IsCatalog (run calls inv)
  unfolding run
  run-IsCatalog [] inv c = c
  run-IsCatalog ((clock, call) ∷ calls) inv c =
      run-IsCatalog calls (perform clock call inv) (perform-IsCatalog clock call inv c)
