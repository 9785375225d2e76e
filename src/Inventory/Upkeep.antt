-- ===== src/Inventory/Upkeep.antt =====
-- Every network use case leaves a catalog (src/sdn_controller/core/use_cases/networks.py).
use nervum.Prelude.{
  if◌then◌else◌, strs_eq, decimal, is_empty, is_blank, ◌||◌, ◌+++◌, ℕ, ◌∙◌, String, Bool, true,
  false, any, values, lookup, strip,
}
use nervum.Errors.{
  Yields, >>=-Yields, raise_if-Yields, ok-Yields, or_raise, for_each, not_found, validation_error,
  Result, conflict,
}
use nervum.Operation.{Operation, network_create, network_update}
use nervum.Address.{IpSyntax}
use nervum.Network.{post_init, Network, Canonical}
use nervum.Network.Intent.{post_init-IsValid}
use nervum.Inventory.{quoted_list, quoted, Inventory, record_operation, stages_of}
use nervum.Inventory.Recorded.{recorded-IsValid}
use nervum.Inventory.Networks.{
  optional_subnet, draft_network, bumped, publish_if, reassigned, require_node, apply_update,
  CreateNetworkCommand, UpdateNetworkCommand, AssignNodesCommand, create_network, update_network,
  assign_nodes, is_named,
}
use nervum.Inventory.Revisions.{apply_update-IsValid, bumped-IsValid, reassigned-IsValid}
use nervum.Inventory.Catalog.{
  IsCatalog, saved-IsCatalog, published-IsCatalog, post_init-IsSame, fresh_name, found_there,
  own_name,
}

module _ (digest : Canonical → String) (ip : IpSyntax) (clock : ℕ → ℕ) where
  -- A call that returns leaves a catalog.
  abbrev pub Keeps : Result (Network × Operation × Inventory) → Type 0
  Keeps r = Yields (λ s. IsCatalog s.2) r

  published_if-IsCatalog :
      (changed : Bool) (e i : String) (inv : Inventory)
      → IsCatalog inv
      → IsCatalog (publish_if digest ip changed e i inv)
  published_if-IsCatalog false e i inv c = c
  published_if-IsCatalog true e i inv c = published-IsCatalog inv e "network" i c

  pub create_network-IsCatalog :
      (network_id subnet_id operation_id : String) (cmd : CreateNetworkCommand) (inv : Inventory)
      → IsCatalog inv
      → Keeps (create_network digest ip clock network_id subnet_id operation_id cmd inv)
  unfolding create_network
  create_network-IsCatalog network_id subnet_id operation_id cmd inv c =
      raise_if-Yields (is_empty cmd.name || is_blank cmd.name) validation_error _ (λ named.
        raise_if-Yields (any (is_named (strip cmd.name) cmd.project_id) (values inv.networks))
          conflict _
          (λ free. >>=-Yields (optional_subnet ip subnet_id cmd.subnet) _ (λ subnet made.
            >>=-Yields (post_init digest (draft_network cmd network_id subnet (clock 0))) _
              (λ network built.
                >>=-Yields
                  (record_operation clock operation_id network_create "network" network_id
                    cmd.created_by ("create network " +++ quoted network.name)
                    (stages_of "store desired state" "persisting network record"
                      "verifying persisted record" "network created"))
                  _
                  (λ op recorded. ok-Yields _ (
                    published-IsCatalog _ _ _ _ (
                      saved-IsCatalog inv network op c
                        (post_init-IsValid digest (draft_network cmd network_id subnet (clock 0))
                          network built).0
                        (fresh_name inv (strip cmd.name) cmd.project_id network free
                          (post_init-IsSame digest (draft_network cmd network_id subnet (clock 0))
                            network built).1
                          (post_init-IsSame digest (draft_network cmd network_id subnet (clock 0))
                            network built).2)
                        (recorded-IsValid clock _ _ _ _ _ _ _ op recorded))))))))

  pub update_network-IsCatalog :
      (subnet_id operation_id network_id : String) (cmd : UpdateNetworkCommand) (inv : Inventory)
      → IsCatalog inv
      → Keeps (update_network digest ip clock subnet_id operation_id network_id cmd inv)
  unfolding update_network
  update_network-IsCatalog subnet_id operation_id network_id cmd inv c =
      >>=-Yields (or_raise (lookup network_id inv.networks) not_found) _ (λ old found.
        >>=-Yields (apply_update ip subnet_id cmd old) _ (λ r updated.
          >>=-Yields
            (record_operation clock operation_id network_update "network" network_id cmd.updated_by
              ("update network " +++ quoted old.name)
              (stages_of "validating update" "persisting update" "verifying persisted record" (
                if r.0
                then "network updated (intent_version="
                  +++ decimal (bumped digest ip r.0 (clock 0) r.1).intent_version
                  +++ ")"
                else "network unchanged (no-op)")))
            _
            (λ op recorded.
              let there = found_there (lookup network_id inv.networks) not_found old found in
              let entry = c.networks.1 network_id old there in
              let (same, valid) = apply_update-IsValid old ip subnet_id cmd r entry.1 updated in
              let (same', valid') = bumped-IsValid r.1 digest ip r.0 (clock 0) valid in
              ok-Yields _ (
                published_if-IsCatalog _ _ _ _ (
                  saved-IsCatalog inv (bumped digest ip r.0 (clock 0) r.1) op c valid'
                    (own_name inv network_id old (bumped digest ip r.0 (clock 0) r.1) c there
                      (same'.0 ∙ same.0, same'.1 ∙ same.1, same'.2 ∙ same.2))
                    (recorded-IsValid clock _ _ _ _ _ _ _ op recorded))))))

  pub assign_nodes-IsCatalog :
      (operation_id network_id : String) (cmd : AssignNodesCommand) (inv : Inventory)
      → IsCatalog inv
      → Keeps (assign_nodes digest ip clock operation_id network_id cmd inv)
  unfolding assign_nodes
  assign_nodes-IsCatalog operation_id network_id cmd inv c =
      >>=-Yields (or_raise (lookup network_id inv.networks) not_found) _ (λ old found.
        >>=-Yields (for_each (require_node inv.nodes) cmd.node_ids) _ (λ _ known.
          >>=-Yields (reassigned digest ip cmd.node_ids (clock 0) old) _ (λ network set.
            >>=-Yields
              (record_operation clock operation_id network_update "network" network_id
                cmd.updated_by
                ("assign nodes to network "
                  +++ quoted old.name
                  +++ ": "
                  +++ quoted_list cmd.node_ids)
                (stages_of "validating node membership" "persisting node membership"
                  "verifying persisted record"
                  (if strs_eq old.node_ids cmd.node_ids
                    then "membership unchanged"
                    else "membership updated")))
              _
              (λ op recorded.
                let there = found_there (lookup network_id inv.networks) not_found old found in
                let entry = c.networks.1 network_id old there in
                let (same, valid) =
                  reassigned-IsValid old digest ip cmd.node_ids (clock 0) network entry.1 set in
                ok-Yields _ (
                  published_if-IsCatalog _ _ _ _ (
                    saved-IsCatalog inv network op c valid
                      (own_name inv network_id old network c there same)
                      (recorded-IsValid clock _ _ _ _ _ _ _ op recorded)))))))
