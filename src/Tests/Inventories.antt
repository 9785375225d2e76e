-- ===== src/Tests/Inventories.antt =====
-- Networks and nodes in an empty inventory (src/sdn_controller/core/use_cases/networks.py, nodes.py).
use nervum.Prelude.{
  strip, sort_items, insert_item, decimal, ℕ, ◌+◌, ◌≡◌, refl, String, none, some, List, [], ◌∷◌,
  map,
}
use nervum.Network.{
  post_init, validate, set_nodes, bump_intent, canonical, compute_spec_hash, Canonical, vxlan,
}
use nervum.Inventory.{record_operation, walk, Inventory}
use nervum.Inventory.Networks.{
  update_network, assign_nodes, apply_update, CreateNetworkCommand, UpdateNetworkCommand,
  create_network,
}
use nervum.Inventory.Nodes.{remove_node, register_node, get_by_name, RegisterNodeCommand}
use nervum.Inventory.Catalog.{IsCatalog}
use nervum.Inventory.Calls.{
  perform, Call, creating, updating, assigning, registering, removing, run, run-IsCatalog,
}
use nervum.Operation.{transition_to, accept, allowed_transitions}
use nervum.Node as Node
use nervum.Tests.Syntax.{table}

abbrev digest : Canonical → String
digest c = "h"

abbrev bare : Inventory
bare = record { networks = []; nodes = []; operations = []; outbox = [] }

bare-IsCatalog : IsCatalog bare
bare-IsCatalog = record {
  networks = (tt, λ k v h. cc h);
  network_names = λ k j v w h. cc h;
  nodes = (tt, λ k v h. cc h);
  node_names = λ k j v w h. cc h;
  operations = (tt, λ k v h. cc h);
}

abbrev blue : CreateNetworkCommand
blue = record {
  name = " blue ";
  type = vxlan;
  mtu = 1450;
  vlan_id = none;
  vni = some 7;
  project_id = none;
  subnet = none;
  labels = [];
  node_ids = [];
  created_by = none;
}

abbrev leaf : RegisterNodeCommand
leaf = record { name = "leaf"; mgmt_ip = "10.0.0.1"; roles = []; labels = []; created_by = none }

abbrev larger : UpdateNetworkCommand
larger = record {
  mtu = some 9000;
  subnet = none;
  labels = none;
  nat = none;
  firewall_policy = none;
  updated_by = none;
}

-- The clock starts at the given reading.
abbrev from : ℕ → ℕ → ℕ
from now k = now + k

abbrev calls : List ((ℕ → ℕ) × Call)
calls =
    (from 10, creating "n1" "s1" "o1" blue)
    ∷ (from 20, creating "n2" "s2" "o2" blue)
    ∷ (from 30, registering "a" "o3" leaf)
    ∷ (from 40, assigning "o4" "n1" (record { node_ids = "a" ∷ []; updated_by = none }))
    ∷ (from 50, updating "s3" "o5" "n1" larger)
    ∷ (from 60, removing "o6" "a" none)
    ∷ []

abbrev at_the_end : Inventory
at_the_end = run digest table calls bare

-- The second network of that name was refused, and the others were saved.
published :
    map (λ e. e.event_type) at_the_end.outbox
    ≡ "network.created" ∷ "node.registered" ∷ "network.nodes_assigned" ∷ "network.updated"
      ∷ "node.removed" ∷ []
unfolding run create_network perform remove_node update_network assign_nodes register_node
    get_by_name post_init validate strip record_operation transition_to accept Node.post_init
    set_nodes apply_update walk bump_intent canonical compute_spec_hash allowed_transitions
    sort_items insert_item decimal
published = refl

run-IsCatalog_example : IsCatalog at_the_end
run-IsCatalog_example = run-IsCatalog digest table calls bare bare-IsCatalog
