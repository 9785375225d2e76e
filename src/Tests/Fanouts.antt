-- ===== src/Tests/Fanouts.antt =====
-- The plans of a small network (src/sdn_controller/core/services/planner.py).
use nervum.Prelude.{
  filter, map, ◌≡◌, refl, ℕ, String, false, none, some, [], ◌∷◌, All, Dict, decimal, ◌+++◌,
}
use nervum.Node.{Node, NodeStatus}
use nervum.Network.{Network, vlan}
use nervum.Planning.{diff_for_node, bridge_steps}
use nervum.Planning.Observed.{ObservedState, find_bridge}
use nervum.Planning.Planner.{plans_for, plan_for_network, peers_of}
use nervum.Planning.Fanout.{next_ids, is_planned, IsPlan, plan_for_network_exact}

abbrev node_at : String → String → Node
node_at id mgmt_ip = record {
  id = id;
  name = id;
  mgmt_ip = mgmt_ip;
  created_at = 0;
  updated_at = 0;
  status = NodeStatus.online;
  roles = [];
  labels = [];
  agent_version = none;
  last_seen_at = some 5;
  capabilities = none;
  tls_thumbprint = none;
  project_id = none;
  maintenance = false;
  maintenance_at = none;
}

abbrev known : Dict Node
known = ("node_a", node_at "node_a" "10.0.0.1") ∷ ("node_b", node_at "node_b" "10.0.0.2") ∷ []

-- One of its three nodes is not known.
abbrev narrow : Network
narrow = record {
  id = "net_2";
  name = "green";
  type = vlan;
  created_at = 0;
  updated_at = 0;
  mtu = 1500;
  vlan_id = some 12;
  vni = none;
  subnet = none;
  intent_version = 1;
  labels = [];
  node_ids = "node_a" ∷ "node_x" ∷ "node_b" ∷ [];
  nat = none;
  firewall_policy = none;
  spec_hash = "";
  project_id = none;
}

abbrev unseen : Dict ObservedState
unseen = []

abbrev number : ℕ → String
number n = "op_" +++ decimal n

plan_for_network_exact_example :
    let peers = peers_of known narrow.node_ids in
    let plans = plan_for_network number narrow known unseen 1 in
    (map (λ p. p.node_id) plans
      ≡ filter (is_planned number narrow known unseen peers) narrow.node_ids)
    × (map (λ p. p.plan.plan_id) plans ≡ next_ids number narrow known unseen peers plans 1)
    × All (IsPlan number narrow known unseen peers) plans
plan_for_network_exact_example = plan_for_network_exact number narrow known unseen 1

-- The node that is not known is left out.
planned_nodes :
    map (λ p. p.node_id) (plan_for_network number narrow known unseen 1) ≡ "node_a" ∷ "node_b" ∷ []
unfolding plan_for_network plans_for diff_for_node bridge_steps find_bridge
planned_nodes = refl
