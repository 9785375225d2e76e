-- ===== src/Planning/Planner.antt =====
-- A plan for every node of a network: src/sdn_controller/core/services/planner.py. The ids of new
-- operations are a sequence, of which a plan takes the next one.
use nervum.Prelude.{ℕ, suc, String, Option, none, some, List, [], ◌∷◌, Dict, lookup}
use nervum.Node.{Node}
use nervum.Network.{Network}
use nervum.Agent.{Plan, PlanStep}
use nervum.Planning.{NodeAddress, diff_for_node}
use nervum.Planning.Observed.{ObservedState}

pub record PerNodePlan : Type 0 where
  pub node_id : String
  pub plan : Plan

abbrev pub empty_observed : String → ObservedState
empty_observed node_id = record {
  node_id = node_id;
  observed_at = 0;
  state_hash = "";
  bridges = [];
}

abbrev pub or_observed : Option ObservedState → String → ObservedState
or_observed none node_id = empty_observed node_id
or_observed (some o) node_id = o

-- `peers`: the addresses of the network's nodes that are known
unfoldable pub peers_of : Dict Node → List String → List NodeAddress
peers_of nodes [] = []
peers_of nodes (nid ∷ nids) =
    let rest = peers_of nodes nids in
    elim (lookup nid nodes) [
      | none ↦ rest
      | some n ↦ record { node_id = nid; mgmt_ip = n.mgmt_ip } ∷ rest
    ]

-- `if not steps: continue`
abbrev pub with_plan :
    (ℕ → String) → String → List PlanStep → (ℕ → List PerNodePlan) → ℕ → List PerNodePlan
with_plan new_id nid [] rest next = rest next
with_plan new_id nid (s ∷ steps) rest next =
    record { node_id = nid; plan = record { plan_id = new_id next; steps = s ∷ steps } }
    ∷ rest (suc next)

-- `if node_id not in nodes: continue`
abbrev pub for_node :
    Option Node
    → (ℕ → String)
    → String
    → List PlanStep
    → (ℕ → List PerNodePlan)
    → ℕ
    → List PerNodePlan
for_node none new_id nid steps rest next = rest next
for_node (some _) new_id nid steps rest next = with_plan new_id nid steps rest next

module _ (new_id : ℕ → String) (network : Network) (nodes : Dict Node) where
  -- The loop over the nodes of the network; `next` is the number of the next operation id.
  unfoldable pub plans_for :
      Dict ObservedState → List NodeAddress → List String → ℕ → List PerNodePlan
  plans_for observed peers [] next = []
  plans_for observed peers (nid ∷ nids) next =
      let rest = plans_for observed peers nids in
      let steps = diff_for_node network nid peers (or_observed (lookup nid observed) nid) in
      for_node (lookup nid nodes) new_id nid steps rest next

  unfoldable pub plan_for_network : Dict ObservedState → ℕ → List PerNodePlan
  plan_for_network observed next =
      plans_for observed (peers_of nodes network.node_ids) network.node_ids next
