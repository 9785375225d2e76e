-- ===== src/Planning/Fanout.antt =====
-- The plans of a network and its nodes (src/sdn_controller/core/services/planner.py).
use nervum.Prelude.{
  ◌≡◌, ◌≢◌, refl, sym, ap, subst, ℕ, suc, String, true, Option, none, some, List, [], ◌∷◌, All, Any,
  Dict, lookup, is_some, inl, inr, Bool, false, ◌&&◌, map, filter, if◌then◌else◌,
}
use nervum.Node.{Node}
use nervum.Network.{Network}
use nervum.Agent.{PlanStep}
use nervum.Planning.{NodeAddress, diff_for_node}
use nervum.Planning.Observed.{ObservedState}
use nervum.Planning.Planner.{
  PerNodePlan, or_observed, peers_of, with_plan, for_node, plans_for, plan_for_network,
}

module _ (new_id : ℕ → String) (network : Network) (nodes : Dict Node)
    (observed : Dict ObservedState) (peers : List NodeAddress) where
  abbrev pub diff_of : String → List PlanStep
  diff_of nid = diff_for_node network nid peers (or_observed (lookup nid observed) nid)

  -- A plan is for a known node, and holds its diff, which is not empty.
  abbrev pub IsPlan : PerNodePlan → Type 0
  IsPlan p =
      (is_some (lookup p.node_id nodes) ≡ true)
      × (p.plan.steps ≡ diff_of p.node_id)
      × (p.plan.steps ≢ [])

  with_plan_sound :
      (nid : String) (steps : List PlanStep) (rest : ℕ → List PerNodePlan) (next : ℕ)
      → is_some (lookup nid nodes) ≡ true
      → steps ≡ diff_of nid
      → ((n : ℕ) → All IsPlan (rest n))
      → All IsPlan (with_plan new_id nid steps rest next)
  with_plan_sound nid [] rest next known e all = all next
  with_plan_sound nid (s ∷ steps) rest next known e all = ((known, e, λ q. cc q), all (suc next))

  with_plan_complete :
      (nid : String) (steps : List PlanStep) (rest : ℕ → List PerNodePlan) (next : ℕ)
      → steps ≢ []
      → Any (λ p. (p.node_id ≡ nid) × (p.plan.steps ≡ steps)) (with_plan new_id nid steps rest next)
  with_plan_complete nid [] rest next ne = absurd (ne refl)
  with_plan_complete nid (s ∷ steps) rest next ne = inl (refl, refl)

  with_plan_later :
      (P : PerNodePlan → Type 0) (nid : String) (steps : List PlanStep)
      (rest : ℕ → List PerNodePlan) (next : ℕ)
      → ((n : ℕ) → Any P (rest n))
      → Any P (with_plan new_id nid steps rest next)
  with_plan_later P nid [] rest next each = each next
  with_plan_later P nid (s ∷ steps) rest next each = inr (each (suc next))

  for_node_sound :
      (o : Option Node) (nid : String) (rest : ℕ → List PerNodePlan) (next : ℕ)
      → lookup nid nodes ≡ o
      → ((n : ℕ) → All IsPlan (rest n))
      → All IsPlan (for_node o new_id nid (diff_of nid) rest next)
  for_node_sound none nid rest next e all = all next
  for_node_sound (some n) nid rest next e all =
      with_plan_sound nid (diff_of nid) rest next (ap is_some e) refl all

  plans_for_sound :
      (nids : List String) (next : ℕ)
      → All IsPlan (plans_for new_id network nodes observed peers nids next)
  unfolding plans_for
  plans_for_sound [] next = tt
  plans_for_sound (nid ∷ nids) next =
      for_node_sound (lookup nid nodes) nid _ next refl (plans_for_sound nids)

  -- A plan with the diff of the node.
  abbrev pub IsFor : String → PerNodePlan → Type 0
  IsFor nid p = (p.node_id ≡ nid) × (p.plan.steps ≡ diff_of nid)

  for_node_complete :
      (o : Option Node) (nid : String) (rest : ℕ → List PerNodePlan) (next : ℕ)
      → is_some o ≡ true
      → diff_of nid ≢ []
      → Any (IsFor nid) (for_node o new_id nid (diff_of nid) rest next)
  for_node_complete none nid rest next known ne = cc known
  for_node_complete (some n) nid rest next known ne =
      with_plan_complete nid (diff_of nid) rest next ne

  for_node_later :
      (P : PerNodePlan → Type 0) (o : Option Node) (nid : String) (rest : ℕ → List PerNodePlan)
      (next : ℕ)
      → ((n : ℕ) → Any P (rest n))
      → Any P (for_node o new_id nid (diff_of nid) rest next)
  for_node_later P none nid rest next each = each next
  for_node_later P (some n) nid rest next each = with_plan_later P nid (diff_of nid) rest next each

  plans_for_complete :
      (nids : List String) (next : ℕ) (nid : String)
      → Any (λ x. x ≡ nid) nids
      → is_some (lookup nid nodes) ≡ true
      → diff_of nid ≢ []
      → Any (IsFor nid) (plans_for new_id network nodes observed peers nids next)
  unfolding plans_for
  plans_for_complete [] next nid m known ne = absurd m
  plans_for_complete (x ∷ nids) next nid (inl same) known ne =
      subst
        (λ y. Any (IsFor nid) (
          for_node (lookup y nodes) new_id y (diff_of y)
            (plans_for new_id network nodes observed peers nids) next))
        (sym same) (for_node_complete (lookup nid nodes) nid _ next known ne)
  plans_for_complete (x ∷ nids) next nid (inr m) known ne =
      for_node_later (IsFor nid) (lookup x nodes) x _ next
        (λ k. plans_for_complete nids k nid m known ne)

  abbrev has_steps : List PlanStep → Bool
  has_steps [] = false
  has_steps (_ ∷ _) = true

  -- The node is known and its diff is not empty.
  abbrev pub is_planned : String → Bool
  is_planned nid = is_some (lookup nid nodes) && has_steps (diff_of nid)

  -- The next ids, one for each plan.
  abbrev pub next_ids : List PerNodePlan → ℕ → List String
  next_ids [] next = []
  next_ids (_ ∷ plans) next = new_id next ∷ next_ids plans (suc next)

  for_node_ids :
      (o : Option Node) (nid : String) (steps : List PlanStep) (rest : ℕ → List PerNodePlan)
      (next : ℕ) (nids : List String)
      → ((n : ℕ) → map (λ p. p.node_id) (rest n) ≡ nids)
      → map (λ p. p.node_id) (for_node o new_id nid steps rest next)
        ≡ (if is_some o && has_steps steps then nid ∷ nids else nids)
  for_node_ids none nid steps rest next nids each = each next
  for_node_ids (some n) nid [] rest next nids each = each next
  for_node_ids (some n) nid (s ∷ steps) rest next nids each = ap (λ xs. nid ∷ xs) (each (suc next))

  plans_for_nodes :
      (nids : List String) (next : ℕ)
      → map (λ p. p.node_id) (plans_for new_id network nodes observed peers nids next)
        ≡ filter is_planned nids
  unfolding plans_for
  plans_for_nodes [] next = refl
  plans_for_nodes (nid ∷ nids) next =
      for_node_ids (lookup nid nodes) nid (diff_of nid) _ next (filter is_planned nids)
        (plans_for_nodes nids)

  for_node_next :
      (o : Option Node) (nid : String) (steps : List PlanStep) (rest : ℕ → List PerNodePlan)
      (next : ℕ)
      → ((n : ℕ) → map (λ p. p.plan.plan_id) (rest n) ≡ next_ids (rest n) n)
      → map (λ p. p.plan.plan_id) (for_node o new_id nid steps rest next)
        ≡ next_ids (for_node o new_id nid steps rest next) next
  for_node_next none nid steps rest next each = each next
  for_node_next (some n) nid [] rest next each = each next
  for_node_next (some n) nid (s ∷ steps) rest next each =
      ap (λ xs. new_id next ∷ xs) (each (suc next))

  plans_for_next :
      (nids : List String) (next : ℕ)
      → map (λ p. p.plan.plan_id) (plans_for new_id network nodes observed peers nids next)
        ≡ next_ids (plans_for new_id network nodes observed peers nids next) next
  unfolding plans_for
  plans_for_next [] next = refl
  plans_for_next (nid ∷ nids) next =
      for_node_next (lookup nid nodes) nid (diff_of nid) _ next (plans_for_next nids)

module _ (new_id : ℕ → String) (network : Network) (nodes : Dict Node)
    (observed : Dict ObservedState) (next : ℕ) where
  -- Every plan of a network is for a known node and holds that node's diff, which is not empty; a
  -- node that was not observed counts as one without bridges.
  plan_for_network_sound :
      All
        (IsPlan new_id network nodes observed (peers_of nodes network.node_ids))
        (plan_for_network new_id network nodes observed next)
  unfolding plan_for_network
  plan_for_network_sound =
      plans_for_sound new_id network nodes observed (peers_of nodes network.node_ids)
        network.node_ids next

  -- A known node of the network whose diff is not empty has a plan with that diff.
  pub plan_for_network_complete :
      (nid : String)
      → Any (λ x. x ≡ nid) network.node_ids
      → is_some (lookup nid nodes) ≡ true
      → diff_of new_id network nodes observed (peers_of nodes network.node_ids) nid ≢ []
      → Any
          (IsFor new_id network nodes observed (peers_of nodes network.node_ids) nid)
          (plan_for_network new_id network nodes observed next)
  unfolding plan_for_network
  plan_for_network_complete nid m known ne =
      plans_for_complete new_id network nodes observed (peers_of nodes network.node_ids)
        network.node_ids next nid m known ne

  -- The nodes of a network's plans are, in their order, exactly the entries of its `node_ids` that
  -- are known and whose diff is not empty, so that a node listed once is planned once; a plan holds
  -- the diff of its node; and the plans take the ids of the sequence one after the other. A node
  -- that was not observed counts as one without bridges, and a node in maintenance is planned like
  -- any other.
  pub plan_for_network_exact :
      let peers = peers_of nodes network.node_ids in
      let plans = plan_for_network new_id network nodes observed next in
      (map (λ p. p.node_id) plans
        ≡ filter (is_planned new_id network nodes observed peers) network.node_ids)
      × (map (λ p. p.plan.plan_id) plans ≡ next_ids new_id network nodes observed peers plans next)
      × All (IsPlan new_id network nodes observed peers) plans
  unfolding plan_for_network
  plan_for_network_exact =
      let peers = peers_of nodes network.node_ids in
      (
        plans_for_nodes new_id network nodes observed peers network.node_ids next,
        plans_for_next new_id network nodes observed peers network.node_ids next,
        plan_for_network_sound,
      )
