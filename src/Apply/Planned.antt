-- ===== src/Apply/Planned.antt =====
-- The planning phase of an apply leaves no node out (src/sdn_controller/core/use_cases/reconcile.py,
-- `_plan`).
use nervum.Prelude.{
  ℕ, String, true, some, List, [], ◌∷◌, ◌≡◌, ◌≢◌, refl, arith, Dict, ◌⊎◌, inl, inr, lookup, Any,
  is_some, ap, ◌∙◌, sym, subst,
}
use nervum.Node.{Node}
use nervum.Network.{Network}
use nervum.Planning.{NodeAddress, diff_for_node, is_in_compliance}
use nervum.Planning.Observed.{ObservedState}
use nervum.Planning.Planner.{PerNodePlan, peers_of, or_observed, plan_for_network}
use nervum.Planning.Fanout.{plan_for_network_complete, IsFor}
use nervum.Apply.Tasks.{consequence, Anything, Triple, >>=-Triple, >>-Triple}
use nervum.Apply.Setting.{Services}
use nervum.Apply.Phases.{make_plans, plan_nodes, plan_phase}
use nervum.Apply.Quiet.{Sees, move-Quiet, note-Quiet}
use nervum.Apply.Observation.{Knows, Seen, observe_nodes-Triple}

-- Dicts that agree on the nodes give the same peers.
peers_of_agree :
    (seen nodes : Dict Node) (nids : List String)
    → ((x : String) → Any (λ y. y ≡ x) nids → lookup x seen ≡ lookup x nodes)
    → peers_of seen nids ≡ peers_of nodes nids
unfolding peers_of
peers_of_agree seen nodes [] same = refl
peers_of_agree seen nodes (nid ∷ nids) same =
    ground (arith, same nid (inl refl), peers_of_agree seen nodes nids (λ x m. same x (inr m)))

empty_or_not : {A : Type 0} (xs : List A) → (xs ≡ []) ⊎ (xs ≢ [])
empty_or_not [] = inl refl
empty_or_not (x ∷ xs) = inr (λ e. cc e)

Any-weaken :
    {A : Type 0} (P Q : A → Type 0) (xs : List A) → ((x : A) → P x → Q x) → Any P xs → Any Q xs
Any-weaken P Q [] f m = m
Any-weaken P Q (x ∷ xs) f (inl p) = inl (f x p)
Any-weaken P Q (x ∷ xs) f (inr m) = inr (Any-weaken P Q xs f m)

module _ {Agents : Type 0} (self : Services Agents) (nodes : Dict Node) (network : Network) where
  abbrev pub InNetwork : String → Type 0
  InNetwork nid = Any (λ y. y ≡ nid) network.node_ids

  -- The observed state that is saved for the node is in compliance with the network.
  abbrev pub Complies : Dict ObservedState → String → Type 0
  Complies saved nid =
      (o : ObservedState) × (lookup nid saved ≡ some o)
      × (is_in_compliance network nid (peers_of nodes network.node_ids) o ≡ true)

  abbrev pub IsPlanned : List PerNodePlan → String → Type 0
  IsPlanned plans nid = Any (λ p. p.node_id ≡ nid) plans

  -- Each node of the network complies or has one of the plans.
  abbrev pub Covered : List PerNodePlan → Dict Node → Dict ObservedState → Type 0
  Covered plans at saved =
      (at ≡ nodes) × ((nid : String) → InNetwork nid → Complies saved nid ⊎ IsPlanned plans nid)

  settled_complies :
      (nid : String) (peers : List NodeAddress) (o : ObservedState)
      → diff_for_node network nid peers o ≡ []
      → is_in_compliance network nid peers o ≡ true
  unfolding is_in_compliance
  settled_complies nid peers o e = rw e refl

  covered_by :
      (seen : Dict Node) (observed saved : Dict ObservedState) (next : ℕ)
      → ((x : String) → InNetwork x → Knows self nodes seen observed saved x)
      → (nid : String) → InNetwork nid
      → Complies saved nid ⊎ IsPlanned (plan_for_network self.new_id network seen observed next) nid
  covered_by seen observed saved next each nid m =
      let (node, o, known, found, kept, stored) = each nid m in
      let peers = peers_of nodes network.node_ids in
      let same : peers_of seen network.node_ids ≡ peers =
        peers_of_agree seen nodes network.node_ids
          (λ x k. let (n, p, a, b, c, d) = each x k in b ∙ sym a) in
      let planned : diff_for_node network nid (peers_of seen network.node_ids)
            (or_observed (lookup nid observed) nid)
          ≡ diff_for_node network nid peers o =
        rw (same, kept) refl in
      elim (empty_or_not (diff_for_node network nid peers o)) [
        | inl none_asked ↦ inl (o, stored, settled_complies nid peers o none_asked)
        | inr asked ↦ inr (
            Any-weaken
              (IsFor self.new_id network seen observed (peers_of seen network.node_ids) nid)
              (λ p. p.node_id ≡ nid) (plan_for_network self.new_id network seen observed next)
              (λ p h. h.0)
              (plan_for_network_complete self.new_id network seen observed next nid m
                (ap is_some found) (λ e. asked (sym planned ∙ e))))
      ]

  make_plans-Triple :
      (seen : Dict Node) (observed : Dict ObservedState)
      → Triple
          (Seen self nodes InNetwork seen observed)
          (make_plans self network seen observed)
          (λ plans. Sees self (Covered plans))
          Anything
  unfolding make_plans
  make_plans-Triple seen observed = record {
    ends = λ s h. (h.0, covered_by seen observed s.world.observed s.world.next_id h.1);
  }

  plan_nodes-Triple :
      (nids : List String)
      → network.node_ids ≡ nids
      → Triple
          (λ s. s.world.nodes ≡ nodes)
          (plan_nodes self network nids)
          (λ plans. Sees self (Covered plans))
          Anything
  unfolding plan_nodes
  plan_nodes-Triple [] e = record {
    ends = λ s h. (h, λ nid m. absurd (subst (Any (λ y. y ≡ nid)) e m));
  }
  plan_nodes-Triple (nid ∷ nids) e =
      >>=-Triple
        (consequence (λ s h. (h, λ x none_yet. absurd none_yet))
          (λ r s h. (h.0, λ x m. h.1 x (inr (subst (Any (λ y. y ≡ x)) e m)))) (λ s h. h)
          (observe_nodes-Triple self nodes (λ x. ⊥) network (nid ∷ nids) [] []))
        (λ seen.
          >>=-Triple (make_plans-Triple seen.0 seen.1)
            (λ plans. >>-Triple (note-Quiet self (Covered plans) _ _) (record { ends = λ s h. h })))

  pub plan_phase-Triple :
      Triple
        (λ s. s.world.nodes ≡ nodes)
        (plan_phase self network)
        (λ plans. Sees self (Covered plans))
        Anything
  unfolding plan_phase
  plan_phase-Triple =
      >>-Triple (move-Quiet self (λ at _. at ≡ nodes) _ _ _)
        (plan_nodes-Triple network.node_ids refl)
