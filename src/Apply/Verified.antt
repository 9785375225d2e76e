-- ===== src/Apply/Verified.antt =====
-- What an apply that succeeded has verified (src/sdn_controller/core/use_cases/reconcile.py,
-- `_verify`).
use nervum.Prelude.{
  eq_iff, lookup-insert, str_eq, if◌then◌else◌, lookup-insert_self, Bool, Bool-cases, String, true,
  false, not, List, [], ◌∷◌, ◌≡◌, refl, arith, Dict, ◌⊎◌, inl, inr, insert, Any, sym, subst,
}
use nervum.Node.{Node}
use nervum.Network.{Network}
use nervum.Planning.{is_in_compliance}
use nervum.Planning.Observed.{ObservedState}
use nervum.Planning.Planner.{PerNodePlan, peers_of}
use nervum.Apply.Tasks.{
  pure, raise, given, consequence, Anything, Triple, Ends, >>=-Triple, >>-Triple,
}
use nervum.Apply.Setting.{verify_failed, Applying, Services}
use nervum.Apply.Phases.{gather_peers, check_compliance, verify_plans, verify_phase, phases}
use nervum.Apply.Quiet.{Sees, move-Quiet, run_phase-Quiet}
use nervum.Apply.Observation.{Holds, observe_node-Triple, get_node-Triple}
use nervum.Apply.Planned.{InNetwork, IsPlanned, Covered, Complies, plan_phase-Triple}

module _ {Agents : Type 0} (self : Services Agents) (nodes : Dict Node) (network : Network) where
  -- The peers of the verification are those of the plan.
  gather_peers-Triple :
      (nids : List String) (saved : Dict ObservedState)
      → Triple
          (Holds self nodes saved)
          (gather_peers self network nids)
          (λ peers s. Holds self nodes saved s × (peers ≡ peers_of nodes nids))
          Anything
  unfolding gather_peers peers_of
  gather_peers-Triple [] saved = record { ends = λ s h. (h, refl) }
  gather_peers-Triple (nid ∷ nids) saved =
      >>=-Triple (get_node-Triple self nodes network nid saved) (λ node. given (λ known.
        >>=-Triple (gather_peers-Triple nids saved)
          (λ peers. record { ends = λ s h. (h.0, ground (arith, known, h.1)) })))

  Complies-now :
      (p : PerNodePlan) (saved : Dict ObservedState) (o : ObservedState)
      → is_in_compliance network p.node_id (peers_of nodes network.node_ids) o ≡ true
      → (nid : String) → p.node_id ≡ nid
      → Complies self nodes network (insert p.node_id o saved) nid
  Complies-now p saved o fine nid at =
      subst (Complies self nodes network (insert p.node_id o saved)) at
        (o, lookup-insert_self p.node_id o saved, fine)

  -- A round of the verification: the node complies, or the apply fails.
  checked :
      (p : PerNodePlan) (plans : List PerNodePlan) (saved : Dict ObservedState) (o : ObservedState)
      → is_in_compliance network p.node_id (peers_of nodes network.node_ids) o ≡ true
      → ((nid : String)
          → InNetwork self nodes network nid
          → Complies self nodes network saved nid ⊎ IsPlanned self nodes network (p ∷ plans) nid)
      → (nid : String) → InNetwork self nodes network nid
      → Complies self nodes network (insert p.node_id o saved) nid
        ⊎ IsPlanned self nodes network plans nid
  checked p plans saved o fine each nid m = elim (Bool-cases (str_eq p.node_id nid)) [
    | inl at ↦ inl (Complies-now p saved o fine nid ((eq_iff p.node_id nid).0 at))
    | inr apart ↦ elim (each nid m) [
      | inl (o', stored, complies) ↦
          inl (o', rw (lookup-insert p.node_id nid o saved, apart) stored, complies)
      | inr (inl at) ↦ inl (Complies-now p saved o fine nid at)
      | inr (inr later) ↦ inr later
    ]
  ]

  check-Triple :
      (p : PerNodePlan) (plans : List PerNodePlan) (saved : Dict ObservedState) (o : ObservedState)
      → ((nid : String)
          → InNetwork self nodes network nid
          → Complies self nodes network saved nid ⊎ IsPlanned self nodes network (p ∷ plans) nid)
      → Triple
          (Holds self nodes (insert p.node_id o saved))
          (check_compliance self network (peers_of nodes network.node_ids) p.node_id o)
          (λ _. Sees self (Covered self nodes network plans))
          Anything
  check-Triple p plans saved o each = record {
    ends =
        λ s h. go s h (is_in_compliance network p.node_id (peers_of nodes network.node_ids) o) refl;
  }
    where
      go :
          (s : Applying Agents)
          → Holds self nodes (insert p.node_id o saved) s
          → (b : Bool) → is_in_compliance network p.node_id (peers_of nodes network.node_ids) o ≡ b
          → Ends {0, 0}
              (λ _. Sees self (Covered self nodes network plans))
              Anything
              ((if not b then raise (verify_failed p.node_id) else pure tt) s)
      go s h false e = tt
      go s h true e = (
        h.0,
        λ nid m.
            subst (λ d. Complies self nodes network d nid ⊎ IsPlanned self nodes network plans nid)
              (sym h.1) (checked p plans saved o e each nid m),
      )

  verify_plans-Triple :
      (plans : List PerNodePlan)
      → Triple
          (Sees self (Covered self nodes network plans))
          (verify_plans self network (peers_of nodes network.node_ids) plans)
          (λ _. Sees self (Covered self nodes network []))
          Anything
  unfolding verify_plans
  verify_plans-Triple [] = record { ends = λ s h. h }
  verify_plans-Triple (p ∷ plans) = record {
    ends = λ s h.
        (>>=-Triple (observe_node-Triple self nodes p.node_id s.world.observed) (λ o.
            >>-Triple (check-Triple p plans s.world.observed o h.1)
              (verify_plans-Triple plans))).ends
          s (h.0, refl);
  }

  verify_phase-Triple :
      (plans : List PerNodePlan)
      → Triple
          (Sees self (Covered self nodes network plans))
          (verify_phase self network plans)
          (λ _. Sees self (Covered self nodes network []))
          Anything
  unfolding verify_phase
  verify_phase-Triple plans =
      >>-Triple (move-Quiet self (Covered self nodes network plans) _ _ _) (record {
        ends = λ s h.
            (>>=-Triple (gather_peers-Triple network.node_ids s.world.observed) (λ peers.
                given (λ same.
                  subst
                    (λ ps.
                      Triple (Holds self nodes s.world.observed)
                        (verify_plans self network ps plans)
                        (λ _. Sees self (Covered self nodes network [])) Anything)
                    (sym same)
                    (consequence
                      (λ t k. (
                        k.0,
                        λ nid m.
                            subst
                              (λ d.
                                Complies self nodes network d nid
                                ⊎ IsPlanned self nodes network plans nid)
                              (sym k.1) (h.1 nid m),
                      ))
                      (λ _ t k. k) (λ t k. k) (verify_plans-Triple plans))))).ends
              s (h.0, refl);
      })

  -- Where the phases return, the saved observed state of every node of the network complies.
  pub phases_verified :
      Triple
        (λ s. s.world.nodes ≡ nodes)
        (phases self network)
        (λ _ s.
          (nid : String)
          → Any (λ y. y ≡ nid) network.node_ids
          → Complies self nodes network s.world.observed nid)
        Anything
  unfolding phases
  phases_verified = >>=-Triple (plan_phase-Triple self nodes network) (λ plans.
      >>-Triple (run_phase-Quiet self (Covered self nodes network plans) plans) (
        >>-Triple (verify_phase-Triple plans) (record {
          ends = λ s h nid m. elim (h.1 nid m) [ inl c ↦ c | inr none_left ↦ absurd none_left ];
        })))
