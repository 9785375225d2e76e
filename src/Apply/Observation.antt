-- ===== src/Apply/Observation.antt =====
-- What the planning phase of an apply has seen of the nodes
-- (src/sdn_controller/core/use_cases/reconcile.py, `_plan`).
use nervum.Prelude.{
  str_eq, Bool-cases, subst, String, Option, none, some, List, [], ◌∷◌, ◌≡◌, refl, Dict, ◌⊎◌, inl,
  inr, lookup, insert, Any, eq_iff, lookup-insert, ap, sym,
}
use nervum.Node.{Node}
use nervum.Network.{Network}
use nervum.Ovs.Dumps.{OvsState}
use nervum.Planning.Observed.{ObservedState, state_view_to_observed}
use nervum.Apply.Tasks.{
  given, consequence, Anything, Triple, Ends, >>=-Triple, Outcome, returned, raised, Raised,
}
use nervum.Apply.Setting.{missing_node, Applying, Services}
use nervum.Apply.Phases.{
  now, get_node, found, get_state, with_agents, save_observed, save_report, observe_node,
  observe_nodes,
}

assoc : {A B C : Type 0} → A ⊎ (B ⊎ C) → (A ⊎ B) ⊎ C
assoc (inl a) = inl (inl a)
assoc (inr (inl b)) = inl (inr b)
assoc (inr (inr c)) = inr c

module _ {Agents : Type 0} (self : Services Agents) (nodes : Dict Node) where
  -- The repositories hold the nodes and the given observed states.
  abbrev pub Holds : Dict ObservedState → Applying Agents → Type 0
  Holds observed s = (s.world.nodes ≡ nodes) × (s.world.observed ≡ observed)

  viewed-Ends :
      (observed : Dict ObservedState) (s : Applying Agents)
      (r : Outcome (OvsState × String) × Agents)
      → Holds observed s
      → Ends (λ _. Holds observed) Anything (with_agents self s r)
  viewed-Ends observed s (returned a, agents) h = h
  viewed-Ends observed s (raised e, agents) h = tt

  save_report-Triple :
      (nid : String) (observed : Dict ObservedState) (view : OvsState × String)
      → Triple
          (Holds observed)
          (save_report self nid view)
          (λ obs. Holds (insert nid obs observed))
          Anything
  unfolding save_report save_observed now state_view_to_observed
  save_report-Triple nid observed view = record { ends = λ s h. (h.0, ap (insert nid _) h.1) }

  pub observe_node-Triple :
      (nid : String) (observed : Dict ObservedState)
      → Triple
          (Holds observed)
          (observe_node self nid)
          (λ obs. Holds (insert nid obs observed))
          Anything
  unfolding observe_node get_state
  observe_node-Triple nid observed =
      >>=-Triple
        (record {
          ends = λ s h. viewed-Ends observed s (self.agent.get_state nid s.world.agents) h;
        })
        (save_report-Triple nid observed)

  found-Ends :
      (observed : Dict ObservedState) (s : Applying Agents) (missing : Raised) (nid : String)
      (o : Option Node)
      → lookup nid s.world.nodes ≡ o
      → Holds observed s
      → Ends
          (λ node t. Holds observed t × (lookup nid nodes ≡ some node))
          Anything
          (found self missing o s)
  found-Ends observed s missing nid none e h = tt
  found-Ends observed s missing nid (some node) e h =
      (h, subst (λ d. lookup nid d ≡ some node) h.0 e)

  pub get_node-Triple :
      (network : Network) (nid : String) (observed : Dict ObservedState)
      → Triple
          (Holds observed)
          (get_node self network nid)
          (λ node s. Holds observed s × (lookup nid nodes ≡ some node))
          Anything
  unfolding get_node
  get_node-Triple network nid observed = record {
    ends = λ s h.
        found-Ends observed s (missing_node network nid) nid (lookup nid s.world.nodes) refl h;
  }

  -- The node was found, and its observed state is the one that is saved.
  abbrev pub Knows : Dict Node → Dict ObservedState → Dict ObservedState → String → Type 0
  Knows seen observed saved nid =
      (node : Node) × (o : ObservedState) × (lookup nid nodes ≡ some node)
      × (lookup nid seen ≡ some node)
      × (lookup nid observed ≡ some o)
      × (lookup nid saved ≡ some o)

  abbrev pub Seen : (String → Type 0) → Dict Node → Dict ObservedState → Applying Agents → Type 0
  Seen D seen observed s =
      (s.world.nodes ≡ nodes) × ((nid : String) → D nid → Knows seen observed s.world.observed nid)

  Knows-self :
      (seen : Dict Node) (observed saved : Dict ObservedState) (nid : String) (node : Node)
      (o : ObservedState) (x : String)
      → lookup nid nodes ≡ some node
      → nid ≡ x
      → Knows (insert nid node seen) (insert nid o observed) (insert nid o saved) x
  Knows-self seen observed saved nid node o x known same =
      let at = (eq_iff nid x).1 same in
      (
        node,
        o,
        subst (λ y. lookup y nodes ≡ some node) same known,
        rw (lookup-insert nid x node seen, at) refl,
        rw (lookup-insert nid x o observed, at) refl,
        rw (lookup-insert nid x o saved, at) refl,
      )

  -- One node more is known.
  Knows-more :
      (D : String → Type 0) (seen : Dict Node) (observed saved : Dict ObservedState) (nid : String)
      (node : Node) (o : ObservedState)
      → lookup nid nodes ≡ some node
      → ((x : String) → D x → Knows seen observed saved x)
      → (x : String) → D x ⊎ (nid ≡ x)
      → Knows (insert nid node seen) (insert nid o observed) (insert nid o saved) x
  Knows-more D seen observed saved nid node o known each x (inr same) =
      Knows-self seen observed saved nid node o x known same
  Knows-more D seen observed saved nid node o known each x (inl m) =
      elim (Bool-cases (str_eq nid x)) [
        | inl at ↦ Knows-self seen observed saved nid node o x known ((eq_iff nid x).0 at)
        | inr apart ↦
            let (n, p, a, b, c, d) = each x m in
            (
              n,
              p,
              a,
              rw (lookup-insert nid x node seen, apart) b,
              rw (lookup-insert nid x o observed, apart) c,
              rw (lookup-insert nid x o saved, apart) d,
            )
      ]

  -- The loop knows every node that it has passed.
  pub observe_nodes-Triple :
      (D : String → Type 0) (network : Network) (nids : List String) (seen : Dict Node)
      (observed : Dict ObservedState)
      → Triple
          (Seen D seen observed)
          (observe_nodes self network nids seen observed)
          (λ r. Seen (λ x. D x ⊎ Any (λ y. y ≡ x) nids) r.0 r.1)
          Anything
  unfolding observe_nodes
  observe_nodes-Triple D network [] seen observed = record {
    ends = λ s h. (h.0, λ x m. elim m [ inl d ↦ h.1 x d | inr none_left ↦ absurd none_left ]);
  }
  observe_nodes-Triple D network (nid ∷ nids) seen observed = record {
    ends = λ s h.
        (>>=-Triple (get_node-Triple network nid s.world.observed) (λ node. given (λ known.
            >>=-Triple (observe_node-Triple nid s.world.observed) (λ obs.
              consequence
                (λ t k. (
                  k.0,
                  λ x m.
                      subst
                        (λ saved. Knows (insert nid node seen) (insert nid obs observed) saved x)
                        (sym k.1)
                        (Knows-more D seen observed s.world.observed nid node obs known h.1 x m),
                ))
                (λ r t k. (k.0, λ x m. k.1 x (assoc m))) (λ t k. k)
                (observe_nodes-Triple (λ x. D x ⊎ (nid ≡ x)) network nids (insert nid node seen)
                  (insert nid obs observed)))))).ends
          s (h.0, refl);
  }
