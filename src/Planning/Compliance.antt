-- ===== src/Planning/Compliance.antt =====
-- The verify phase after an apply: the diff of a node, run by its agent, is followed by a state in
-- compliance (src/sdn_controller/core/services/diff_engine.py, `is_in_compliance`;
-- src/netos_agent/core/use_cases/apply_plan.py).
use nervum.Prelude.{
  if◌then◌else◌, ◌≡◌, sym, ◌∙◌, ap, subst, String, ℕ, true, false, not, Option, some, List, ◌++◌,
  any, Bool-cases, inl, inr,
}
use nervum.Network.{Network, member}
use nervum.Agent.{PlanStep, Host, run_steps}
use nervum.Agent.Invariant.{IsHost}
use nervum.Planning.{
  [], edge_service_steps, is_edge_node, ObservedState, NodeAddress, bridge_name, bridge_steps,
  vxlan_steps, stale_steps, cleanup_for_network, is_owned, is_edge_step, diff_for_node,
  is_in_compliance,
}
use nervum.Planning.Observed.{ObservedBridge, find_bridge, find_named}
use nervum.Planning.Reports.{observe, bridges-observe, reports, find_named-reports}
use nervum.Planning.Reach.{after, after-IsHost, run_steps-after, IsUnambiguous}
use nervum.Planning.Sweep.{deletes_sweep}
use nervum.Planning.Stages.{any-edge_steps}
use nervum.Planning.Convergence.{edge_steps, member_diff, member_diff_settles, all-edge_steps}

module _ (network : Network) (local : String) (peers : List NodeAddress) (version : Option String)
    (state_hash : String) (observed_at : ℕ) where
  abbrev report : Host → ObservedState
  report = observe local version state_hash observed_at

  abbrev diff_from : Option ObservedBridge → List ObservedBridge → List PlanStep
  diff_from bridge bs =
      (bridge_steps bridge network
        ++ (vxlan_steps network.type network.vni network local bridge peers
            ++ stale_steps network bs))
      ++ edge_steps network local peers

  diff-member :
      (h : Host)
      → IsHost h
      → member local network.node_ids ≡ true
      → diff_for_node network local peers (report h) ≡ member_diff network local peers h
  unfolding diff_for_node find_bridge
  diff-member h w m =
      rw (m, diff_for_node)
        (ap (λ bs. diff_from (find_named bs (bridge_name network)) bs)
            (bridges-observe local version state_hash observed_at h)
          ∙ ap (λ b. diff_from b (reports h.bridges))
              (find_named-reports (bridge_name network) h.bridges w.0))

  diff-stranger :
      (h : Host)
      → member local network.node_ids ≡ false
      → diff_for_node network local peers (report h)
        ≡ cleanup_for_network network (reports h.bridges)
  unfolding diff_for_node
  diff-stranger h m =
      rw (m, diff_for_node)
        (ap (cleanup_for_network network) (bridges-observe local version state_hash observed_at h))

  complies :
      (h : Host)
      → any (λ s. not (is_edge_step s)) (diff_for_node network local peers (report h)) ≡ false
      → is_in_compliance network local peers (report h) ≡ true
  unfolding is_in_compliance
  complies h e = ap not e

  after_diff-complies :
      (h : Host)
      → ((vni : ℕ) → network.vni ≡ some vni → IsUnambiguous network vni peers)
      → IsHost h
      → is_in_compliance network local peers
          (report (after (diff_for_node network local peers (report h)) h))
        ≡ true
  after_diff-complies h u w = elim (Bool-cases (member local network.node_ids)) [
    | inl m ↦
        let steps = member_diff network local peers h in
        subst (λ ss. is_in_compliance network local peers (report (after ss h)) ≡ true)
          (sym (diff-member h w m))
          (complies (after steps h) (
            ap (any (λ s. not (is_edge_step s))) (
              diff-member (after steps h) (after-IsHost steps h w) m
              ∙ member_diff_settles network local peers h u w)
            ∙ any-edge_steps (edge_steps network local peers) (all-edge_steps network local peers)))
    | inr m ↦
        let steps = cleanup_for_network network (reports h.bridges) in
        subst (λ ss. is_in_compliance network local peers (report (after ss h)) ≡ true)
          (sym (diff-stranger h m))
          (complies (after steps h) (
            ap (any (λ s. not (is_edge_step s))) (
              diff-stranger (after steps h) m
              ∙ deletes_sweep (is_owned network) h h w w (λ k br e _. e))))
  ]

  -- Let an agent run the steps that the diff engine makes from its report, where its bridges and
  -- ports stand under their names and no key is listed twice. If no two peers of the network with different addresses share a tunnel port name,
  -- the diff engine finds the state that the agent reports then in compliance, whether the node
  -- belongs to the network or was removed from it.
  pub diff_for_node_complies :
      (h : Host)
      → ((vni : ℕ) → network.vni ≡ some vni → IsUnambiguous network vni peers)
      → IsHost h
      → is_in_compliance network local peers
          (report ((run_steps (diff_for_node network local peers (report h)) true h).2))
        ≡ true
  diff_for_node_complies h u w =
      let steps = diff_for_node network local peers (report h) in
      ap (λ g. is_in_compliance network local peers (report g)) (run_steps-after steps true h)
      ∙ after_diff-complies h u w

  -- Let the agent of a node of the network run the steps that the diff engine makes from its
  -- report, where its bridges and ports stand under their names, no key is listed twice, and no two
  -- peers with different addresses share a tunnel port name. The next diff is exactly the
  -- edge-service steps on the edge node, which are always asked for, and empty on any other node.
  pub diff_for_node_again :
      (h : Host)
      → ((vni : ℕ) → network.vni ≡ some vni → IsUnambiguous network vni peers)
      → IsHost h
      → member local network.node_ids ≡ true
      → diff_for_node network local peers
          (report ((run_steps (diff_for_node network local peers (report h)) true h).2))
        ≡ (if is_edge_node network local then edge_service_steps network else [])
  diff_for_node_again h u w m =
      let steps = member_diff network local peers h in
      let settled : diff_for_node network local peers (report (after steps h))
          ≡ edge_steps network local peers =
        diff-member (after steps h) (after-IsHost steps h w) m
        ∙ member_diff_settles network local peers h u w in
      ap (λ g. diff_for_node network local peers (report g))
        (run_steps-after (diff_for_node network local peers (report h)) true h)
      ∙ subst
          (λ ss.
            diff_for_node network local peers (report (after ss h))
            ≡ edge_steps network local peers)
          (sym (diff-member h w m)) settled
