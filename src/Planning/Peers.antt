-- ===== src/Planning/Peers.antt =====
-- All the tunnels of a node, after the tunnel steps of the diff engine
-- (src/sdn_controller/core/services/diff_engine.py, the loop over the peers).
use nervum.Prelude.{
  refl, ◌≡◌, sym, ◌∙◌, subst, String, ℕ, false, Option, List, [], ◌∷◌, All, All-zip, str_eq,
  Bool-cases, inl, inr,
}
use nervum.Network.{Network}
use nervum.Agent.{PlanStep, Host, left_by, apply_step}
use nervum.Planning.{
  NodeAddress, bridge_name, vxlan_port_name, tunnel_drifts, tunnel_steps, find_port,
}
use nervum.Planning.Observed.{ObservedBridge}
use nervum.Planning.Reach.{
  after, IsElsewhere, IsTagged, IsTunnelled, IsUnambiguous, Agrees, tunnel_step,
  tunnel_step-Tunnels, rest_steps-local, rest_steps-fine, rest_steps-drift,
}

module _ (network : Network) (vni : ℕ) (local : String) (bridge : Option ObservedBridge) where
  -- What the diff engine found no drift in is there.
  abbrev pub IsSeen : Host → NodeAddress → Type 0
  IsSeen h p =
      str_eq p.node_id local ≡ false
      → tunnel_drifts (find_port bridge (vxlan_port_name vni p)) network vni p ≡ false
      → IsTunnelled network vni p h

  abbrev pub IsReached : Host → NodeAddress → Type 0
  IsReached h p = str_eq p.node_id local ≡ false → IsTunnelled network vni p h

  abbrev pub Reached : List NodeAddress → Host → Host → Type 0
  Reached ps h next =
      IsTagged network vni next
      × IsElsewhere (bridge_name network) h next
      × All (IsReached next) ps
      × ((p : NodeAddress)
          → All (Agrees network vni p) ps
          → IsTunnelled network vni p h
          → IsTunnelled network vni p next)

  pub tunnel_steps-Reached :
      (ps : List NodeAddress) (h : Host)
      → IsTagged network vni h
      → IsUnambiguous network vni ps
      → All (IsSeen h) ps
      → Reached ps h (after (tunnel_steps network vni local bridge ps) h)
  unfolding tunnel_steps
  tunnel_steps-Reached [] h t u s = (t, (λ k ne. refl), tt, λ p a fine. fine)
  tunnel_steps-Reached (q ∷ ps) h t u s =
      let back : List PlanStep → Type 0 = λ ss. Reached (q ∷ ps) h (after ss h) in
      elim (Bool-cases (str_eq q.node_id local)) [
        | inl e ↦
            let (t1, el, all, keep) = tunnel_steps-Reached ps h t u.1 s.1 in
            subst back (sym (rest_steps-local network vni local bridge q ps e))
              (t1, el, ((λ ne. cc (e, ne)), all), λ p a fine. keep p a.1 fine)
        | inr e ↦
            elim (Bool-cases
              (tunnel_drifts (find_port bridge (vxlan_port_name vni q)) network vni q)) [
                | inr d ↦
                    let (t1, el, all, keep) = tunnel_steps-Reached ps h t u.1 s.1 in
                    subst back (sym (rest_steps-fine network vni local bridge q ps e d))
                      (t1, el, ((λ ne. keep q u.0 (s.0 e d)), all), λ p a fine. keep p a.1 fine)
                | inl d ↦
                    let h1 = left_by h (apply_step (tunnel_step network vni q) h) in
                    let (t1, el1, made, keep1) = tunnel_step-Tunnels network vni q h t in
                    let seen : All (IsSeen h1) ps =
                      All-zip (Agrees network vni q) (IsSeen h) (IsSeen h1)
                        (λ p a f ne d. keep1 p a (f ne d)) ps u.0 s.1 in
                    let (t2, el2, all, keep2) = tunnel_steps-Reached ps h1 t1 u.1 seen in
                    subst back (sym (rest_steps-drift network vni local bridge q ps e d)) (
                      t2,
                      (λ k ne. el2 k ne ∙ el1 k ne),
                      ((λ ne. keep2 q u.0 made), all),
                      λ p a fine. keep2 p a.1 (keep1 p (λ e. sym (a.0 (sym e))) fine),
                    )
              ]
      ]
