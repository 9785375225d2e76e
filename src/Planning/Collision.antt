-- ===== src/Planning/Collision.antt =====
-- Peers whose tunnels have one port name (src/sdn_controller/core/services/diff_engine.py,
-- `vxlan_port_name`, which keeps the last six characters of a node's id).
use nervum.Prelude.{
  ◌≡◌, ◌≢◌, refl, sym, ◌∙◌, ap, subst, String, ℕ, true, false, not, Bool, if◌then◌else◌, Option,
  some, none, List, [], ◌∷◌, ◌++◌, any, All, Any, arith, str_eq, has_value-eq, lookup, Bool-cases,
  inl, inr,
}
use nervum.Network.{Network, vxlan, member}
use nervum.Agent.{PlanStep}
use nervum.Planning.{
  stale_steps, NodeAddress, bridge_name, vxlan_port_name, bridge_steps, vxlan_steps, tunnel_steps,
  tunnel_drifts, vxlan_port_changed, interface_changed, vxlan_options, find_port, is_edge_step,
  is_edge_node, edge_service_steps, diff_for_node, is_in_compliance,
}
use nervum.Planning.Observed.{
  ObservedBridge, ObservedPort, ObservedInterface, ObservedState, find_bridge,
}
use nervum.Planning.Reach.{rest_steps-local, rest_steps-fine, rest_steps-drift}

abbrev needs_change : List PlanStep → Bool
needs_change = any (λ s. not (is_edge_step s))

needs_change-append :
    (ss ts : List PlanStep)
    → needs_change (ss ++ ts) ≡ false
    → (needs_change ss ≡ false) × (needs_change ts ≡ false)
needs_change-append [] ts h = (refl, h)
needs_change-append (s ∷ ss) ts h = ground (arith, needs_change-append ss ts)

-- The remote address that a port has, if it has one.
abbrev first_remote : List ObservedInterface → Option String
first_remote [] = none
first_remote (i ∷ _) = lookup "remote_ip" i.options

module _ (network : Network) (vni : ℕ) where
  interface_remote :
      (is : List ObservedInterface) (p : NodeAddress)
      → interface_changed is (vxlan_options network vni p) ≡ false
      → first_remote is ≡ some p.mgmt_ip
  unfolding interface_changed vxlan_options
  interface_remote [] p h = cc h
  interface_remote (i ∷ is) p h =
      has_value-eq (lookup "remote_ip" i.options) p.mgmt_ip (ground arith)

  accepted_remote :
      (o : Option ObservedPort) (p : NodeAddress)
      → tunnel_drifts o network vni p ≡ false
      → (port : ObservedPort) × (o ≡ some port) × (first_remote port.interfaces ≡ some p.mgmt_ip)
  unfolding tunnel_drifts vxlan_port_changed
  accepted_remote none p h = cc h
  accepted_remote (some port) p h = (port, refl, interface_remote port.interfaces p (ground arith))

  -- One port cannot be right for two addresses.
  one_remote :
      (o : Option ObservedPort) (p q : NodeAddress)
      → tunnel_drifts o network vni p ≡ false
      → tunnel_drifts o network vni q ≡ false
      → p.mgmt_ip ≡ q.mgmt_ip
  one_remote o p q hp hq =
      let (a, found_a, remote_a) = accepted_remote o p hp in
      let (b, found_b, remote_b) = accepted_remote o q hq in
      let same : a ≡ b = cc (found_a, found_b) in cc (remote_a, remote_b, same)

  -- Where the loop over the peers asks for nothing, every tunnel is right.
  quiet_tunnels :
      (local : String) (bridge : Option ObservedBridge) (ps : List NodeAddress)
      → needs_change (tunnel_steps network vni local bridge ps) ≡ false
      → All
          (λ p.
            str_eq p.node_id local ≡ false
            → tunnel_drifts (find_port bridge (vxlan_port_name vni p)) network vni p ≡ false)
          ps
  quiet_tunnels local bridge [] h = tt
  quiet_tunnels local bridge (p ∷ ps) h =
      let quiet : List PlanStep → Type 0 = λ ss. needs_change ss ≡ false in
      let rest = quiet_tunnels local bridge ps in
      elim (Bool-cases (str_eq p.node_id local)) [
        | inl e ↦ (
          (λ ne. cc (e, ne)),
          rest (subst quiet (rest_steps-local network vni local bridge p ps e) h),
        )
        | inr e ↦
            elim (Bool-cases
              (tunnel_drifts (find_port bridge (vxlan_port_name vni p)) network vni p)) [
                | inl d ↦ cc (subst quiet (rest_steps-drift network vni local bridge p ps e d) h)
                | inr d ↦ (
                  (λ _. d),
                  rest (subst quiet (rest_steps-fine network vni local bridge p ps e d) h),
                )
              ]
      ]

All-at :
    (P : NodeAddress → Type 0) (x : NodeAddress) (xs : List NodeAddress)
    → All P xs
    → Any (λ y. y ≡ x) xs
    → P x
All-at P x [] all m = absurd m
All-at P x (y ∷ ys) all (inl e) = subst P e all.0
All-at P x (y ∷ ys) all (inr m) = All-at P x ys all.1 m

-- A diff of a member that asks for nothing structural asks for no tunnel.
quiet_diff :
    (network : Network) (vni : ℕ) (local : String) (peers : List NodeAddress)
    (observed : ObservedState)
    → network.type ≡ vxlan
    → network.vni ≡ some vni
    → member local network.node_ids ≡ true
    → needs_change (diff_for_node network local peers observed) ≡ false
    → needs_change
        (tunnel_steps network vni local (find_bridge observed (bridge_name network)) peers)
      ≡ false
unfolding diff_for_node vxlan_steps
quiet_diff network vni local peers observed type tag m quiet =
    let bridge = find_bridge observed (bridge_name network) in
    let first = bridge_steps bridge network in
    let tunnels = vxlan_steps network.type network.vni network local bridge peers in
    let stale = stale_steps network observed.bridges in
    let edge = if is_edge_node network local then edge_service_steps network else [] in
    let diff : diff_for_node network local peers observed ≡ (first ++ (tunnels ++ stale)) ++ edge =
      rw (m, diff_for_node) refl in
    let structural =
      (needs_change-append (first ++ (tunnels ++ stale)) edge
        (ap needs_change (sym diff) ∙ quiet)).0 in
    let middle = (needs_change-append first (tunnels ++ stale) structural).1 in
    let loop : tunnels ≡ tunnel_steps network vni local bridge peers =
      ap (λ t. vxlan_steps t network.vni network local bridge peers) type
      ∙ ap (λ v. vxlan_steps vxlan v network local bridge peers) tag in
    ap needs_change (sym loop) ∙ (needs_change-append tunnels stale middle).0

-- On a node of a VXLAN network that has two peers with different addresses, other nodes than the
-- local one, whose ids give one tunnel port name, the diff engine finds no observed state in
-- compliance: the verify phase fails whatever the agent reports.
pub is_in_compliance_collision :
    (network : Network) (vni : ℕ) (local : String) (peers : List NodeAddress) (p q : NodeAddress)
    (observed : ObservedState)
    → network.type ≡ vxlan
    → network.vni ≡ some vni
    → member local network.node_ids ≡ true
    → Any (λ x. x ≡ p) peers
    → Any (λ x. x ≡ q) peers
    → str_eq p.node_id local ≡ false
    → str_eq q.node_id local ≡ false
    → vxlan_port_name vni p ≡ vxlan_port_name vni q
    → p.mgmt_ip ≢ q.mgmt_ip
    → is_in_compliance network local peers observed ≡ false
unfolding is_in_compliance
is_in_compliance_collision network vni local peers p q observed type tag m mp mq np nq names ips =
    let bridge = find_bridge observed (bridge_name network) in
    let Fine : NodeAddress → Type 0 = λ x.
      str_eq x.node_id local ≡ false
      → tunnel_drifts (find_port bridge (vxlan_port_name vni x)) network vni x ≡ false in
    elim (Bool-cases (needs_change (diff_for_node network local peers observed))) [
      | inl changes ↦ ap not changes
      | inr quiet ↦
          let fine : All Fine peers =
            quiet_tunnels network vni local bridge peers
              (quiet_diff network vni local peers observed type tag m quiet) in
          let right_p = All-at Fine p peers fine mp np in
          let right_q : tunnel_drifts (find_port bridge (vxlan_port_name vni p)) network vni q
              ≡ false =
            ap (λ n. tunnel_drifts (find_port bridge n) network vni q) names
            ∙ All-at Fine q peers fine mq nq in
          absurd (
            ips (
              one_remote network vni (find_port bridge (vxlan_port_name vni p)) p q right_p
                right_q))
    ]
