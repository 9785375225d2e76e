-- ===== src/Planning/Convergence.antt =====
-- A diff, applied: the agent then reports a state in which the diff engine finds nothing
-- (src/sdn_controller/core/services/diff_engine.py and
-- src/netos_agent/core/use_cases/apply_plan.py).
use nervum.Prelude.{
  ◌≡◌, ◌≢◌, refl, sym, ◌∙◌, ap, subst, String, ℕ, true, false, Option, none, some, List, [], ◌∷◌,
  ◌++◌, lookup, all, All, All-zip, All-fill, str_eq, eq_iff, Bool-cases, inl, inr, if◌then◌else◌,
  &&_right, dict_eq,
}
use nervum.Network.{Network, NetworkType, flat, vlan, vxlan}
use nervum.Ovs.{Bridge}
use nervum.Ovs.Idempotence.{IsSettled}
use nervum.Ovs.Effects.{ports_of, HasTagged}
use nervum.Agent.{PlanStep, Host}
use nervum.Agent.Invariant.{IsHost}
use nervum.Planning.{
  NodeAddress, bridge_name, bridge_steps, bridge_drifts, owner_ids, tunnel_drifts, vxlan_steps,
  stale_steps, is_stale, is_owned, vxlan_port_name, is_edge_node, is_edge_step, edge_service_steps,
}
use nervum.Planning.Observed.{ObservedBridge}
use nervum.Planning.Reports.{report_of, reports, port_report, opt_map}
use nervum.Planning.Reach.{after, after-append, after-IsHost, IsElsewhere, IsTagged, IsUnambiguous}
use nervum.Planning.Peers.{IsSeen, IsReached, tunnel_steps-Reached}
use nervum.Planning.Sweep.{IsMarked, deletes-lookup, deletes_sweep}
use nervum.Planning.Stages.{
  bridge_steps_stage, tagged_no_steps, find_port-ports_of, fine_no_steps, all-edge_service_steps,
  after-bridges,
}

module _ (network : Network) (local : String) (peers : List NodeAddress) where
  -- The bridge of the network as a host reports it.
  abbrev pub own : Host → Option ObservedBridge
  own h = opt_map report_of (lookup (bridge_name network) h.bridges)

  abbrev pub edge_steps : List PlanStep
  edge_steps = if is_edge_node network local then edge_service_steps network else []

  -- The diff against the report of a host, on a node of the network.
  abbrev pub member_diff : Host → List PlanStep
  member_diff h =
      (bridge_steps (own h) network
        ++ (vxlan_steps network.type network.vni network local (own h) peers
            ++ stale_steps network (reports h.bridges)))
      ++ edge_steps

  pub all-edge_steps : all is_edge_step edge_steps ≡ true
  all-edge_steps = elim (Bool-cases (is_edge_node network local)) [
    | inl e ↦ rw e (all-edge_service_steps network)
    | inr e ↦ rw e refl
  ]

  bridge_stage :
      (h : Host)
      → IsTagged network 0 (after (bridge_steps (own h) network) h)
        × HasTagged (bridge_name network) h.bridges (after (bridge_steps (own h) network) h).bridges
  bridge_stage h = bridge_steps_stage network 0 h (bridge_drifts (own h) network) refl

  -- The tunnels on a bridge, for a network of any type.
  abbrev HasTunnels : NetworkType → Option ℕ → Option Bridge → Type 0
  HasTunnels vxlan (some vni) o =
      All
        (λ p.
          str_eq p.node_id local ≡ false
          → tunnel_drifts (opt_map port_report (ports_of o (vxlan_port_name vni p))) network vni p
            ≡ false)
        peers
  HasTunnels _ _ o = Unit

  abbrev bridge_of : Host → Option Bridge
  bridge_of h = lookup (bridge_name network) h.bridges

  vxlan_steps_stage :
      (type : NetworkType) (vni : Option ℕ) (h g : Host)
      → ((v : ℕ) → vni ≡ some v → IsUnambiguous network v peers)
      → IsHost h
      → IsTagged network 0 g
      → ((n : String)
          → ports_of (lookup (bridge_name network) g.bridges) n
            ≡ ports_of (lookup (bridge_name network) h.bridges) n)
      → IsTagged network 0 (after (vxlan_steps type vni network local (own h) peers) g)
        × IsElsewhere
            (bridge_name network)
            g
            (after (vxlan_steps type vni network local (own h) peers) g)
        × HasTunnels type vni
            (bridge_of (after (vxlan_steps type vni network local (own h) peers) g))
  unfolding vxlan_steps
  vxlan_steps_stage vxlan (some vni) h g u w t same =
      let name = bridge_name network in
      let seen : All (IsSeen network vni local (own h) g) peers =
        All-fill (IsSeen network vni local (own h) g)
          (λ p ne fine.
            ap (λ o. tunnel_drifts (opt_map port_report o) network vni p)
              (same (vxlan_port_name vni p))
            ∙ ap (λ o. tunnel_drifts o network vni p)
                (sym (
                  find_port-ports_of (lookup name h.bridges) (vxlan_port_name vni p) name
                    (w.0.1 name)))
            ∙ fine)
          peers in
      let (t1, el, all, _) =
        tunnel_steps-Reached network vni local (own h) peers g t (u vni refl) seen in
      (t1, el, all)
  vxlan_steps_stage vxlan none h g u w t same = (t, (λ k ne. refl), tt)
  vxlan_steps_stage flat v h g u w t same = (t, (λ k ne. refl), tt)
  vxlan_steps_stage vlan v h g u w t same = (t, (λ k ne. refl), tt)

  -- Tunnels that are there need no step.
  vxlan_no_steps :
      (type : NetworkType) (vni : Option ℕ) (h : Host)
      → IsHost h
      → HasTunnels type vni (bridge_of h)
      → vxlan_steps type vni network local (own h) peers ≡ []
  unfolding vxlan_steps
  vxlan_no_steps vxlan (some vni) h w t =
      let name = bridge_name network in
      fine_no_steps network vni local (own h) peers (
        All-zip (IsReached network vni local none h) (λ p. Unit {0}) _
          (λ p reached _ ne.
            ap (λ o. tunnel_drifts o network vni p)
              (find_port-ports_of (lookup name h.bridges) (vxlan_port_name vni p) name (w.0.1 name))
            ∙ reached ne)
          peers t (All-fill (λ p. Unit {0}) (λ p. tt) peers))
  vxlan_no_steps vxlan none h w t = refl
  vxlan_no_steps flat v h w t = refl
  vxlan_no_steps vlan v h w t = refl

  not_stale : (bs : List ObservedBridge) → ¬ IsMarked (is_stale network) (bridge_name network) bs
  not_stale [] m = m
  not_stale (b ∷ bs) (inl (named, m)) =
      let other = &&_right (is_owned network b) _ m in
      cc (other, (eq_iff b.name (bridge_name network)).1 named)
  not_stale (b ∷ bs) (inr m) = not_stale bs m

  settled_diff :
      (g : Host)
      → IsHost g
      → IsTagged network 0 g
      → HasTunnels network.type network.vni (bridge_of g)
      → stale_steps network (reports g.bridges) ≡ []
      → member_diff g ≡ edge_steps
  settled_diff g w t tunnels clean =
      rw (tagged_no_steps network 0 g t, vxlan_no_steps network.type network.vni g w tunnels, clean)
        refl

  -- The same facts of a host with the same bridges.
  settled_bridges :
      (g g' : Host)
      → g'.bridges ≡ g.bridges
      → IsHost g'
      → IsTagged network 0 g
      → HasTunnels network.type network.vni (bridge_of g)
      → stale_steps network (reports g.bridges) ≡ []
      → member_diff g' ≡ edge_steps
  settled_bridges g g' e w t tunnels clean =
      settled_diff g' w
        (subst (λ b. IsSettled (bridge_name network) "system" (owner_ids network) b) (sym e) t)
        (subst (λ b. HasTunnels network.type network.vni (lookup (bridge_name network) b)) (sym e)
          tunnels)
        (ap (λ b. stale_steps network (reports b)) e ∙ clean)

  pub member_diff_settles :
      (h : Host)
      → ((v : ℕ) → network.vni ≡ some v → IsUnambiguous network v peers)
      → IsHost h
      → member_diff (after (member_diff h) h) ≡ edge_steps
  member_diff_settles h u w =
      let name = bridge_name network in
      let a = bridge_steps (own h) network in
      let b = vxlan_steps network.type network.vni network local (own h) peers in
      let c = stale_steps network (reports h.bridges) in
      let h1 = after a h in
      let h2 = after b h1 in
      let h3 = after c h2 in
      let w2 : IsHost h2 = after-IsHost b h1 (after-IsHost a h w) in
      let (t1, (same1, else1)) = bridge_stage h in
      let (t2, else2, tunnels) = vxlan_steps_stage network.type network.vni h h1 u w t1 same1 in
      let kept : lookup name h3.bridges ≡ lookup name h2.bridges =
        elim (deletes-lookup (is_stale network) (reports h.bridges) h2 w2.0 name) [
          | inl (_, m) ↦ absurd (not_stale (reports h.bridges) m)
          | inr (same, _) ↦ same
        ] in
      let clean : stale_steps network (reports h3.bridges) ≡ [] =
        deletes_sweep (is_stale network) h h2 w w2 (λ k br e m.
          let ne : name ≢ k = λ q. cc (
            &&_right (is_owned network (report_of br)) _ m,
            (eq_iff br.name name).1 ((w2.0.1 k br e).0 ∙ sym q),
          ) in
          sym (else1 k ne) ∙ (sym (else2 k ne) ∙ e)) in
      let end : after (member_diff h) h ≡ after edge_steps h3 =
        after-append (a ++ (b ++ c)) edge_steps h
        ∙ ap (after edge_steps) (after-append a (b ++ c) h ∙ after-append b c h1) in
      subst (λ g. member_diff g ≡ edge_steps) (sym end)
        (settled_bridges h3 (after edge_steps h3) (after-bridges edge_steps h3 all-edge_steps)
          (after-IsHost edge_steps h3 (after-IsHost c h2 w2))
          (subst
            (λ o.
              (br : Bridge) × (o ≡ some br)
              × (str_eq br.datapath_type "system" ≡ true)
              × (dict_eq br.external_ids (owner_ids network) ≡ true))
            (sym kept) t2)
          (subst (HasTunnels network.type network.vni) (sym kept) tunnels) clean)
