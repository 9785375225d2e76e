-- ===== src/Planning/Reach.antt =====
-- The tunnel steps of the diff engine, run on an agent, leave the ports that the diff engine
-- accepts (src/sdn_controller/core/services/diff_engine.py, the loop over the peers).
use nervum.Prelude.{
  ◌≡◌, ◌≢◌, refl, sym, ◌∙◌, ap, subst, String, ℕ, true, false, Bool, Option, none, some, List, [],
  ◌∷◌, ◌++◌, lookup, All, eq_iff, str_eq, dict_eq, Bool-cases, inl, inr,
}
use nervum.Ovs.{PortSpec, Bridge, Bridges, Port, ensure_vxlan_port, vxlan_port}
use nervum.Ovs.Idempotence.{IsSettled, tunnel_options-IsDict}
use nervum.Ovs.Effects.{HasWritten, ports_of, ensure_port-HasWritten}
use nervum.Agent.Invariant.{IsHost, apply_step-IsHost}
use nervum.Network.{Network}
use nervum.Agent.{
  PlanStep, Host, apply_step, run_steps, left_by, ensure_vxlan_port_step, on_bridges,
}
use nervum.Planning.{
  NodeAddress, bridge_name, vxlan_port_name, tunnel_spec, tunnel_drifts, tunnel_steps, owner_ids,
  find_port, vxlan_options, vxlan_port_changed,
}
use nervum.Planning.Observed.{ObservedBridge}
use nervum.Planning.Reports.{port_report, opt_map}
use nervum.Planning.Tunnels.{ports_equal-tunnel_drifts, owner_ids-IsDict}

-- The host after a list of steps, of which some may fail.
abbrev pub after : List PlanStep → Host → Host
after [] h = h
after (s ∷ ss) h = after ss (left_by h (apply_step s h))

pub run_steps-after : (ss : List PlanStep) (b : Bool) (h : Host) → (run_steps ss b h).2 ≡ after ss h
unfolding run_steps
run_steps-after [] b h = refl
run_steps-after (s ∷ ss) b h = run_steps-after ss _ (left_by h (apply_step s h))

pub after-append : (ss ts : List PlanStep) (h : Host) → after (ss ++ ts) h ≡ after ts (after ss h)
after-append [] ts h = refl
after-append (s ∷ ss) ts h = after-append ss ts (left_by h (apply_step s h))

pub after-IsHost : (ss : List PlanStep) (h : Host) → IsHost h → IsHost (after ss h)
after-IsHost [] h w = w
after-IsHost (s ∷ ss) h w = after-IsHost ss (left_by h (apply_step s h)) (apply_step-IsHost s h w)

-- The bridges of other names are as they were.
abbrev pub IsElsewhere : String → Host → Host → Type 0
IsElsewhere name h h' = (k : String) → name ≢ k → lookup k h'.bridges ≡ lookup k h.bridges

module _ (network : Network) (vni : ℕ) where
  -- The network's bridge has the type and the identifiers that the diff engine wants.
  abbrev pub IsTagged : Host → Type 0
  IsTagged h = IsSettled (bridge_name network) "system" (owner_ids network) h.bridges

  -- The tunnel to a peer is there, as the diff engine wants it.
  abbrev pub IsTunnelled : NodeAddress → Host → Type 0
  IsTunnelled peer h =
      tunnel_drifts
        (opt_map port_report
          (ports_of (lookup (bridge_name network) h.bridges) (vxlan_port_name vni peer)))
        network vni peer
      ≡ false

  -- Two peers with one port name have one address.
  abbrev pub Agrees : NodeAddress → NodeAddress → Type 0
  Agrees p q = vxlan_port_name vni p ≡ vxlan_port_name vni q → p.mgmt_ip ≡ q.mgmt_ip

  -- No two peers share a port name, unless they share an address.
  abbrev pub IsUnambiguous : List NodeAddress → Type 0
  IsUnambiguous [] = Unit
  IsUnambiguous (q ∷ ps) = All (Agrees q) ps × IsUnambiguous ps

  tunnel_drifts_agree :
      (o : Option Port) (p q : NodeAddress)
      → p.mgmt_ip ≡ q.mgmt_ip
      → tunnel_drifts (opt_map port_report o) network vni p
        ≡ tunnel_drifts (opt_map port_report o) network vni q
  unfolding tunnel_drifts vxlan_options
  tunnel_drifts_agree none p q e = refl
  tunnel_drifts_agree (some port) p q e =
      ap
        (λ ip.
          vxlan_port_changed (port_report port)
            (vxlan_options network vni (record p { mgmt_ip = ip })) (owner_ids network))
        e

  abbrev pub tunnel_step : NodeAddress → PlanStep
  tunnel_step q = ensure_vxlan_port_step (bridge_name network) (tunnel_spec network vni q)

  -- One step to a peer: what it makes and what it keeps.
  abbrev pub Tunnels : NodeAddress → Host → Host → Type 0
  Tunnels q h next =
      IsTagged next
      × IsElsewhere (bridge_name network) h next
      × IsTunnelled q next
      × ((p : NodeAddress) → Agrees q p → IsTunnelled p h → IsTunnelled p next)

  abbrev spec_for : NodeAddress → PortSpec
  spec_for q = vxlan_port (tunnel_spec network vni q)

  HasWritten-Tunnels :
      (q : NodeAddress) (h : Host) (br : Bridge) (next : Bridges)
      → lookup (bridge_name network) h.bridges ≡ some br
      → str_eq br.datapath_type "system" ≡ true
      → dict_eq br.external_ids (owner_ids network) ≡ true
      → HasWritten (bridge_name network) (spec_for q) br h.bridges next
      → Tunnels q h (record h { bridges = next })
  unfolding tunnel_spec
  HasWritten-Tunnels q h br next found typed tagged w =
      let name = bridge_name network in
      let drift : (p : NodeAddress) → Option Port → Bool =
        λ p o. tunnel_drifts (opt_map port_report o) network vni p in
      let here : ports_of (lookup name next) (vxlan_port_name vni q) ≡ some w.port =
        ap (λ b. ports_of b (vxlan_port_name vni q)) w.found ∙ w.there in
      let reached : drift q (ports_of (lookup name next) (vxlan_port_name vni q)) ≡ false =
        ap (drift q) here ∙ ports_equal-tunnel_drifts network vni q w.port w.right in
      let keeps : (p : NodeAddress)
          → Agrees q p
          → IsTunnelled p h
          → IsTunnelled p (record h { bridges = next }) =
        λ p agrees fine.
          elim (Bool-cases (str_eq (vxlan_port_name vni q) (vxlan_port_name vni p))) [
            | inl e ↦
                let same : vxlan_port_name vni q ≡ vxlan_port_name vni p = (eq_iff _ _).0 e in
                ap (λ n. drift p (ports_of (lookup name next) n)) (sym same)
                ∙ sym (
                    tunnel_drifts_agree (ports_of (lookup name next) (vxlan_port_name vni q)) q p
                      (agrees same))
                ∙ reached
            | inr e ↦
                ap (drift p) (
                  ap (λ b. ports_of b (vxlan_port_name vni p)) w.found
                  ∙ w.others (vxlan_port_name vni p) (λ same.
                    cc ((eq_iff (vxlan_port_name vni q) (vxlan_port_name vni p)).1 same, e))
                  ∙ sym (ap (λ b. ports_of b (vxlan_port_name vni p)) found))
                ∙ fine
          ] in
      (
        (
          w.next,
          w.found,
          ap (λ t. str_eq t "system") w.typed ∙ typed,
          ap (λ t. dict_eq t (owner_ids network)) w.tagged ∙ tagged,
        ),
        w.elsewhere,
        reached,
        keeps,
      )

  pub tunnel_step-Tunnels :
      (q : NodeAddress) (h : Host)
      → IsTagged h
      → Tunnels q h (left_by h (apply_step (tunnel_step q) h))
  unfolding apply_step ensure_vxlan_port tunnel_spec
  tunnel_step-Tunnels q h (br, found, typed, tagged) =
      let (changed, next, e, w) =
        ensure_port-HasWritten (bridge_name network) (spec_for q) br h.bridges
          (tunnel_options-IsDict (tunnel_spec network vni q)) (owner_ids-IsDict network) found in
      subst (λ r. Tunnels q h (left_by h (on_bridges h r))) (sym e)
        (HasWritten-Tunnels q h br next found typed tagged w)

  -- The three ways through the loop's body.
  module _ (local : String) (bridge : Option ObservedBridge) (q : NodeAddress)
      (ps : List NodeAddress) where
    pub rest_steps-local :
        str_eq q.node_id local ≡ true
        → tunnel_steps network vni local bridge (q ∷ ps) ≡ tunnel_steps network vni local bridge ps
    unfolding tunnel_steps
    rest_steps-local e = rw (e, tunnel_steps) refl

    pub rest_steps-fine :
        str_eq q.node_id local ≡ false
        → tunnel_drifts (find_port bridge (vxlan_port_name vni q)) network vni q ≡ false
        → tunnel_steps network vni local bridge (q ∷ ps) ≡ tunnel_steps network vni local bridge ps
    unfolding tunnel_steps
    rest_steps-fine e d = rw (e, d, tunnel_steps) refl

    pub rest_steps-drift :
        str_eq q.node_id local ≡ false
        → tunnel_drifts (find_port bridge (vxlan_port_name vni q)) network vni q ≡ true
        → tunnel_steps network vni local bridge (q ∷ ps)
          ≡ tunnel_step q ∷ tunnel_steps network vni local bridge ps
    unfolding tunnel_steps
    rest_steps-drift e d = rw (e, d, tunnel_steps) refl
