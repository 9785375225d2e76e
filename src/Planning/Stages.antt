-- ===== src/Planning/Stages.antt =====
-- The first and the last steps of a diff, run on an agent: the bridge, and the edge services
-- (src/sdn_controller/core/services/diff_engine.py, `diff_for_node` and `_edge_service_steps`).
use nervum.Prelude.{
  &&_left, &&_right, ◌≡◌, refl, ◌∙◌, String, ℕ, true, false, not, Bool, Option, none, some, List,
  [], ◌∷◌, ◌++◌, lookup, all, any, arith, All, str_eq, dict_eq, dict_eq-sort_items, Bool-cases, inl,
  inr,
}
use nervum.EdgeServices.{NatSpec, FirewallPolicy}
use nervum.Ipam.{Subnet}
use nervum.Network.{Network}
use nervum.Ovs.{Bridge}
use nervum.Ovs.Database.{IsBridge}
use nervum.Ovs.Idempotence.{ensure_bridge-settles}
use nervum.Ovs.Effects.{HasTagged, ensure_bridge-HasTagged, ports_of}
use nervum.Agent.{
  ensure_firewall_policy_step, ensure_nat_rule_step, ensure_dns_zone_step, ensure_dhcp_scope_step,
  PlanStep, Host, apply_step, left_by,
}
use nervum.Planning.{
  NodeAddress, bridge_name, bridge_steps, bridge_drifts, bridge_changed, owner_ids, is_edge_step,
  edge_service_steps, dhcp_steps, dns_steps, nat_steps, policy_steps, tunnel_steps, tunnel_drifts,
  find_port, vxlan_port_name,
}
use nervum.Planning.Observed.{ObservedBridge}
use nervum.Planning.Reports.{report_of, port_report, opt_map, find_port-report}
use nervum.Planning.Reach.{after, IsTagged, rest_steps-local, rest_steps-fine}
use nervum.Planning.Tunnels.{owner_ids-IsDict}

module _ (network : Network) (vni : ℕ) (h : Host) where
  settled_drifts :
      (o : Option Bridge)
      → bridge_drifts (opt_map report_of o) network ≡ false
      → (br : Bridge) × (o ≡ some br)
        × (str_eq br.datapath_type "system" ≡ true)
        × (dict_eq br.external_ids (owner_ids network) ≡ true)
  unfolding bridge_drifts bridge_changed
  settled_drifts none e = cc e
  settled_drifts (some br) e = (br, refl, ground arith, ground arith)

  pub bridge_steps_stage :
      (drifts : Bool)
      → bridge_drifts (opt_map report_of (lookup (bridge_name network) h.bridges)) network ≡ drifts
      → IsTagged network vni (
          after
            (bridge_steps (opt_map report_of (lookup (bridge_name network) h.bridges)) network)
            h)
        × HasTagged
            (bridge_name network)
            h.bridges
            (after
              (bridge_steps (opt_map report_of (lookup (bridge_name network) h.bridges)) network)
              h).bridges
  unfolding bridge_steps apply_step
  bridge_steps_stage true e =
      let (br, found, type, ids) =
        ensure_bridge-settles (bridge_name network) "system" (owner_ids network) h.bridges
          (owner_ids-IsDict network) in
      rw (e, bridge_steps)
        (
          (
            br,
            found,
            type,
            dict_eq-sort_items br.external_ids (owner_ids network) (owner_ids-IsDict network) ids,
          ),
          ensure_bridge-HasTagged (bridge_name network) "system" (owner_ids network) h.bridges,
        )
  bridge_steps_stage false e =
      let (br, found, type, ids) = settled_drifts (lookup (bridge_name network) h.bridges) e in
      rw (e, bridge_steps) ((br, found, type, ids), ((λ n. refl), λ k ne. refl))

-- A tagged bridge needs no step.
pub tagged_no_steps :
    (network : Network) (vni : ℕ) (h : Host)
    → IsTagged network vni h
    → bridge_steps (opt_map report_of (lookup (bridge_name network) h.bridges)) network ≡ []
unfolding bridge_steps bridge_drifts bridge_changed
tagged_no_steps network vni h (br, found, type, ids) =
    rw (found, bridge_steps) (rw (type, ids, bridge_drifts, bridge_changed) refl)

pub find_port-ports_of :
    (o : Option Bridge) (name key : String)
    → ((br : Bridge) → o ≡ some br → IsBridge key br)
    → find_port (opt_map report_of o) name ≡ opt_map port_report (ports_of o name)
unfolding find_port
find_port-ports_of none name key w = refl
find_port-ports_of (some br) name key w = find_port-report name br ((w br refl).1)

pub fine_no_steps :
    (network : Network) (vni : ℕ) (local : String) (bridge : Option ObservedBridge)
    (ps : List NodeAddress)
    → All
        (λ p.
          str_eq p.node_id local ≡ false
          → tunnel_drifts (find_port bridge (vxlan_port_name vni p)) network vni p ≡ false)
        ps
    → tunnel_steps network vni local bridge ps ≡ []
unfolding tunnel_steps
fine_no_steps network vni local bridge [] fine = refl
fine_no_steps network vni local bridge (q ∷ ps) fine =
    let rest = fine_no_steps network vni local bridge ps fine.1 in
    elim (Bool-cases (str_eq q.node_id local)) [
      | inl e ↦ rest_steps-local network vni local bridge q ps e ∙ rest
      | inr e ↦ rest_steps-fine network vni local bridge q ps e (fine.0 e) ∙ rest
    ]

all-append :
    (ss ts : List PlanStep)
    → all is_edge_step ss ≡ true
    → all is_edge_step ts ≡ true
    → all is_edge_step (ss ++ ts) ≡ true
all-append [] ts h g = g
all-append (s ∷ ss) ts h g = ground (arith, all-append ss ts)

all-dhcp_steps :
    (network : Network) (o : Option Subnet) → all is_edge_step (dhcp_steps network o) ≡ true
unfolding dhcp_steps
all-dhcp_steps network none = refl
all-dhcp_steps network (some s) = ground arith

all-dns_steps : (o : Option Subnet) → all is_edge_step (dns_steps o) ≡ true
unfolding dns_steps
all-dns_steps none = refl
all-dns_steps (some s) = ground arith

all-nat_steps :
    (network : Network) (n : Option NatSpec) (o : Option Subnet)
    → all is_edge_step (nat_steps network n o) ≡ true
unfolding nat_steps
all-nat_steps network none o = refl
all-nat_steps network (some n) none = refl
all-nat_steps network (some n) (some s) = refl

all-policy_steps :
    (network : Network) (o : Option FirewallPolicy)
    → all is_edge_step (policy_steps network o) ≡ true
unfolding policy_steps
all-policy_steps network none = refl
all-policy_steps network (some p) = refl

pub all-edge_service_steps :
    (network : Network) → all is_edge_step (edge_service_steps network) ≡ true
unfolding edge_service_steps
all-edge_service_steps network =
    all-append (dhcp_steps network network.subnet) _ (all-dhcp_steps network network.subnet) (
      all-append (dns_steps network.subnet) _ (all-dns_steps network.subnet) (
        all-append (nat_steps network network.nat network.subnet) _
          (all-nat_steps network network.nat network.subnet)
          (all-policy_steps network network.firewall_policy)))

edge_step-bridges :
    (s : PlanStep) (h : Host)
    → is_edge_step s ≡ true
    → (left_by h (apply_step s h)).bridges ≡ h.bridges
unfolding apply_step
edge_step-bridges (ensure_dhcp_scope_step _) h e = refl
edge_step-bridges (ensure_dns_zone_step _) h e = refl
edge_step-bridges (ensure_nat_rule_step _) h e = refl
edge_step-bridges (ensure_firewall_policy_step _) h e = refl
edge_step-bridges _ h e = cc

-- Edge steps leave the bridges alone.
pub after-bridges :
    (ss : List PlanStep) (h : Host) → all is_edge_step ss ≡ true → (after ss h).bridges ≡ h.bridges
after-bridges [] h e = refl
after-bridges (s ∷ ss) h e =
    after-bridges ss (left_by h (apply_step s h)) (&&_right (is_edge_step s) _ e)
    ∙ edge_step-bridges s h (&&_left _ (all is_edge_step ss) e)

pub any-edge_steps :
    (ss : List PlanStep) → all is_edge_step ss ≡ true → any (λ s. not (is_edge_step s)) ss ≡ false
any-edge_steps [] e = refl
any-edge_steps (s ∷ ss) e = ground (arith, any-edge_steps ss)
