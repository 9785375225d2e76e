-- ===== src/Planning.antt =====
-- What the controller asks of a node: src/sdn_controller/core/services/diff_engine.py and
-- src/sdn_controller/core/services/planner.py, over the state that a node reported
-- (core/entities/observed_state.py, and the conversions at the end of core/use_cases/reconcile.py).
-- The steps are those of the agent, which the controller mirrors class by class.
pub mod Observed
pub mod EdgeSteps
pub mod Planner
pub mod Reports
pub mod Tunnels
pub mod Reach
pub mod Peers
pub mod Sweep
pub mod Stages
pub mod Convergence
pub mod Compliance
pub mod Collision
pub mod Fanout
unfoldable pub use nervum.Planning.EdgeSteps.{
  dhcp_scope_id, nat_rule_id, firewall_policy_id, dhcp_steps, dns_steps, nat_steps, policy_steps,
  edge_service_steps,
}
use nervum.Prelude.{
  ℕ, String, Bool, true, false, not, ◌&&◌, ◌||◌, Option, none, some, List, [], ◌∷◌, ◌++◌, map, any,
  filter, str_eq, is_empty, is_some, Dict, lookup, dict_eq, has_value, decimal, last_chars, ◌+++◌,
  if◌then◌else◌,
}
use nervum.EdgeServices.{FirewallRule, NatSpec, FirewallPolicy, DhcpSpec}
use nervum.AgentServices.{
  DhcpScopeSpec, DnsZoneSpec, NatRuleSpec, FirewallRuleSpec, FirewallPolicySpec,
}
use nervum.Ipam.{Subnet}
use nervum.Network.{Network, NetworkType, vxlan, member}
use nervum.Ovs.{VxlanSpec, with_option}
use nervum.Agent.{
  PlanStep, ensure_bridge_step, delete_bridge_step, ensure_vxlan_port_step, ensure_dhcp_scope_step,
  ensure_dns_zone_step, ensure_nat_rule_step, ensure_firewall_policy_step,
}
use nervum.Planning.Observed.{
  ObservedInterface, ObservedPort, ObservedBridge, ObservedState, find_bridge,
}

pub record NodeAddress : Type 0 where
  pub node_id : String
  pub mgmt_ip : String

unfoldable pub bridge_name : Network → String
bridge_name network = "br-" +++ network.name

unfoldable pub vxlan_port_name : ℕ → NodeAddress → String
vxlan_port_name vni remote = "vx-" +++ decimal vni +++ "-" +++ last_chars 6 remote.node_id

abbrev pub heads : List String → String → Bool
heads [] x = false
heads (y ∷ _) x = str_eq y x

unfoldable pub is_edge_node : Network → String → Bool
is_edge_node network local = heads network.node_ids local

-- `{OWNER_KEY: OWNER_LABEL, NETWORK_KEY: network.id}`
abbrev pub owner_ids : Network → Dict String
owner_ids network = ("owner", "sdn-controller") ∷ ("network_id", network.id) ∷ []

unfoldable pub bridge_changed : ObservedBridge → String → Dict String → Bool
bridge_changed b datapath ids =
    not (str_eq b.datapath_type datapath) || not (dict_eq b.external_ids ids)

unfoldable find_in : List ObservedPort → String → Option ObservedPort
find_in [] name = none
find_in (p ∷ ps) name = if str_eq p.name name then some p else find_in ps name

unfoldable pub find_port : Option ObservedBridge → String → Option ObservedPort
unfolding find_in
find_port none name = none
find_port (some b) name = find_in b.ports name

unfoldable pub vxlan_options : Network → ℕ → NodeAddress → Dict String
vxlan_options network vni peer =
    ("dst_port", "4789")
    ∷ ("key", decimal vni)
    ∷ ("remote_ip", peer.mgmt_ip)
    ∷ ("mtu_request", decimal network.mtu)
    ∷ []

-- `any(observed.get(k) != v for k, v in desired.items())`
abbrev pub any_differs : Dict String → Dict String → Bool
any_differs [] observed = false
any_differs ((k, v) ∷ desired) observed =
    not (has_value (lookup k observed) v) || any_differs desired observed

unfoldable pub interface_changed : List ObservedInterface → Dict String → Bool
interface_changed [] options = true
interface_changed (i ∷ _) options = not (str_eq i.type "vxlan") || any_differs options i.options

unfoldable pub vxlan_port_changed : ObservedPort → Dict String → Dict String → Bool
unfolding interface_changed
vxlan_port_changed p options ids =
    not (dict_eq p.external_ids ids) || interface_changed p.interfaces options

unfoldable pub tunnel_spec : Network → ℕ → NodeAddress → VxlanSpec
tunnel_spec network vni peer = record {
  name = vxlan_port_name vni peer;
  vni = vni;
  remote_ip = peer.mgmt_ip;
  local_ip = none;
  dst_port = 4789;
  mtu = some network.mtu;
  external_ids = owner_ids network;
}

-- `observed_port is None or _vxlan_port_changed(...)`
unfoldable pub tunnel_drifts : Option ObservedPort → Network → ℕ → NodeAddress → Bool
unfolding vxlan_port_changed
tunnel_drifts none network vni peer = true
tunnel_drifts (some p) network vni peer =
    vxlan_port_changed p (vxlan_options network vni peer) (owner_ids network)

-- The loop over the peers.
unfoldable pub tunnel_steps :
    Network → ℕ → String → Option ObservedBridge → List NodeAddress → List PlanStep
unfolding tunnel_drifts
tunnel_steps network vni local bridge [] = []
tunnel_steps network vni local bridge (peer ∷ peers) =
    let rest = tunnel_steps network vni local bridge peers in
    let drifts = tunnel_drifts (find_port bridge (vxlan_port_name vni peer)) network vni peer in
    if str_eq peer.node_id local
    then rest
    else if drifts
    then ensure_vxlan_port_step (bridge_name network) (tunnel_spec network vni peer) ∷ rest
    else rest

-- `if network.type is NetworkType.VXLAN and network.vni is not None`
unfoldable pub vxlan_steps :
    NetworkType
    → Option ℕ
    → Network
    → String
    → Option ObservedBridge
    → List NodeAddress
    → List PlanStep
vxlan_steps vxlan (some vni) network local bridge peers =
    tunnel_steps network vni local bridge peers
vxlan_steps _ _ network local bridge peers = []

-- `observed_bridge is None or _bridge_changed(...)`
unfoldable pub bridge_drifts : Option ObservedBridge → Network → Bool
unfolding bridge_changed
bridge_drifts none network = true
bridge_drifts (some b) network = bridge_changed b "system" (owner_ids network)

unfoldable pub bridge_steps : Option ObservedBridge → Network → List PlanStep
unfolding bridge_drifts
bridge_steps bridge network =
    if bridge_drifts bridge network
    then ensure_bridge_step (bridge_name network) "system" (owner_ids network) ∷ []
    else []

-- `b.external_ids.get(NETWORK_KEY) == network.id`
abbrev pub is_owned : Network → ObservedBridge → Bool
is_owned network b = has_value (lookup "network_id" b.external_ids) network.id

-- `[DeleteBridgeStep(name=b.name) for b in bridges if marked(b)]`
abbrev pub deletes : (ObservedBridge → Bool) → List ObservedBridge → List PlanStep
deletes marked [] = []
deletes marked (b ∷ bs) =
    let rest = deletes marked bs in if marked b then delete_bridge_step b.name ∷ rest else rest

-- A bridge of the network that has another name.
abbrev pub is_stale : Network → ObservedBridge → Bool
is_stale network b = is_owned network b && not (str_eq b.name (bridge_name network))

abbrev pub stale_steps : Network → List ObservedBridge → List PlanStep
stale_steps network = deletes (is_stale network)

abbrev pub cleanup_for_network : Network → List ObservedBridge → List PlanStep
cleanup_for_network network = deletes (is_owned network)

unfoldable pub diff_for_node : Network → String → List NodeAddress → ObservedState → List PlanStep
diff_for_node network local peers observed =
    let bridge = find_bridge observed (bridge_name network) in
    let structural =
      bridge_steps bridge network
      ++ (vxlan_steps network.type network.vni network local bridge peers
          ++ stale_steps network observed.bridges) in
    if not (member local network.node_ids)
    then cleanup_for_network network observed.bridges
    else structural ++ (if is_edge_node network local then edge_service_steps network else [])

-- `isinstance(s, _EDGE_STEP_TYPES)`
abbrev pub is_edge_step : PlanStep → Bool
is_edge_step (ensure_dhcp_scope_step _) = true
is_edge_step (ensure_dns_zone_step _) = true
is_edge_step (ensure_nat_rule_step _) = true
is_edge_step (ensure_firewall_policy_step _) = true
is_edge_step _ = false

unfoldable pub is_in_compliance : Network → String → List NodeAddress → ObservedState → Bool
is_in_compliance network local peers observed =
    not (any (λ s. not (is_edge_step s)) (diff_for_node network local peers observed))
