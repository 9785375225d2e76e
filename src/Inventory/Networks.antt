-- ===== src/Inventory/Networks.antt =====
-- The network use cases: src/sdn_controller/core/use_cases/networks.py.
use nervum.Prelude.{
  ℕ, String, Bool, true, false, not, ◌&&◌, ◌||◌, Option, none, some, List, [], ◌∷◌, ◌==◌, any,
  filter_values, values, str_eq, opt_str_eq, opt_eq, strs_eq, dict_eq, is_empty, is_blank, strip,
  decimal, Dict, lookup, if◌then◌else◌, ◌+++◌, is_some,
}
use nervum.Errors.{
  Result, ok, validation_error, conflict, not_found, raise_if, or_raise, for_each, ◌>>=◌, ◌>>◌,
}
use nervum.Operation.{Operation, network_create, network_update}
use nervum.EdgeServices.{NatSpec, FirewallPolicy, FirewallRule}
use nervum.AgentServices.{action_eq, proto_number}
use nervum.Address.{IpSyntax}
use nervum.Ipam.{Subnet, make_subnet}
use nervum.Node.{Node}
use nervum.Network.{Network, NetworkType, Canonical, post_init, validate, bump_intent, set_nodes}
use nervum.Inventory.{
  quoted_list, quoted, Inventory, record_operation, stages_of, save_network, save_operation,
  publish,
}

-- `SubnetSpec`
pub record SubnetArgs : Type 0 where
  pub cidr : String
  pub gateway : Option String

pub record CreateNetworkCommand : Type 0 where
  pub name : String
  pub type : NetworkType
  pub mtu : ℕ
  pub vlan_id : Option ℕ
  pub vni : Option ℕ
  pub project_id : Option String
  pub subnet : Option SubnetArgs
  pub labels : Dict String
  pub node_ids : List String
  pub created_by : Option String

pub record UpdateNetworkCommand : Type 0 where
  pub mtu : Option ℕ
  pub subnet : Option SubnetArgs
  pub labels : Option (Dict String)
  pub nat : Option NatSpec
  pub firewall_policy : Option FirewallPolicy
  pub updated_by : Option String

pub record AssignNodesCommand : Type 0 where
  pub node_ids : List String
  pub updated_by : Option String

-- `Subnet(id=…, cidr=…, gateway=…)`, whose other fields have their defaults
abbrev pub plain_subnet : IpSyntax → String → SubnetArgs → Result Subnet
plain_subnet ip id args = make_subnet ip (record {
  id = id;
  cidr = args.cidr;
  gateway = args.gateway;
  dns_servers = [];
  allocation_pools = [];
  reserved_ranges = [];
  dhcp = none;
  dns_zone = none;
})

abbrev pub optional_subnet : IpSyntax → String → Option SubnetArgs → Result (Option Subnet)
optional_subnet ip id none = ok none
optional_subnet ip id (some args) = plain_subnet ip id args >>= λ subnet. ok (some subnet)

-- `network.name == name and network.project_id == cmd.project_id`
abbrev pub is_named : String → Option String → Network → Bool
is_named name project_id n = str_eq n.name name && opt_str_eq n.project_id project_id

-- The fields of the new network, before `__post_init__`.
abbrev pub draft_network : CreateNetworkCommand → String → Option Subnet → ℕ → Network
draft_network cmd network_id subnet now = record {
  id = network_id;
  name = strip cmd.name;
  type = cmd.type;
  created_at = now;
  updated_at = now;
  mtu = cmd.mtu;
  vlan_id = cmd.vlan_id;
  vni = cmd.vni;
  subnet = subnet;
  intent_version = 1;
  labels = cmd.labels;
  node_ids = cmd.node_ids;
  nat = none;
  firewall_policy = none;
  spec_hash = "";
  project_id = cmd.project_id;
}

-- Equality of the optional values of an update, `a == b`.
abbrev pub rule_eq : FirewallRule → FirewallRule → Bool
rule_eq a b =
    action_eq a.action b.action
    && (proto_number a.proto == proto_number b.proto
        && (opt_str_eq a.source_cidr b.source_cidr
            && (opt_str_eq a.destination_cidr b.destination_cidr
                && (opt_eq a.destination_port_start b.destination_port_start
                    && opt_eq a.destination_port_end b.destination_port_end))))

abbrev pub rules_eq : List FirewallRule → List FirewallRule → Bool
rules_eq [] [] = true
rules_eq [] (_ ∷ _) = false
rules_eq (_ ∷ _) [] = false
rules_eq (r ∷ rules) (s ∷ others) = rule_eq r s && rules_eq rules others

abbrev pub has_nat : Option NatSpec → NatSpec → Bool
has_nat none nat = false
has_nat (some old) nat = str_eq nat.egress_interface old.egress_interface

abbrev pub has_policy : Option FirewallPolicy → FirewallPolicy → Bool
has_policy none policy = false
has_policy (some old) policy =
    action_eq policy.default_action old.default_action && rules_eq policy.rules old.rules

abbrev pub has_subnet : Option Subnet → Subnet → Bool
has_subnet none subnet = false
has_subnet (some old) subnet = str_eq old.cidr subnet.cidr && opt_str_eq old.gateway subnet.gateway

abbrev pub id_or_new : Option Subnet → String → String
id_or_new none new_id = new_id
id_or_new (some s) new_id = s.id

-- The steps of `_apply_update`: the network, and whether it has changed so far.
abbrev pub set_mtu : Option ℕ → Bool × Network → Bool × Network
set_mtu none r = r
set_mtu (some mtu) (changed, n) =
    if mtu == n.mtu then (changed, n) else (true, record n { mtu = mtu })

abbrev pub replace_subnet : Subnet → Bool × Network → Bool × Network
replace_subnet subnet (changed, n) =
    if has_subnet n.subnet subnet then (changed, n) else (true, record n { subnet = some subnet })

abbrev pub set_subnet :
    IpSyntax → String → Option SubnetArgs → Bool × Network → Result (Bool × Network)
set_subnet ip new_id none r = ok r
set_subnet ip new_id (some args) (changed, n) =
    plain_subnet ip (id_or_new n.subnet new_id) args >>= λ subnet.
    ok (replace_subnet subnet (changed, n))

abbrev pub set_labels : Option (Dict String) → Bool × Network → Bool × Network
set_labels none r = r
set_labels (some labels) (changed, n) =
    if dict_eq labels n.labels then (changed, n) else (true, record n { labels = labels })

abbrev pub set_nat : Option NatSpec → Bool × Network → Bool × Network
set_nat none r = r
set_nat (some nat) (changed, n) =
    if has_nat n.nat nat then (changed, n) else (true, record n { nat = some nat })

abbrev pub set_policy : Option FirewallPolicy → Bool × Network → Bool × Network
set_policy none r = r
set_policy (some policy) (changed, n) =
    if has_policy n.firewall_policy policy
    then (changed, n)
    else (true, record n { firewall_policy = some policy })

-- `if changed: network._validate()`
abbrev pub revalidate : Bool × Network → Result (Bool × Network)
revalidate (false, n) = ok (false, n)
revalidate (true, n) = validate n >> ok (true, n)

-- `_apply_update`
unfoldable pub apply_update :
    IpSyntax → String → UpdateNetworkCommand → Network → Result (Bool × Network)
apply_update ip subnet_id cmd network = do
  r ← set_subnet ip subnet_id cmd.subnet (set_mtu cmd.mtu (false, network))
  revalidate (set_policy cmd.firewall_policy (set_nat cmd.nat (set_labels cmd.labels r)))

-- `if await self._nodes.get(node_id) is None: raise NotFoundError`
abbrev pub require_node : Dict Node → String → Result (Unit {0})
require_node nodes node_id = raise_if (not (is_some (lookup node_id nodes))) not_found

module _ (digest : Canonical → String) (ip : IpSyntax) where
  abbrev pub Saved : Type 0
  Saved = Network × Operation × Inventory

  -- `CreateNetwork.execute`
  unfoldable pub create_network :
      (ℕ → ℕ) → String → String → String → CreateNetworkCommand → Inventory → Result Saved
  create_network clock network_id subnet_id operation_id cmd inv = do
    raise_if (is_empty cmd.name || is_blank cmd.name) validation_error
    raise_if (any (is_named (strip cmd.name) cmd.project_id) (values inv.networks)) conflict
    subnet ← optional_subnet ip subnet_id cmd.subnet
    network ← post_init digest (draft_network cmd network_id subnet (clock 0))
    operation ←
        record_operation clock operation_id network_create "network" network_id cmd.created_by
          ("create network " +++ quoted network.name)
          (stages_of "store desired state" "persisting network record" "verifying persisted record"
            "network created")
    ok (
      network,
      operation,
      publish "network.created" "network" network.id
          (save_operation operation (save_network network inv)),
    )

  -- `if changed: network.bump_intent(now=now)`, and the event of a change
  abbrev pub bumped : Bool → ℕ → Network → Network
  bumped false now n = n
  bumped true now n = bump_intent digest now n

  abbrev pub publish_if : Bool → String → String → Inventory → Inventory
  publish_if false event_type id inv = inv
  publish_if true event_type id inv = publish event_type "network" id inv

  -- `UpdateNetwork.execute`
  unfoldable pub update_network :
      (ℕ → ℕ) → String → String → String → UpdateNetworkCommand → Inventory → Result Saved
  update_network clock subnet_id operation_id network_id cmd inv = do
    found ← or_raise (lookup network_id inv.networks) not_found
    r ← apply_update ip subnet_id cmd found
    let network = bumped r.0 (clock 0) r.1
    operation ←
        record_operation clock operation_id network_update "network" network_id cmd.updated_by
          ("update network " +++ quoted found.name)
          (stages_of "validating update" "persisting update" "verifying persisted record" (
            if r.0
            then "network updated (intent_version=" +++ decimal network.intent_version +++ ")"
            else "network unchanged (no-op)"))
    ok (
      network,
      operation,
      publish_if r.0 "network.updated" network.id
          (save_operation operation (save_network network inv)),
    )

  -- `if not same: network.set_nodes(…)`
  abbrev pub reassigned : List String → ℕ → Network → Result Network
  reassigned node_ids now n =
      if strs_eq n.node_ids node_ids then ok n else set_nodes digest node_ids now n

  -- `AssignNetworkToNodes.execute`
  unfoldable pub assign_nodes :
      (ℕ → ℕ) → String → String → AssignNodesCommand → Inventory → Result Saved
  assign_nodes clock operation_id network_id cmd inv = do
    found ← or_raise (lookup network_id inv.networks) not_found
    for_each (require_node inv.nodes) cmd.node_ids
    let same = strs_eq found.node_ids cmd.node_ids
    network ← reassigned cmd.node_ids (clock 0) found
    operation ←
        record_operation clock operation_id network_update "network" network_id cmd.updated_by
          ("assign nodes to network " +++ quoted found.name +++ ": " +++ quoted_list cmd.node_ids)
          (stages_of "validating node membership" "persisting node membership"
            "verifying persisted record"
            (if same then "membership unchanged" else "membership updated"))
    ok (
      network,
      operation,
      publish_if (not same) "network.nodes_assigned" network.id
          (save_operation operation (save_network network inv)),
    )

abbrev pub in_project : Option String → Network → Bool
in_project none n = true
in_project (some p) n = opt_str_eq n.project_id (some p)

-- `ListNetworks.execute`
unfoldable pub list_networks : Option String → Inventory → List Network
list_networks project_id inv = filter_values (in_project project_id) inv.networks

-- `GetNetwork.execute`
unfoldable pub get_network : String → Inventory → Result Network
get_network network_id inv = or_raise (lookup network_id inv.networks) not_found
