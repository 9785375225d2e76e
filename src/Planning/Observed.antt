-- ===== src/Planning/Observed.antt =====
-- The controller's copy of a node's OVS state: src/sdn_controller/core/entities/observed_state.py,
-- made from the agent's report by the conversions of src/sdn_controller/core/use_cases/reconcile.py.
-- A moment is a natural number; the hash of a report is an argument.
use nervum.Prelude.{ℕ, String, Option, none, some, List, [], ◌∷◌, map, str_eq, Dict, if◌then◌else◌}
use nervum.Ovs.Dumps.{InterfaceState, PortState, BridgeState, OvsState}

pub record ObservedInterface : Type 0 where
  pub name : String
  pub type : String
  pub options : Dict String

pub record ObservedPort : Type 0 where
  pub name : String
  pub interfaces : List ObservedInterface
  pub tag : Option ℕ
  pub trunks : List ℕ
  pub external_ids : Dict String

pub record ObservedBridge : Type 0 where
  pub name : String
  pub datapath_type : String
  pub ports : List ObservedPort
  pub external_ids : Dict String

pub record ObservedState : Type 0 where
  pub node_id : String
  pub observed_at : ℕ
  pub state_hash : String
  pub bridges : List ObservedBridge

abbrev pub find_named : List ObservedBridge → String → Option ObservedBridge
find_named [] name = none
find_named (b ∷ bs) name = if str_eq b.name name then some b else find_named bs name

unfoldable pub find_bridge : ObservedState → String → Option ObservedBridge
find_bridge observed name = find_named observed.bridges name

abbrev pub interface_to_observed : InterfaceState → ObservedInterface
interface_to_observed i = record { name = i.name; type = i.type; options = i.options }

abbrev pub port_view_to_observed : PortState → ObservedPort
port_view_to_observed p = record {
  name = p.name;
  interfaces = map interface_to_observed p.interfaces;
  tag = p.tag;
  trunks = p.trunks;
  external_ids = p.external_ids;
}

abbrev pub bridge_view_to_observed : BridgeState → ObservedBridge
bridge_view_to_observed b = record {
  name = b.name;
  datapath_type = b.datapath_type;
  ports = map port_view_to_observed b.ports;
  external_ids = b.external_ids;
}

unfoldable pub state_view_to_observed : String → OvsState → String → ℕ → ObservedState
state_view_to_observed node_id view state_hash observed_at = record {
  node_id = node_id;
  observed_at = observed_at;
  state_hash = state_hash;
  bridges = map bridge_view_to_observed view.bridges;
}
