-- ===== src/Ovs/Dumps.antt =====
-- What the agent reports of its OVS database: `to_state` of src/netos_agent/adapters/
-- ovsdb_fake/adapter.py and the records of src/netos_agent/core/entities/ovs_state.py.
use nervum.Prelude.{ℕ, String, Option, List, map, Dict, values}
use nervum.Ovs.{Interface, Port, Bridge, Bridges, sort_trunks}

pub record InterfaceState : Type 0 where
  pub name : String
  pub type : String
  pub options : Dict String
  pub admin_state : String

pub record PortState : Type 0 where
  pub name : String
  pub interfaces : List InterfaceState
  pub tag : Option ℕ
  pub trunks : List ℕ
  pub external_ids : Dict String

pub record BridgeState : Type 0 where
  pub name : String
  pub datapath_type : String
  pub ports : List PortState
  pub external_ids : Dict String

pub record OvsState : Type 0 where
  pub ovs_version : Option String
  pub bridges : List BridgeState

abbrev pub interface_state : Interface → InterfaceState
interface_state i = record { name = i.name; type = i.type; options = i.options; admin_state = "up" }

abbrev pub port_state : Port → PortState
port_state p = record {
  name = p.name;
  interfaces = map interface_state (values p.interfaces);
  tag = p.tag;
  trunks = sort_trunks p.trunks;
  external_ids = p.external_ids;
}

abbrev pub bridge_state : Bridge → BridgeState
bridge_state b = record {
  name = b.name;
  datapath_type = b.datapath_type;
  ports = map port_state (values b.ports);
  external_ids = b.external_ids;
}

-- `_to_state`
unfoldable pub to_state : Option String → Bridges → OvsState
to_state version bridges = record {
  ovs_version = version;
  bridges = map bridge_state (values bridges);
}
