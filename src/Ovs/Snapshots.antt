-- ===== src/Ovs/Snapshots.antt =====
-- The snapshots of the OVS database in memory: `dump`, `restore`, and the `to_dict` and `from_dict`
-- of src/netos_agent/adapters/ovsdb_fake/adapter.py. A dumped object is a record whose fields are
-- the keys that it may lack; a value has the type that `to_dict` gives it.
use nervum.Prelude.{
  ℕ, String, Option, none, some, List, [], ◌∷◌, map, Dict, values, insert, sort_items, is_empty,
  if◌then◌else◌,
}
use nervum.Errors.{Result, ok, err, or_raise, validation_error, value_error, ◌>>=◌}
use nervum.Ovs.{Interface, Port, Bridge, Bridges}

-- `FakeOvsdb`
pub record Ovsdb : Type 0 where
  pub ovs_version : String
  pub bridges : Bridges

pub record InterfaceDump : Type 0 where
  pub name : Option String
  pub type : Option String
  pub options : Option (Dict String)

pub record PortDump : Type 0 where
  pub name : Option String
  pub tag : Option ℕ
  pub trunks : Option (List ℕ)
  pub external_ids : Option (Dict String)
  pub interfaces : Option (List InterfaceDump)

pub record BridgeDump : Type 0 where
  pub name : Option String
  pub datapath_type : Option String
  pub external_ids : Option (Dict String)
  pub ports : Option (List PortDump)

pub record Dump : Type 0 where
  pub ovs_version : Option String
  pub bridges : Option (List BridgeDump)

-- `to_dict`
abbrev pub interface_dump : Interface → InterfaceDump
interface_dump i = record { name = some i.name; type = some i.type; options = some i.options }

abbrev pub port_dump : Port → PortDump
port_dump p = record {
  name = some p.name;
  tag = p.tag;
  trunks = some p.trunks;
  external_ids = some p.external_ids;
  interfaces = some (map interface_dump (values p.interfaces));
}

abbrev pub bridge_dump : Bridge → BridgeDump
bridge_dump b = record {
  name = some b.name;
  datapath_type = some b.datapath_type;
  external_ids = some b.external_ids;
  ports = some (map port_dump (values b.ports));
}

-- `d.get(k, default)`, and `d.get(k) or default` where the default is empty
abbrev pub get_or {ℓ} : {A : Type ℓ} → A → Option A → A
get_or default none = default
get_or default (some a) = a

-- `{x["name"]: from_dict(x) for x in items}`, after what has been read: a name that is missing
-- raises a `KeyError`
unfoldable pub load_items :
    {D V : Type 0} → (D → Option String) → (D → Result V) → List D → Dict V → Result (Dict V)
load_items name_of load [] d = ok d
load_items name_of load (x ∷ xs) d = do
  name ← or_raise (name_of x) value_error
  v ← load x
  load_items name_of load xs (insert name v d)

-- `from_dict`
unfoldable pub load_interface : InterfaceDump → Result Interface
load_interface d = do
  name ← or_raise d.name validation_error
  ok (record { name = name; type = get_or "internal" d.type; options = get_or [] d.options })

unfoldable pub load_port : PortDump → Result Port
load_port d = do
  name ← or_raise d.name validation_error
  interfaces ← load_items (λ i. i.name) load_interface (get_or [] d.interfaces) []
  ok (record {
    name = name;
    tag = d.tag;
    trunks = get_or [] d.trunks;
    external_ids = sort_items (get_or [] d.external_ids);
    interfaces = interfaces;
  })

unfoldable pub load_bridge : BridgeDump → Result Bridge
load_bridge d = do
  name ← or_raise d.name validation_error
  ports ← load_items (λ p. p.name) load_port (get_or [] d.ports) []
  ok (record {
    name = name;
    datapath_type = get_or "system" d.datapath_type;
    external_ids = sort_items (get_or [] d.external_ids);
    ports = ports;
  })

-- `FakeOvsdb.dump`
unfoldable pub dump : Ovsdb → Dump
dump db = record {
  ovs_version = some db.ovs_version;
  bridges = some (map bridge_dump (values db.bridges));
}

-- `str(payload.get("ovs_version") or self._ovs_version)`
abbrev pub version_or : String → Option String → String
version_or old none = old
version_or old (some new) = if is_empty new then old else new

-- `FakeOvsdb.restore`: whether it raised, and the database that is left. The version is replaced
-- first, and the bridges only when all of them could be read.
abbrev pub restored_bridges : Ovsdb → String → Result Bridges → Result (Unit {0}) × Ovsdb
restored_bridges db version (ok bridges) =
    (ok tt, record { ovs_version = version; bridges = bridges })
restored_bridges db version (err e) = (err e, record db { ovs_version = version })

unfoldable pub restore : Dump → Ovsdb → Result (Unit {0}) × Ovsdb
restore payload db =
    restored_bridges db (version_or db.ovs_version payload.ovs_version)
      (load_items (λ b. b.name) load_bridge (get_or [] payload.bridges) [])
