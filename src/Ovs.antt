-- ===== src/Ovs.antt =====
-- The agent's OVS database in memory, src/netos_agent/adapters/ovsdb_fake/adapter.py: bridges,
-- their ports, and the calls of `OvsdbPort`. An `ensure_…` and a `delete_…` return whether they
-- changed something, and the database that is left.
pub mod Dumps
pub mod Snapshots
pub mod Restored
pub mod Saves
pub mod Database
pub mod Idempotence
pub mod Effects
use nervum.Prelude.{
  ℕ, String, Bool, true, false, not, ◌&&◌, ◌||◌, Option, none, some, List, [], ◌∷◌, ◌++◌, map, leb,
  is_some, str_eq, Dict, lookup, contains, insert, erase, values, sort_items, dict_eq, decimal,
  opt_eq, nats_eq, all, if◌then◌else◌,
}
use nervum.Errors.{Result, ok, err, not_found}

-- `_InterfaceMut`, `_PortMut` and `_BridgeMut`
pub record Interface : Type 0 where
  pub name : String
  pub type : String
  pub options : Dict String

pub record Port : Type 0 where
  pub name : String
  pub tag : Option ℕ
  pub trunks : List ℕ
  pub external_ids : Dict String
  pub interfaces : Dict Interface

pub record Bridge : Type 0 where
  pub name : String
  pub datapath_type : String
  pub external_ids : Dict String
  pub ports : Dict Port

-- `_bridges`
abbrev pub Bridges : Type 0
Bridges = Dict Bridge

insert_trunk : ℕ → List ℕ → List ℕ
insert_trunk n [] = n ∷ []
insert_trunk n (m ∷ ms) = if leb n m then n ∷ m ∷ ms else m ∷ insert_trunk n ms

-- `tuple(sorted(trunks))`
unfoldable pub sort_trunks : List ℕ → List ℕ
unfolding insert_trunk
sort_trunks [] = []
sort_trunks (n ∷ ns) = insert_trunk n (sort_trunks ns)

abbrev pub new_bridge : String → String → Dict String → Bridge
new_bridge name datapath_type ids = record {
  name = name;
  datapath_type = datapath_type;
  external_ids = ids;
  ports = [];
}

-- The attributes of a bridge that exists.
unfoldable update_bridge : Option Bridge → String → String → Dict String → Bridges → Bool × Bridges
update_bridge none name datapath_type ids bridges =
    (true, insert name (new_bridge name datapath_type ids) bridges)
update_bridge (some existing) name datapath_type ids bridges =
    let other_type = not (str_eq existing.datapath_type datapath_type) in
    let other_ids = not (dict_eq existing.external_ids ids) in
    let retyped =
      if other_type then record existing { datapath_type = datapath_type } else existing in
    let updated = if other_ids then record retyped { external_ids = ids } else retyped in
    let changed = other_type || other_ids in
    (changed, if changed then insert name updated bridges else bridges)

unfoldable pub ensure_bridge : String → String → Dict String → Bridges → Bool × Bridges
unfolding update_bridge
ensure_bridge name datapath_type external_ids bridges =
    update_bridge (lookup name bridges) name datapath_type (sort_items external_ids) bridges

unfoldable pub delete_bridge : String → Bridges → Bool × Bridges
delete_bridge name bridges = (contains name bridges, erase name bridges)

unfoldable pub require_bridge : String → Bridges → Result Bridge
require_bridge name bridges = elim (lookup name bridges) [ none ↦ err not_found | some b ↦ ok b ]

unfoldable pub same_interface : Option Interface → Interface → Bool
same_interface none a = false
same_interface (some b) a = str_eq a.type b.type && dict_eq a.options b.options

-- Every interface of the first port is in the second, with its type and its options; the key sets
-- are compared first.
abbrev pub interfaces_in : Dict Interface → Dict Interface → Bool
interfaces_in [] c = true
interfaces_in ((k, a) ∷ d) c = same_interface (lookup k c) a && interfaces_in d c

abbrev pub keys_in : Dict Interface → Dict Interface → Bool
keys_in [] c = true
keys_in ((k, _) ∷ d) c = contains k c && keys_in d c

unfoldable pub ports_equal : Port → Port → Bool
ports_equal a b =
    opt_eq a.tag b.tag
    && nats_eq a.trunks b.trunks
    && dict_eq a.external_ids b.external_ids
    && (keys_in a.interfaces b.interfaces && keys_in b.interfaces a.interfaces)
    && interfaces_in a.interfaces b.interfaces

-- The arguments of `ensure_port` below the bridge.
pub record PortSpec : Type 0 where
  pub name : String
  pub type : String
  pub options : Dict String
  pub tag : Option ℕ
  pub trunks : List ℕ
  pub external_ids : Dict String

unfoldable pub new_port : PortSpec → Port
new_port spec = record {
  name = spec.name;
  tag = spec.tag;
  trunks = sort_trunks spec.trunks;
  external_ids = sort_items spec.external_ids;
  interfaces =
      (spec.name, record { name = spec.name; type = spec.type; options = sort_items spec.options })
      ∷ [];
}

-- `existing is not None and _ports_equal(existing, new)`
unfoldable pub already_there : Option Port → Port → Bool
unfolding ports_equal
already_there none new = false
already_there (some existing) new = ports_equal existing new

unfoldable put_port : Result Bridge → String → PortSpec → Bridges → Result (Bool × Bridges)
unfolding already_there
put_port (err e) bridge spec bridges = err e
put_port (ok br) bridge spec bridges =
    let new = new_port spec in
    let same = already_there (lookup spec.name br.ports) new in
    let written = record br { ports = insert spec.name new br.ports } in
    ok (not same, if same then bridges else insert bridge written bridges)

unfoldable pub ensure_port : String → PortSpec → Bridges → Result (Bool × Bridges)
unfolding put_port
ensure_port bridge spec bridges = put_port (require_bridge bridge bridges) bridge spec bridges

unfoldable drop_port : Result Bridge → String → String → Bridges → Result (Bool × Bridges)
drop_port (err e) bridge name bridges = err e
drop_port (ok br) bridge name bridges =
    ok (contains name br.ports, insert bridge (record br { ports = erase name br.ports }) bridges)

unfoldable pub delete_port : String → String → Bridges → Result (Bool × Bridges)
unfolding drop_port
delete_port bridge name bridges = drop_port (require_bridge bridge bridges) bridge name bridges

-- `if x is not None: options[k] = …`
abbrev pub with_option : String → Option String → Dict String → Dict String
with_option k none d = d
with_option k (some v) d = insert k v d

pub record VxlanSpec : Type 0 where
  pub name : String
  pub vni : ℕ
  pub remote_ip : String
  pub local_ip : Option String
  pub dst_port : ℕ
  pub mtu : Option ℕ
  pub external_ids : Dict String

abbrev pub opt_decimal : Option ℕ → Option String
opt_decimal none = none
opt_decimal (some n) = some (decimal n)

unfoldable pub tunnel_options : VxlanSpec → Dict String
tunnel_options spec = with_option "mtu_request" (opt_decimal spec.mtu) (
    with_option "local_ip" spec.local_ip (
      ("key", decimal spec.vni)
      ∷ ("remote_ip", spec.remote_ip)
      ∷ ("dst_port", decimal spec.dst_port)
      ∷ []))

abbrev pub vxlan_port : VxlanSpec → PortSpec
vxlan_port spec = record {
  name = spec.name;
  type = "vxlan";
  options = tunnel_options spec;
  tag = none;
  trunks = [];
  external_ids = spec.external_ids;
}

unfoldable pub ensure_vxlan_port : String → VxlanSpec → Bridges → Result (Bool × Bridges)
ensure_vxlan_port bridge spec bridges = ensure_port bridge (vxlan_port spec) bridges
