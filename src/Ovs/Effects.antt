-- ===== src/Ovs/Effects.antt =====
-- What `ensure_port` leaves behind on a bridge that exists
-- (src/netos_agent/adapters/ovsdb_fake/adapter.py).
use nervum.Prelude.{
  sym, ◌∙◌, ap, ◌≡◌, ◌≢◌, refl, String, Bool, true, false, Option, none, some, Dict, IsDict, lookup,
  insert, lookup-insert_self, lookup-insert_ne, Bool-cases, inl, inr,
}
use nervum.Errors.{ok}
use nervum.Ovs.{
  dict_eq, str_eq, new_bridge, sort_items, ensure_bridge, update_bridge, Bridge, Bridges, Port,
  PortSpec, ensure_port, new_port, ports_equal, already_there,
}
use nervum.Ovs.Idempotence.{written, ensure_port-same, ensure_port-written, ports_equal-new_port}

already_there_holds :
    (o : Option Port) (p : Port)
    → already_there o p ≡ true
    → (q : Port) × (o ≡ some q) × (ports_equal q p ≡ true)
unfolding already_there
already_there_holds none p h = cc h
already_there_holds (some q) p h = (q, refl, h)

-- The bridge has the port, up to `_ports_equal`, its other ports and attributes are as they were,
-- and so are the other bridges.
pub record HasWritten (bridge : String) (spec : PortSpec) (br : Bridge) (bridges after : Bridges)
    : Type 0 where
  pub next : Bridge
  pub found : lookup bridge after ≡ some next
  pub typed : next.datapath_type ≡ br.datapath_type
  pub tagged : next.external_ids ≡ br.external_ids
  pub port : Port
  pub there : lookup spec.name next.ports ≡ some port
  pub right : ports_equal port (new_port spec) ≡ true
  pub others : (k : String) → spec.name ≢ k → lookup k next.ports ≡ lookup k br.ports
  pub elsewhere : (k : String) → bridge ≢ k → lookup k after ≡ lookup k bridges

module _ (bridge : String) (spec : PortSpec) (br : Bridge) (bridges : Bridges) where
  pub ensure_port-HasWritten :
      IsDict spec.options
      → IsDict spec.external_ids
      → lookup bridge bridges ≡ some br
      → (changed : Bool) × (after : Bridges) × (ensure_port bridge spec bridges
          ≡ ok (changed, after))
        × HasWritten bridge spec br bridges after
  ensure_port-HasWritten h i found =
      elim (Bool-cases (already_there (lookup spec.name br.ports) (new_port spec))) [
        | inl same ↦
            let (port, there, right) =
              already_there_holds (lookup spec.name br.ports) (new_port spec) same in
            (
              false,
              bridges,
              ensure_port-same bridge spec bridges br found same,
              record {
                next = br;
                found = found;
                typed = refl;
                tagged = refl;
                port = port;
                there = there;
                right = right;
                others = λ k ne. refl;
                elsewhere = λ k ne. refl;
              },
            )
        | inr same ↦ (
          true,
          insert bridge (written spec br) bridges,
          ensure_port-written bridge spec bridges br found same,
          record {
            next = written spec br;
            found = lookup-insert_self bridge (written spec br) bridges;
            typed = refl;
            tagged = refl;
            port = new_port spec;
            there = lookup-insert_self spec.name (new_port spec) br.ports;
            right = ports_equal-new_port spec h i;
            others = λ k ne. lookup-insert_ne spec.name k (new_port spec) br.ports ne;
            elsewhere = λ k ne. lookup-insert_ne bridge k (written spec br) bridges ne;
          },
        )
      ]

abbrev pub ports_of : Option Bridge → String → Option Port
ports_of none name = none
ports_of (some br) name = lookup name br.ports

-- `ensure_bridge` touches no port, and no bridge of another name.
abbrev pub HasTagged : String → Bridges → Bridges → Type 0
HasTagged name bridges after =
    ((n : String) → ports_of (lookup name after) n ≡ ports_of (lookup name bridges) n)
    × ((k : String) → name ≢ k → lookup k after ≡ lookup k bridges)

insert-HasTagged :
    (name : String) (br : Bridge) (bridges : Bridges)
    → ((n : String) → lookup n br.ports ≡ ports_of (lookup name bridges) n)
    → HasTagged name bridges (insert name br bridges)
insert-HasTagged name br bridges h = (
  (λ n. ap (λ b. ports_of b n) (lookup-insert_self name br bridges) ∙ h n),
  λ k ne. lookup-insert_ne name k br bridges ne,
)

update_bridge-HasTagged :
    (found : Option Bridge) (name type : String) (ids : Dict String) (bridges : Bridges)
    → lookup name bridges ≡ found
    → HasTagged name bridges ((update_bridge found name type ids bridges).1)
unfolding update_bridge
update_bridge-HasTagged none name type ids bridges e =
    insert-HasTagged name (new_bridge name type ids) bridges (λ n. sym (ap (λ b. ports_of b n) e))
update_bridge-HasTagged (some br) name type ids bridges e =
    let same : (n : String) → lookup n br.ports ≡ ports_of (lookup name bridges) n =
      λ n. sym (ap (λ b. ports_of b n) e) in
    elim (Bool-cases (str_eq br.datapath_type type)) [
      | inl t ↦ elim (Bool-cases (dict_eq br.external_ids ids)) [
        | inl i ↦ rw (t, i) ((λ n. refl), λ k ne. refl)
        | inr i ↦ rw (t, i) (insert-HasTagged name (record br { external_ids = ids }) bridges same)
      ]
      | inr t ↦ elim (Bool-cases (dict_eq br.external_ids ids)) [
        | inl i ↦
            rw (t, i) (insert-HasTagged name (record br { datapath_type = type }) bridges same)
        | inr i ↦
            rw (t, i)
              (insert-HasTagged name (record br { datapath_type = type; external_ids = ids })
                bridges same)
      ]
    ]

pub ensure_bridge-HasTagged :
    (name type : String) (ids : Dict String) (bridges : Bridges)
    → HasTagged name bridges ((ensure_bridge name type ids bridges).1)
unfolding ensure_bridge
ensure_bridge-HasTagged name type ids bridges =
    update_bridge-HasTagged (lookup name bridges) name type (sort_items ids) bridges refl
