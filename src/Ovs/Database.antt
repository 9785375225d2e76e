-- ===== src/Ovs/Database.antt =====
-- What the OVS database in memory keeps true (src/netos_agent/adapters/ovsdb_fake/adapter.py): a
-- bridge and a port stand under their names, and no name is listed twice.
use nervum.Prelude.{
  subst, ◌≡◌, refl, String, Bool, Option, none, some, Dict, lookup, insert, erase, AllEntries,
  insert-AllEntries, erase-AllEntries, sort_items, Option-cases, Bool-cases, inl, inr,
}
use nervum.Errors.{not_found, ok, err}
use nervum.Ovs.{
  dict_eq, contains, str_eq, already_there, Bridge, Bridges, Port, PortSpec, ensure_bridge,
  ensure_port, new_port, delete_bridge, delete_port, require_bridge, update_bridge, drop_port,
  new_bridge,
}
use nervum.Ovs.Idempotence.{written, ensure_port-missing, ensure_port-same, ensure_port-written}

abbrev pub IsPort : String → Port → Type 0
IsPort k p = p.name ≡ k

abbrev pub IsBridge : String → Bridge → Type 0
IsBridge k br = (br.name ≡ k) × AllEntries IsPort br.ports

abbrev pub IsDatabase : Bridges → Type 0
IsDatabase = AllEntries IsBridge

pub delete_bridge-IsDatabase :
    (name : String) (bridges : Bridges)
    → IsDatabase bridges
    → IsDatabase ((delete_bridge name bridges).1)
unfolding delete_bridge
delete_bridge-IsDatabase name bridges h = erase-AllEntries IsBridge name bridges h

update_bridge-IsDatabase :
    (found : Option Bridge) (name type : String) (ids : Dict String) (bridges : Bridges)
    → lookup name bridges ≡ found
    → IsDatabase bridges
    → IsDatabase ((update_bridge found name type ids bridges).1)
unfolding update_bridge
update_bridge-IsDatabase none name type ids bridges e h =
    insert-AllEntries IsBridge name (new_bridge name type ids) bridges (refl, (tt, λ k p f. cc f)) h
update_bridge-IsDatabase (some br) name type ids bridges e h =
    let (named, ports) = h.1 name br e in
    elim (Bool-cases (str_eq br.datapath_type type)) [
      | inl t ↦ elim (Bool-cases (dict_eq br.external_ids ids)) [
        | inl i ↦ rw (t, i) h
        | inr i ↦
            rw (t, i)
              (insert-AllEntries IsBridge name (record br { external_ids = ids }) bridges
                (named, ports) h)
      ]
      | inr t ↦ elim (Bool-cases (dict_eq br.external_ids ids)) [
        | inl i ↦
            rw (t, i)
              (insert-AllEntries IsBridge name (record br { datapath_type = type }) bridges
                (named, ports) h)
        | inr i ↦
            rw (t, i)
              (insert-AllEntries IsBridge name
                (record br { datapath_type = type; external_ids = ids }) bridges (named, ports) h)
      ]
    ]

pub ensure_bridge-IsDatabase :
    (name type : String) (ids : Dict String) (bridges : Bridges)
    → IsDatabase bridges
    → IsDatabase ((ensure_bridge name type ids bridges).1)
unfolding ensure_bridge
ensure_bridge-IsDatabase name type ids bridges h =
    update_bridge-IsDatabase (lookup name bridges) name type (sort_items ids) bridges refl h

pub ensure_port-IsDatabase :
    (bridge : String) (spec : PortSpec) (bridges : Bridges)
    → IsDatabase bridges
    → (changed : Bool) (after : Bridges) → ensure_port bridge spec bridges ≡ ok (changed, after)
    → IsDatabase after
unfolding new_port
ensure_port-IsDatabase bridge spec bridges h changed after e =
    elim (Option-cases (lookup bridge bridges)) [
      | inl gone ↦ cc (e, ensure_port-missing bridge spec bridges gone)
      | inr (br, found) ↦
          elim (Bool-cases (already_there (lookup spec.name br.ports) (new_port spec))) [
            | inl same ↦
                let left : bridges ≡ after =
                  cc (e, ensure_port-same bridge spec bridges br found same) in
                subst IsDatabase left h
            | inr same ↦
                let (named, ports) = h.1 bridge br found in
                let left : insert bridge (written spec br) bridges ≡ after =
                  cc (e, ensure_port-written bridge spec bridges br found same) in
                subst IsDatabase left (
                  insert-AllEntries IsBridge bridge (written spec br) bridges
                    (named, insert-AllEntries IsPort spec.name (new_port spec) br.ports refl ports)
                    h)
          ]
    ]

-- The two ways through `delete_port`.
module _ (bridge name : String) (bridges : Bridges) where
  pub delete_port-missing :
      lookup bridge bridges ≡ none → delete_port bridge name bridges ≡ err not_found
  unfolding delete_port drop_port require_bridge
  delete_port-missing h = rw (h, delete_port, drop_port, require_bridge) refl

  pub delete_port-found :
      (br : Bridge)
      → lookup bridge bridges ≡ some br
      → delete_port bridge name bridges
        ≡ ok (
          contains name br.ports,
          insert bridge (record br { ports = erase name br.ports }) bridges,
        )
  unfolding delete_port drop_port require_bridge
  delete_port-found br h = rw (h, delete_port, drop_port, require_bridge) refl

pub delete_port-IsDatabase :
    (bridge name : String) (bridges : Bridges)
    → IsDatabase bridges
    → (changed : Bool) (after : Bridges) → delete_port bridge name bridges ≡ ok (changed, after)
    → IsDatabase after
delete_port-IsDatabase bridge name bridges h changed after e =
    elim (Option-cases (lookup bridge bridges)) [
      | inl gone ↦ cc (e, delete_port-missing bridge name bridges gone)
      | inr (br, found) ↦
          let (named, ports) = h.1 bridge br found in
          let rest : Bridge = record br { ports = erase name br.ports } in
          let left : insert bridge rest bridges ≡ after =
            cc (e, delete_port-found bridge name bridges br found) in
          subst IsDatabase left (
            insert-AllEntries IsBridge bridge rest bridges
              (named, erase-AllEntries IsPort name br.ports ports) h)
    ]
