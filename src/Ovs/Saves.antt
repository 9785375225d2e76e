-- ===== src/Ovs/Saves.antt =====
-- Sequences of calls on the OVS database in memory, and the snapshot taken after them
-- (src/netos_agent/adapters/ovsdb_fake/adapter.py).
use nervum.Prelude.{
  subst, ◌≡◌, refl, String, Bool, false, Option, none, some, List, [], ◌∷◌, All, Dict, IsDict,
  lookup, insert, erase, insert-AllEntries, erase-AllEntries, IsSorted, sort_items,
  IsSorted-sort_items, Option-cases, Bool-cases, inl, inr, is_empty, dict_eq, str_eq, sym, ap, ◌∙◌,
  eq_iff, arith,
}
use nervum.Errors.{Result, ok, err}
use nervum.Ovs.{
  already_there, Bridge, Bridges, PortSpec, VxlanSpec, vxlan_port, Interface, ensure_bridge,
  ensure_port, ensure_vxlan_port, new_port, delete_bridge, delete_port, update_bridge, new_bridge,
}
use nervum.Ovs.Idempotence.{written, ensure_port-missing, ensure_port-same, ensure_port-written}
use nervum.Ovs.Database.{delete_port-missing, delete_port-found}
use nervum.Ovs.Snapshots.{Ovsdb, dump, restore}
use nervum.Ovs.Restored.{IsSavedPort, IsSavedBridge, IsSaved, restore-dump}

update_bridge-IsSaved :
    (found : Option Bridge) (name type : String) (ids : Dict String) (bridges : Bridges)
    → lookup name bridges ≡ found
    → IsSorted ids
    → IsSaved bridges
    → IsSaved ((update_bridge found name type ids bridges).1)
unfolding update_bridge
update_bridge-IsSaved none name type ids bridges e s h =
    insert-AllEntries IsSavedBridge name (new_bridge name type ids) bridges
      (refl, s, (tt, λ k p f. cc f)) h
update_bridge-IsSaved (some br) name type ids bridges e s h =
    let (named, old, ports) = h.1 name br e in
    elim (Bool-cases (str_eq br.datapath_type type)) [
      | inl t ↦ elim (Bool-cases (dict_eq br.external_ids ids)) [
        | inl i ↦ rw (t, i) h
        | inr i ↦
            rw (t, i)
              (insert-AllEntries IsSavedBridge name (record br { external_ids = ids }) bridges
                (named, s, ports) h)
      ]
      | inr t ↦ elim (Bool-cases (dict_eq br.external_ids ids)) [
        | inl i ↦
            rw (t, i)
              (insert-AllEntries IsSavedBridge name (record br { datapath_type = type }) bridges
                (named, old, ports) h)
        | inr i ↦
            rw (t, i)
              (insert-AllEntries IsSavedBridge name
                (record br { datapath_type = type; external_ids = ids }) bridges (named, s, ports)
                h)
      ]
    ]

-- The one entry of a dict.
only_entry :
    {V : Type 0} (k j : String) (v w : V) → lookup j ((k, v) ∷ []) ≡ some w → (k ≡ j) × (v ≡ w)
only_entry k j v w h = elim (Bool-cases (str_eq k j)) [
  | inl same ↦ ((eq_iff k j).0 same, ground arith)
  | inr other ↦ ground arith
]

new_port-IsSaved :
    (spec : PortSpec) → IsDict spec.external_ids → IsSavedPort spec.name (new_port spec)
unfolding new_port
new_port-IsSaved spec w = (refl, IsSorted-sort_items spec.external_ids w, ((refl, tt), each))
  where
    each :
        (k : String) (i : Interface) → lookup k ((new_port spec).interfaces) ≡ some i → i.name ≡ k
    each k i e = let (key, same) = only_entry spec.name k _ i e in sym (ap (λ x. x.name) same) ∙ key

ensure_port-IsSaved :
    (bridge : String) (spec : PortSpec) (bridges : Bridges)
    → IsDict spec.external_ids
    → IsSaved bridges
    → (changed : Bool) (after : Bridges) → ensure_port bridge spec bridges ≡ ok (changed, after)
    → IsSaved after
ensure_port-IsSaved bridge spec bridges w h changed after e =
    elim (Option-cases (lookup bridge bridges)) [
      | inl gone ↦ cc (e, ensure_port-missing bridge spec bridges gone)
      | inr (br, found) ↦
          elim (Bool-cases (already_there (lookup spec.name br.ports) (new_port spec))) [
            | inl same ↦
                let left : bridges ≡ after =
                  cc (e, ensure_port-same bridge spec bridges br found same) in
                subst IsSaved left h
            | inr same ↦
                let (named, sorted, ports) = h.1 bridge br found in
                let left : insert bridge (written spec br) bridges ≡ after =
                  cc (e, ensure_port-written bridge spec bridges br found same) in
                subst IsSaved left (
                  insert-AllEntries IsSavedBridge bridge (written spec br) bridges
                    (
                      named,
                      sorted,
                      insert-AllEntries IsSavedPort spec.name (new_port spec) br.ports
                          (new_port-IsSaved spec w) ports,
                    )
                    h)
          ]
    ]

delete_port-IsSaved :
    (bridge name : String) (bridges : Bridges)
    → IsSaved bridges
    → (changed : Bool) (after : Bridges) → delete_port bridge name bridges ≡ ok (changed, after)
    → IsSaved after
delete_port-IsSaved bridge name bridges h changed after e =
    elim (Option-cases (lookup bridge bridges)) [
      | inl gone ↦ cc (e, delete_port-missing bridge name bridges gone)
      | inr (br, found) ↦
          let (named, sorted, ports) = h.1 bridge br found in
          let left : insert bridge (record br { ports = erase name br.ports }) bridges ≡ after =
            cc (e, delete_port-found bridge name bridges br found) in
          subst IsSaved left (
            insert-AllEntries IsSavedBridge bridge (record br { ports = erase name br.ports })
              bridges (named, sorted, erase-AllEntries IsSavedPort name br.ports ports) h)
    ]

-- The calls that change the database.
pub data Call : Type 0 where
  add_bridge : String → String → Dict String → Call
  drop_bridge : String → Call
  add_port : String → PortSpec → Call
  add_tunnel : String → VxlanSpec → Call
  remove_port : String → String → Call

-- The external ids of a call are a dict.
abbrev pub IsCall : Call → Type 0
IsCall (add_bridge name type ids) = IsDict ids
IsCall (drop_bridge name) = Unit
IsCall (add_port bridge spec) = IsDict spec.external_ids
IsCall (add_tunnel bridge spec) = IsDict spec.external_ids
IsCall (remove_port bridge name) = Unit

-- The database after a call; one that raised left it as it was.
abbrev pub left_after : Bridges → Result (Bool × Bridges) → Bridges
left_after bridges (ok r) = r.1
left_after bridges (err e) = bridges

unfoldable pub perform : Call → Bridges → Bridges
perform (add_bridge name type ids) bridges = (ensure_bridge name type ids bridges).1
perform (drop_bridge name) bridges = (delete_bridge name bridges).1
perform (add_port bridge spec) bridges = left_after bridges (ensure_port bridge spec bridges)
perform (add_tunnel bridge spec) bridges =
    left_after bridges (ensure_vxlan_port bridge spec bridges)
perform (remove_port bridge name) bridges = left_after bridges (delete_port bridge name bridges)

unfoldable pub run : List Call → Bridges → Bridges
run [] bridges = bridges
run (call ∷ calls) bridges = run calls (perform call bridges)

left_after-IsSaved :
    (bridges : Bridges) (r : Result (Bool × Bridges))
    → IsSaved bridges
    → ((changed : Bool) (after : Bridges) → r ≡ ok (changed, after) → IsSaved after)
    → IsSaved (left_after bridges r)
left_after-IsSaved bridges (ok r) h each = each r.0 r.1 refl
left_after-IsSaved bridges (err e) h each = h

perform-IsSaved :
    (call : Call) (bridges : Bridges)
    → IsCall call
    → IsSaved bridges
    → IsSaved (perform call bridges)
unfolding perform ensure_bridge delete_bridge ensure_vxlan_port
perform-IsSaved (add_bridge name type ids) bridges w h =
    update_bridge-IsSaved (lookup name bridges) name type (sort_items ids) bridges refl
      (IsSorted-sort_items ids w) h
perform-IsSaved (drop_bridge name) bridges w h = erase-AllEntries IsSavedBridge name bridges h
perform-IsSaved (add_port bridge spec) bridges w h =
    left_after-IsSaved bridges _ h (ensure_port-IsSaved bridge spec bridges w h)
perform-IsSaved (add_tunnel bridge spec) bridges w h =
    left_after-IsSaved bridges _ h (ensure_port-IsSaved bridge (vxlan_port spec) bridges w h)
perform-IsSaved (remove_port bridge name) bridges w h =
    left_after-IsSaved bridges _ h (delete_port-IsSaved bridge name bridges h)

run-IsSaved :
    (calls : List Call) (bridges : Bridges)
    → All IsCall calls
    → IsSaved bridges
    → IsSaved (run calls bridges)
unfolding run
run-IsSaved [] bridges w h = h
run-IsSaved (call ∷ calls) bridges w h =
    run-IsSaved calls (perform call bridges) w.1 (perform-IsSaved call bridges w.0 h)

-- After any sequence of calls on an empty database whose version is not empty, in each of which the
-- external ids are a dict, the snapshot that is taken restores that very database in place of any
-- other, whatever that one holds.
pub restore-dump-run :
    (version : String) (calls : List Call) (other : Ovsdb)
    → All IsCall calls
    → is_empty version ≡ false
    → restore (dump (record { ovs_version = version; bridges = run calls [] })) other
      ≡ (ok tt, record { ovs_version = version; bridges = run calls [] })
restore-dump-run version calls other w versioned =
    restore-dump (record { ovs_version = version; bridges = run calls [] }) other
      (run-IsSaved calls [] w (tt, λ k b e. cc e)) versioned
