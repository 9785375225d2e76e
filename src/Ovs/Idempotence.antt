-- ===== src/Ovs/Idempotence.antt =====
-- A second `ensure_…` or `delete_…` on the OVS database in memory has nothing to do
-- (src/netos_agent/adapters/ovsdb_fake/adapter.py).
use nervum.Prelude.{
  Bool-cases, inr, inl, Option-cases, eq_refl, ◌≡◌, refl, String, true, false, Option, none, some,
  arith, str_eq, eq_iff, Dict, lookup, IsDict, lookup-insert_self, insert-IsDict, sort_items,
  sort_items-IsDict, dict_eq_refl, nats_eq, ℕ, List, [], ◌∷◌,
}
use nervum.Errors.{not_found, ok, err}
use nervum.Ovs.{
  opt_decimal, with_option, new_bridge, update_bridge, insert, interfaces_in, dict_eq,
  already_there, keys_in, put_port, same_interface, Interface, Bool, require_bridge, opt_eq, Bridge,
  Bridges, PortSpec, VxlanSpec, ensure_bridge, ensure_port, new_port, ports_equal, tunnel_options,
}

nats_eq_refl : (ns : List ℕ) → nats_eq ns ns ≡ true
nats_eq_refl [] = refl
nats_eq_refl (n ∷ ns) = ground (arith, nats_eq_refl ns)

opt_eq_refl : (o : Option ℕ) → opt_eq o o ≡ true
opt_eq_refl none = refl
opt_eq_refl (some n) = ground arith

keys_in_refl : (k : String) (a : Interface) → keys_in ((k, a) ∷ []) ((k, a) ∷ []) ≡ true
keys_in_refl k a = ground (arith, eq_iff k k)

interfaces_in_refl :
    (k : String) (a : Interface)
    → dict_eq a.options a.options ≡ true
    → interfaces_in ((k, a) ∷ []) ((k, a) ∷ []) ≡ true
unfolding same_interface
interfaces_in_refl k a h = simp (eq_refl k, eq_refl a.type, h)

-- The port that `ensure_port` writes is equal to itself.
pub ports_equal-new_port :
    (spec : PortSpec)
    → IsDict spec.options
    → IsDict spec.external_ids
    → ports_equal (new_port spec) (new_port spec) ≡ true
unfolding ports_equal new_port
ports_equal-new_port spec h i =
    let new = new_port spec in
    let face : Interface = record {
      name = spec.name;
      type = spec.type;
      options = sort_items spec.options;
    } in
    let keys : keys_in new.interfaces new.interfaces ≡ true = keys_in_refl spec.name face in
    let faces : interfaces_in new.interfaces new.interfaces ≡ true =
      interfaces_in_refl spec.name face
        (dict_eq_refl face.options (sort_items-IsDict spec.options h)) in
    simp (
      opt_eq_refl spec.tag,
      nats_eq_refl new.trunks,
      dict_eq_refl new.external_ids (sort_items-IsDict spec.external_ids i),
      keys,
      faces,
    )

abbrev pub written : PortSpec → Bridge → Bridge
written spec br = record br { ports = insert spec.name (new_port spec) br.ports }

-- The three ways through `ensure_port`.
module _ (bridge : String) (spec : PortSpec) (bridges : Bridges) where
  pub ensure_port-missing :
      lookup bridge bridges ≡ none → ensure_port bridge spec bridges ≡ err not_found
  unfolding ensure_port put_port require_bridge
  ensure_port-missing h = rw (h, ensure_port, put_port, require_bridge) refl

  pub ensure_port-same :
      (br : Bridge)
      → lookup bridge bridges ≡ some br
      → already_there (lookup spec.name br.ports) (new_port spec) ≡ true
      → ensure_port bridge spec bridges ≡ ok (false, bridges)
  unfolding ensure_port put_port require_bridge
  ensure_port-same br h same =
      rw (h, ensure_port, put_port, require_bridge) (rw (same, put_port) refl)

  pub ensure_port-written :
      (br : Bridge)
      → lookup bridge bridges ≡ some br
      → already_there (lookup spec.name br.ports) (new_port spec) ≡ false
      → ensure_port bridge spec bridges ≡ ok (true, insert bridge (written spec br) bridges)
  unfolding ensure_port put_port require_bridge
  ensure_port-written br h same =
      rw (h, ensure_port, put_port, require_bridge) (rw (same, put_port) refl)

module _ (bridge : String) (spec : PortSpec) (bridges : Bridges) where
  ensure_port-fresh :
      (br : Bridge)
      → IsDict spec.options
      → IsDict spec.external_ids
      → ensure_port bridge spec (insert bridge (written spec br) bridges)
        ≡ ok (false, insert bridge (written spec br) bridges)
  unfolding already_there
  ensure_port-fresh br h i =
      ensure_port-same bridge spec (insert bridge (written spec br) bridges) (written spec br)
        (lookup-insert_self bridge (written spec br) bridges)
        (rw (lookup-insert_self spec.name (new_port spec) br.ports, already_there)
          (ports_equal-new_port spec h i))

  -- After `ensure_port` returned, the same call returns that nothing changed, and leaves the
  -- database as it is.
  pub ensure_port-again :
      IsDict spec.options
      → IsDict spec.external_ids
      → (changed : Bool) (after : Bridges) → ensure_port bridge spec bridges ≡ ok (changed, after)
      → ensure_port bridge spec after ≡ ok (false, after)
  ensure_port-again h i changed after e = elim (Option-cases (lookup bridge bridges)) [
    | inl gone ↦ cc (e, ensure_port-missing bridge spec bridges gone)
    | inr (br, found) ↦
        elim (Bool-cases (already_there (lookup spec.name br.ports) (new_port spec))) [
          | inl same ↦ cc (e, ensure_port-same bridge spec bridges br found same)
          | inr same ↦
              cc
                (e, ensure_port-written bridge spec bridges br found same, ensure_port-fresh br h i)
        ]
  ]

-- A bridge of the name, with the type and the identifiers that were asked for.
abbrev pub IsSettled : String → String → Dict String → Bridges → Type 0
IsSettled name type ids bridges =
    (br : Bridge) × (lookup name bridges ≡ some br)
    × (str_eq br.datapath_type type ≡ true)
    × (dict_eq br.external_ids ids ≡ true)

update_bridge-settles :
    (found : Option Bridge) (name type : String) (ids : Dict String) (bridges : Bridges)
    → lookup name bridges ≡ found
    → dict_eq ids ids ≡ true
    → IsSettled name type ids ((update_bridge found name type ids bridges).1)
unfolding update_bridge
update_bridge-settles none name type ids bridges h same = (
  new_bridge name type ids,
  lookup-insert_self name (new_bridge name type ids) bridges,
  eq_refl type,
  same,
)
update_bridge-settles (some br) name type ids bridges h same =
    elim (Bool-cases (str_eq br.datapath_type type)) [
      | inl t ↦ elim (Bool-cases (dict_eq br.external_ids ids)) [
        | inl i ↦ rw (t, i) (br, h, t, i)
        | inr i ↦
            rw (t, i) (record br { external_ids = ids }, lookup-insert_self name _ bridges, t, same)
      ]
      | inr t ↦ elim (Bool-cases (dict_eq br.external_ids ids)) [
        | inl i ↦
            rw (t, i)
              (
                record br { datapath_type = type },
                lookup-insert_self name _ bridges,
                eq_refl type,
                i,
              )
        | inr i ↦
            rw (t, i)
              (
                record br { datapath_type = type; external_ids = ids },
                lookup-insert_self name _ bridges,
                eq_refl type,
                same,
              )
      ]
    ]

module _ (name type : String) (ids : Dict String) (bridges : Bridges) where
  pub ensure_bridge-settles :
      IsDict ids → IsSettled name type (sort_items ids) ((ensure_bridge name type ids bridges).1)
  unfolding ensure_bridge
  ensure_bridge-settles h =
      update_bridge-settles (lookup name bridges) name type (sort_items ids) bridges refl
        (dict_eq_refl (sort_items ids) (sort_items-IsDict ids h))

  settled-ensure_bridge :
      IsSettled name type (sort_items ids) bridges
      → ensure_bridge name type ids bridges ≡ (false, bridges)
  unfolding ensure_bridge update_bridge
  settled-ensure_bridge (br, h, t, i) =
      rw (h, ensure_bridge, update_bridge) (rw (t, i, update_bridge) refl)

-- After `ensure_bridge`, the same call returns that nothing changed, and leaves the database as
-- it is.
pub ensure_bridge-again :
    (name type : String) (ids : Dict String) (bridges : Bridges)
    → IsDict ids
    → ensure_bridge name type ids ((ensure_bridge name type ids bridges).1)
      ≡ (false, (ensure_bridge name type ids bridges).1)
ensure_bridge-again name type ids bridges h =
    settled-ensure_bridge name type ids ((ensure_bridge name type ids bridges).1)
      (ensure_bridge-settles name type ids bridges h)

with_option-IsDict :
    (k : String) (v : Option String) (d : Dict String) → IsDict d → IsDict (with_option k v d)
with_option-IsDict k none d h = h
with_option-IsDict k (some v) d h = insert-IsDict k v d h

-- The options of a tunnel are a dict.
pub tunnel_options-IsDict : (spec : VxlanSpec) → IsDict (tunnel_options spec)
unfolding tunnel_options
tunnel_options-IsDict spec =
    with_option-IsDict "mtu_request" (opt_decimal spec.mtu) _
      (with_option-IsDict "local_ip" spec.local_ip _ (refl, (refl, (refl, tt))))
