-- ===== src/Ovs/Restored.antt =====
-- What a snapshot of the OVS database brings back (src/netos_agent/adapters/ovsdb_fake/adapter.py).
use nervum.Prelude.{
  ◌≡◌, refl, sym, ap, ◌∙◌, String, true, false, Option, none, some, [], ◌∷◌, ◌++◌, map, Dict,
  values, lookup, insert, lookup-insert, str_eq, eq_iff, IsDict, AllEntries, IsSorted,
  sort_items-IsSorted, is_empty, arith, Bool-cases, inl, inr,
}
use nervum.Errors.{Result, ok}
use nervum.Ovs.{Interface, Port, Bridge, Bridges}
use nervum.Ovs.Snapshots.{
  Ovsdb, load_items, load_interface, load_port, load_bridge, interface_dump, port_dump, bridge_dump,
  dump, restore,
}

module _ {V : Type 0} where
  insert_new :
      (k : String) (v : V) (d : Dict V) → lookup k d ≡ none → insert k v d ≡ d ++ (k, v) ∷ []
  insert_new k v [] h = refl
  insert_new k v ((j, w) ∷ d) h = elim (Bool-cases (str_eq j k)) [
    | inl same ↦ cc (h, found_head j k w d same)
    | inr other ↦ rw other (ap (λ e. (j, w) ∷ e) (insert_new k v d (missing_tail j k w d h)))
  ]
    where
      found_head :
          (j k : String) (w : V) (d : Dict V) → str_eq j k ≡ true → lookup k ((j, w) ∷ d) ≡ some w
      found_head j k w d e = rw e refl

      missing_tail :
          (j k : String) (w : V) (d : Dict V) → lookup k ((j, w) ∷ d) ≡ none → lookup k d ≡ none
      missing_tail j k w d e = ground arith

  append_assoc : (c d e : Dict V) → (c ++ d) ++ e ≡ c ++ (d ++ e)
  append_assoc [] d e = refl
  append_assoc (x ∷ c) d e = ap (λ t. x ∷ t) (append_assoc c d e)

  append_nil : (d : Dict V) → d ++ [] ≡ d
  append_nil [] = refl
  append_nil (x ∷ d) = ap (λ t. x ∷ t) (append_nil d)

  abbrev AreNew : Dict V → Dict V → Type 0
  AreNew d c = (k : String) (v : V) → lookup k d ≡ some v → lookup k c ≡ none

  found_later :
      (j k : String) (v w : V) (d : Dict V)
      → lookup j d ≡ none
      → lookup k d ≡ some v
      → lookup k ((j, w) ∷ d) ≡ some v
  found_later j k v w d h e = elim (Bool-cases (str_eq j k)) [
    | inl same ↦ let key : j ≡ k = (eq_iff j k).0 same in cc (h, e, key)
    | inr other ↦ rw other e
  ]

  found_first : (k : String) (v : V) (d : Dict V) → lookup k ((k, v) ∷ d) ≡ some v
  found_first k v d = rw ((eq_iff k k).1 refl) refl

  AreNew-insert :
      (j : String) (w : V) (d c : Dict V)
      → lookup j d ≡ none
      → AreNew ((j, w) ∷ d) c
      → AreNew d (insert j w c)
  AreNew-insert j w d c h new k v e = elim (Bool-cases (str_eq j k)) [
    | inl same ↦ let key : j ≡ k = (eq_iff j k).0 same in cc (h, e, key)
    | inr other ↦ cc (lookup-insert j k w c, other, new k v (found_later j k v w d h e))
  ]

module _ {D V : Type 0} (name_of : D → Option String) (load : D → Result V) (dumped : V → D) where
  -- The value is read back from its dump, under its key.
  abbrev IsReadable : String → V → Type 0
  IsReadable k v = (name_of (dumped v) ≡ some k) × (load (dumped v) ≡ ok v)

  load_items-after :
      (d c : Dict V)
      → IsDict d
      → ((k : String) (v : V) → lookup k d ≡ some v → IsReadable k v)
      → AreNew d c
      → load_items name_of load (map dumped (values d)) c ≡ ok (c ++ d)
  unfolding load_items
  load_items-after [] c w each new = ap ok (sym (append_nil c))
  load_items-after ((j, x) ∷ d) c w each new =
      let here = each j x (found_first j x d) in
      let rest =
        load_items-after d (insert j x c) w.1 (λ k v e. each k v (found_later j k v x d w.0 e))
          (AreNew-insert j x d c w.0 new) in
      rw (here.0, here.1)
        (rest
          ∙ ap (λ e. ok (e ++ d)) (insert_new j x c (new j x (found_first j x d)))
          ∙ ap ok (append_assoc c ((j, x) ∷ []) d))

  pub load_items_all :
      (d : Dict V)
      → AllEntries IsReadable d
      → load_items name_of load (map dumped (values d)) [] ≡ ok d
  load_items_all d (w, each) = load_items-after d [] w each (λ k v e. refl)

abbrev pub IsInterface : String → Interface → Type 0
IsInterface k i = i.name ≡ k

abbrev pub IsSavedPort : String → Port → Type 0
IsSavedPort k p = (p.name ≡ k) × IsSorted p.external_ids × AllEntries IsInterface p.interfaces

abbrev pub IsSavedBridge : String → Bridge → Type 0
IsSavedBridge k b = (b.name ≡ k) × IsSorted b.external_ids × AllEntries IsSavedPort b.ports

-- Bridges, ports and interfaces stand under their names, no name is listed twice, and external ids
-- are in order.
abbrev pub IsSaved : Bridges → Type 0
IsSaved = AllEntries IsSavedBridge

interface_readable :
    (k : String) (i : Interface) → i.name ≡ k → load_interface (interface_dump i) ≡ ok i
unfolding load_interface
interface_readable k i e = refl

port_readable : (k : String) (p : Port) → IsSavedPort k p → load_port (port_dump p) ≡ ok p
unfolding load_port
port_readable k p (named, sorted, (w, each)) =
    rw
      (
        load_items_all (λ i. i.name) load_interface interface_dump p.interfaces
            (w, λ j i e. (ap some (each j i e), interface_readable j i (each j i e))),
        sort_items-IsSorted p.external_ids sorted,
      )
      refl

bridge_readable : (k : String) (b : Bridge) → IsSavedBridge k b → load_bridge (bridge_dump b) ≡ ok b
unfolding load_bridge
bridge_readable k b (named, sorted, (w, each)) =
    rw
      (
        load_items_all (λ p. p.name) load_port port_dump b.ports
            (w, λ j p e. (ap some ((each j p e).0), port_readable j p (each j p e))),
        sort_items-IsSorted b.external_ids sorted,
      )
      refl

pub restore-dump :
    (db other : Ovsdb)
    → IsSaved db.bridges
    → is_empty db.ovs_version ≡ false
    → restore (dump db) other ≡ (ok tt, db)
unfolding restore dump
restore-dump db other (w, each) version =
    rw
      (
        version,
        load_items_all (λ b. b.name) load_bridge bridge_dump db.bridges
            (w, λ j b e. (ap some ((each j b e).0), bridge_readable j b (each j b e))),
      )
      refl
