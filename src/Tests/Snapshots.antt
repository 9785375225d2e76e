-- ===== src/Tests/Snapshots.antt =====
-- A snapshot after three calls (src/netos_agent/adapters/ovsdb_fake/adapter.py).
use nervum.Prelude.{◌≡◌, refl, none, some, List, [], ◌∷◌}
use nervum.Errors.{ok, err, value_error}
use nervum.Ovs.{VxlanSpec}
use nervum.Ovs.Snapshots.{Ovsdb, Dump, dump, restore, load_items}
use nervum.Ovs.Saves.{Call, add_bridge, add_tunnel, remove_port, run, restore-dump-run}

abbrev tunnel : VxlanSpec
tunnel = record {
  name = "vx7";
  vni = 7;
  remote_ip = "10.0.0.2";
  local_ip = none;
  dst_port = 4789;
  mtu = none;
  external_ids = ("owner", "n1") ∷ ("key", "v") ∷ [];
}

abbrev calls : List Call
calls =
    add_bridge "br7" "system" (("zone", "a") ∷ ("owner", "n1") ∷ [])
    ∷ add_tunnel "br7" tunnel
    ∷ remove_port "br8" "vx7"
    ∷ []

abbrev other : Ovsdb
other = record { ovs_version = "fake-3.3.0"; bridges = [] }

restore-dump-run_example :
    restore (dump (record { ovs_version = "fake-3.2.0"; bridges = run calls [] })) other
    ≡ (ok tt, record { ovs_version = "fake-3.2.0"; bridges = run calls [] })
restore-dump-run_example =
    restore-dump-run "fake-3.2.0" calls other (((refl, (refl, tt)), ((refl, (refl, tt)), (tt, tt))))
      refl

-- A bridge without a name is not read: the version is new and the bridges are the old ones.
abbrev nameless : Dump
nameless = record {
  ovs_version = some "fake-9";
  bridges =
      some (record { name = none; datapath_type = none; external_ids = none; ports = none } ∷ []);
}

half_restored : restore nameless other ≡ (err value_error, record other { ovs_version = "fake-9" })
unfolding restore load_items
half_restored = refl
