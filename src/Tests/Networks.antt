-- ===== src/Tests/Networks.antt =====
-- A VXLAN network and a change of its membership (src/sdn_controller/core/entities/network.py).
use nervum.Prelude.{◌+◌, ◌≡◌, refl, ◌↔◌, String, true, false, none, some, List, [], ◌∷◌}
use nervum.Errors.{ok, err, validation_error}
use nervum.Network.{Network, vxlan, Canonical, validate, set_nodes, has_duplicates}
use nervum.Network.Validity.{IsValid, validate_iff}
use nervum.Network.Intent.{IsFresh, set_nodes_revises}

abbrev network : Network
network = record {
  id = "net_1";
  name = "blue";
  type = vxlan;
  created_at = 0;
  updated_at = 0;
  mtu = 1450;
  vlan_id = none;
  vni = some 5001;
  subnet = none;
  intent_version = 1;
  labels = [];
  node_ids = "node_1" ∷ [];
  nat = none;
  firewall_policy = none;
  spec_hash = "";
  project_id = none;
}

validate-network : validate network ≡ ok tt
unfolding validate
validate-network = refl

validate_iff_example : (validate network ≡ ok tt) ↔ IsValid network
validate_iff_example = validate_iff network

-- A stand-in for the digest: the name of the network.
abbrev digest : Canonical → String
digest c = c.name

abbrev members : List String
members = "node_1" ∷ "node_2" ∷ []

set_nodes_revises_example :
    (has_duplicates members ≡ true → set_nodes digest members 9 network ≡ err validation_error)
    × (has_duplicates members ≡ false
        → (n' : Network) × (set_nodes digest members 9 network ≡ ok n')
          × IsValid n'
          × IsFresh digest n'
          × (n'.node_ids ≡ members)
          × (n'.intent_version ≡ network.intent_version + 1)
          × (n'.updated_at ≡ 9))
set_nodes_revises_example =
    set_nodes_revises digest members 9 network ((validate_iff network).0 validate-network)
