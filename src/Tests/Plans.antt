-- ===== src/Tests/Plans.antt =====
-- A node of a VXLAN network and its peers: what the diff engine asks for
-- (src/sdn_controller/core/services/diff_engine.py).
use nervum.Prelude.{
  if◌then◌else◌, eq_iff, ◌≢◌, subst, str_eq, last_chars, decimal, ◌≡◌, refl, String, ℕ, true, false,
  none, some, List, [], ◌∷◌, inl, inr,
}
use nervum.Network.{Network, vxlan}
use nervum.Agent.{Host, run_steps}
use nervum.Agent.Invariant.{IsHost}
use nervum.Planning.{
  edge_service_steps, is_edge_node, NodeAddress, diff_for_node, is_in_compliance, vxlan_port_name,
}
use nervum.Planning.Observed.{ObservedState}
use nervum.Planning.Reports.{observe}
use nervum.Planning.Reach.{IsUnambiguous}
use nervum.Planning.Compliance.{diff_for_node_again, diff_for_node_complies}
use nervum.Planning.Collision.{is_in_compliance_collision}

abbrev wide : Network
wide = record {
  id = "net_1";
  name = "blue";
  type = vxlan;
  created_at = 0;
  updated_at = 0;
  mtu = 1450;
  vlan_id = none;
  vni = some 7;
  subnet = none;
  intent_version = 1;
  labels = [];
  node_ids = "node_a1" ∷ "node_b2" ∷ "node_c3" ∷ [];
  nat = none;
  firewall_policy = none;
  spec_hash = "";
  project_id = none;
}

abbrev peer_a : NodeAddress
peer_a = record { node_id = "node_a1"; mgmt_ip = "10.0.0.1" }

abbrev peer_b : NodeAddress
peer_b = record { node_id = "node_b2"; mgmt_ip = "10.0.0.2" }

abbrev peer_c : NodeAddress
peer_c = record { node_id = "node_c3"; mgmt_ip = "10.0.0.3" }

abbrev addresses : List NodeAddress
addresses = peer_a ∷ peer_b ∷ peer_c ∷ []

abbrev bare : Host
bare = record { bridges = []; scopes = []; zones = []; nat = []; policies = [] }

bare-IsHost : IsHost bare
bare-IsHost = ((tt, λ k b e. cc e), tt, tt, tt, tt)

b_name : vxlan_port_name 7 peer_b ≡ "vx-7-ode_b2"
unfolding vxlan_port_name decimal last_chars
b_name = refl

differ : (s t : String) → str_eq s t ≡ false → s ≢ t
differ s t h e = cc ((eq_iff s t).1 e, h)

names_differ_at : IsUnambiguous wide 7 addresses
unfolding vxlan_port_name decimal last_chars
names_differ_at = (
  (
    (λ e. absurd (differ "vx-7-ode_a1" "vx-7-ode_b2" refl e)),
    ((λ e. absurd (differ "vx-7-ode_a1" "vx-7-ode_c3" refl e)), tt),
  ),
  (((λ e. absurd (differ "vx-7-ode_b2" "vx-7-ode_c3" refl e)), tt), (tt, tt)),
)

names_differ : (vni : ℕ) → wide.vni ≡ some vni → IsUnambiguous wide vni addresses
names_differ vni e =
    let seven : 7 ≡ vni = cc e in subst (λ v. IsUnambiguous wide v addresses) seven names_differ_at

diff_for_node_complies_example :
    is_in_compliance wide "node_a1" addresses (
      observe "node_a1" none "h" 9 (
        (run_steps
          (diff_for_node wide "node_a1" addresses (observe "node_a1" none "h" 9 bare))
          true
          bare).2))
    ≡ true
diff_for_node_complies_example =
    diff_for_node_complies wide "node_a1" addresses none "h" 9 bare names_differ bare-IsHost

-- Two nodes whose ids end alike.
abbrev twin : NodeAddress
twin = record { node_id = "other_node_b2"; mgmt_ip = "10.0.0.9" }

same_name : vxlan_port_name 7 peer_b ≡ vxlan_port_name 7 twin
unfolding vxlan_port_name decimal last_chars
same_name = refl

abbrev seen : ObservedState
seen = observe "node_a1" none "h" 9 bare

is_in_compliance_collision_example :
    is_in_compliance wide "node_a1" (peer_b ∷ twin ∷ []) seen ≡ false
is_in_compliance_collision_example =
    is_in_compliance_collision wide 7 "node_a1" (peer_b ∷ twin ∷ []) peer_b twin seen refl refl refl
      (inl refl) (inr (inl refl)) refl refl same_name (differ "10.0.0.2" "10.0.0.9" refl)

diff_for_node_again_example :
    diff_for_node wide "node_b2" addresses (
      observe "node_b2" none "h" 9 (
        (run_steps
          (diff_for_node wide "node_b2" addresses (observe "node_b2" none "h" 9 bare))
          true
          bare).2))
    ≡ (if is_edge_node wide "node_b2" then edge_service_steps wide else [])
diff_for_node_again_example =
    diff_for_node_again wide "node_b2" addresses none "h" 9 bare names_differ bare-IsHost refl
