-- ===== src/Planning/Tunnels.antt =====
-- The tunnel ports that the diff engine asks for and those that the agent makes
-- (src/sdn_controller/core/services/diff_engine.py, `_vxlan_options` and `_vxlan_port_changed`;
-- src/netos_agent/adapters/ovsdb_fake/adapter.py, `ensure_vxlan_port`).
use nervum.Prelude.{
  inr, inl, &&_left, Bool-cases, subst, ◌≡◌, refl, sym, ◌∙◌, ap, String, ℕ, true, false, not,
  Option, none, some, [], ◌∷◌, Dict, lookup, IsDict, arith, eq_refl, str_eq, values, map, decimal,
  dict_eq, is_included, dict_eq-lookup, lookup-sort_items, dict_eq-sort_items, lookup-is_included,
  is_included-lookup, sort_items,
}
use nervum.Ovs.{
  Port, Interface, tunnel_options, vxlan_port, new_port, ports_equal, keys_in, interfaces_in,
  same_interface,
}
use nervum.Ovs.Dumps.{interface_state}
use nervum.Ovs.Idempotence.{tunnel_options-IsDict}
use nervum.Network.{Network}
use nervum.Planning.{
  vxlan_port_name, NodeAddress, vxlan_options, vxlan_port_changed, tunnel_spec, tunnel_drifts,
  any_differs, interface_changed, owner_ids,
}
use nervum.Planning.Observed.{interface_to_observed}
use nervum.Planning.Reports.{port_report}

lookup_single : {V : Type 0} (k j : String) (v w : V) → lookup k ((j, v) ∷ []) ≡ some w → v ≡ w
lookup_single k j v w h = elim (Bool-cases (str_eq j k)) [ inl e ↦ cc (h, e) | inr e ↦ cc (h, e) ]

any_differs-is_included : (d x : Dict String) → any_differs d x ≡ not (is_included d x)
any_differs-is_included [] x = refl
any_differs-is_included ((k, v) ∷ d) x = ground (arith, any_differs-is_included d x)

decimal_port : decimal 4789 ≡ "4789"
unfolding decimal
decimal_port = refl

pub owner_ids-IsDict : (network : Network) → IsDict (owner_ids network)
owner_ids-IsDict network = (refl, (refl, tt))

module _ (network : Network) (vni : ℕ) (peer : NodeAddress) where
  vxlan_options-IsDict : IsDict (vxlan_options network vni peer)
  unfolding vxlan_options
  vxlan_options-IsDict = (refl, (refl, (refl, (refl, tt))))

  -- The options that the diff engine wants are among those that the agent sets.
  vxlan_options-tunnel_options :
      is_included (vxlan_options network vni peer) (tunnel_options (tunnel_spec network vni peer))
      ≡ true
  unfolding vxlan_options tunnel_options tunnel_spec
  vxlan_options-tunnel_options =
      rw (decimal_port)
        (simp (eq_refl (decimal vni), eq_refl peer.mgmt_ip, eq_refl (decimal network.mtu)))

  options_agree :
      (x : Dict String)
      → dict_eq x (sort_items (tunnel_options (tunnel_spec network vni peer))) ≡ true
      → any_differs (vxlan_options network vni peer) x ≡ false
  options_agree x h =
      let made = tunnel_options (tunnel_spec network vni peer) in
      let wanted = vxlan_options network vni peer in
      let included : is_included wanted x ≡ true =
        lookup-is_included wanted x vxlan_options-IsDict (λ k v e.
          dict_eq-lookup x (sort_items made) h k
          ∙ lookup-sort_items k made (tunnel_options-IsDict (tunnel_spec network vni peer))
          ∙ is_included-lookup wanted made k v vxlan_options-tunnel_options e) in
      any_differs-is_included wanted x ∙ ap not included

  abbrev made_port : Port
  made_port = new_port (vxlan_port (tunnel_spec network vni peer))

  abbrev face : Interface
  face = record {
    name = vxlan_port_name vni peer;
    type = "vxlan";
    options = sort_items (tunnel_options (tunnel_spec network vni peer));
  }

  same_interface_holds :
      (o : Option Interface) (a : Interface)
      → same_interface o a ≡ true
      → (b : Interface) × (o ≡ some b)
        × (str_eq a.type b.type ≡ true)
        × (dict_eq a.options b.options ≡ true)
  unfolding same_interface
  same_interface_holds none a h = cc h
  same_interface_holds (some b) a h = (b, refl, ground arith, ground arith)

  -- A port with the interface that the agent makes has it first.
  interface_settled :
      (is : Dict Interface)
      → keys_in ((face.name, face) ∷ []) is ≡ true
      → interfaces_in is ((face.name, face) ∷ []) ≡ true
      → interface_changed
          (map interface_to_observed (map interface_state (values is)))
          (vxlan_options network vni peer)
        ≡ false
  unfolding interface_changed
  interface_settled [] has same = cc has
  interface_settled ((k, a) ∷ is) has same =
      let first : same_interface (lookup k ((face.name, face) ∷ [])) a ≡ true = &&_left _ _ same in
      let (b, found, type, options) =
        same_interface_holds (lookup k ((face.name, face) ∷ [])) a first in
      let same_face : b ≡ face = sym (lookup_single k face.name face b found) in
      rw
        (
          subst (λ x. str_eq a.type x.type ≡ true) same_face type,
          options_agree a.options
              (subst (λ x. dict_eq a.options x.options ≡ true) same_face options),
        )
        refl

  -- A port that `ensure_vxlan_port` takes for its own is one that the diff engine accepts.
  pub ports_equal-tunnel_drifts :
      (p : Port)
      → ports_equal p made_port ≡ true
      → tunnel_drifts (some (port_report p)) network vni peer ≡ false
  unfolding tunnel_drifts vxlan_port_changed ports_equal new_port tunnel_spec
  ports_equal-tunnel_drifts p h =
      let ids : dict_eq p.external_ids (sort_items (owner_ids network)) ≡ true = ground arith in
      let has : keys_in ((face.name, face) ∷ []) p.interfaces ≡ true = ground arith in
      let same : interfaces_in p.interfaces ((face.name, face) ∷ []) ≡ true = ground arith in
      rw
        (
          dict_eq-sort_items p.external_ids (owner_ids network) (owner_ids-IsDict network) ids,
          interface_settled p.interfaces has same,
        )
        refl
