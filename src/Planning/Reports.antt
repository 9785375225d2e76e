-- ===== src/Planning/Reports.antt =====
-- What the diff engine finds in the report of an agent's OVS database
-- (src/sdn_controller/core/services/diff_engine.py, `_find_port` and `find_bridge`).
use nervum.Prelude.{
  rest-AllEntries, eq_refl, ◌≡◌, refl, ap, String, ℕ, Option, none, some, List, [], ◌∷◌, Dict,
  lookup, AllEntries, arith, eq_iff, values, map,
}
use nervum.Ovs.{Bridge, Bridges, Port}
use nervum.Ovs.Dumps.{to_state, bridge_state, port_state}
use nervum.Ovs.Database.{IsDatabase, IsBridge, IsPort}
use nervum.Agent.{Host}
use nervum.Planning.{find_in, find_port}
use nervum.Planning.Observed.{
  ObservedBridge, ObservedPort, ObservedState, find_named, state_view_to_observed,
  bridge_view_to_observed, port_view_to_observed,
}

abbrev pub report_of : Bridge → ObservedBridge
report_of br = bridge_view_to_observed (bridge_state br)

abbrev pub port_report : Port → ObservedPort
port_report p = port_view_to_observed (port_state p)

abbrev pub reports : Bridges → List ObservedBridge
reports [] = []
reports ((_, br) ∷ bridges) = report_of br ∷ reports bridges

map-values-reports :
    (bridges : Bridges)
    → map bridge_view_to_observed (map bridge_state (values bridges)) ≡ reports bridges
map-values-reports [] = refl
map-values-reports ((_, br) ∷ bridges) = ap (λ bs. report_of br ∷ bs) (map-values-reports bridges)

-- What the controller has after it fetched the state of a node's agent: the node, the version of
-- OVS, the hash and the moment are arguments.
module _ (node_id : String) (version : Option String) (state_hash : String) (observed_at : ℕ) where
  unfoldable pub observe : Host → ObservedState
  unfolding state_view_to_observed to_state
  observe h = state_view_to_observed node_id (to_state version h.bridges) state_hash observed_at

  pub bridges-observe : (h : Host) → (observe h).bridges ≡ reports h.bridges
  unfolding observe state_view_to_observed to_state
  bridges-observe h = map-values-reports h.bridges

abbrev pub opt_map {ℓ κ} : {A : Type ℓ} {B : Type κ} → (A → B) → Option A → Option B
opt_map f none = none
opt_map f (some a) = some (f a)

-- The bridges and ports of a database stand under their names, so that a search by name is a
-- lookup.
pub find_named-reports :
    (name : String) (bridges : Bridges)
    → IsDatabase bridges
    → find_named (reports bridges) name ≡ opt_map report_of (lookup name bridges)
find_named-reports name [] w = refl
find_named-reports name ((k, br) ∷ bridges) w =
    let named : br.name ≡ k = (w.1 k br (rw (eq_refl k) refl)).0 in
    ground (
      arith,
      eq_iff k name,
      named,
      find_named-reports name bridges (rest-AllEntries IsBridge k br bridges w),
    )

find_in-ports :
    (name : String) (ports : Dict Port)
    → AllEntries IsPort ports
    → find_in (map port_view_to_observed (map port_state (values ports))) name
      ≡ opt_map port_report (lookup name ports)
unfolding find_in
find_in-ports name [] w = refl
find_in-ports name ((k, p) ∷ ports) w =
    let named : p.name ≡ k = w.1 k p (rw (eq_refl k) refl) in
    ground
      (arith, eq_iff k name, named, find_in-ports name ports (rest-AllEntries IsPort k p ports w))

pub find_port-report :
    (name : String) (br : Bridge)
    → AllEntries IsPort br.ports
    → find_port (some (report_of br)) name ≡ opt_map port_report (lookup name br.ports)
unfolding find_port find_in
find_port-report name br w = find_in-ports name br.ports w
