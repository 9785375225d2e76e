-- ===== src/Node/Freshness.antt =====
-- What readers see of a node: `derived_status` as time passes
-- (src/sdn_controller/core/services/node_status.py).
use nervum.Prelude.{ℕ, ◌+◌, ◌*◌, ◌≤◌, ◌<◌, ◌≡◌, ◌⊎◌, none, some, arith}
use nervum.Node.{
  NodeStatus, pending, online, stale, offline, draining, Node, derived_status, apply_derived_status,
}

-- How old the heartbeat behind a status is.
abbrev staleness : NodeStatus → ℕ
staleness pending = 0
staleness online = 0
staleness stale = 1
staleness offline = 2
staleness draining = 0

-- A status that an operator has set.
abbrev pub IsExplicit : NodeStatus → Type 0
IsExplicit s = (s ≡ pending) ⊎ (s ≡ draining)

-- With a heartbeat at hand, the status is the explicit one of an operator, or else it tells the age
-- of the heartbeat: below both thresholds `online`, from the offline threshold on `offline`, and
-- between them `stale`.
pub derived_status_bands :
    (node : Node) (now stale_after offline_after last : ℕ)
    → node.last_seen_at ≡ some last
    → stale_after ≤ offline_after
    → let s = derived_status node now stale_after offline_after in
      (IsExplicit node.status → s ≡ node.status)
      × (¬ IsExplicit node.status
          → ((s ≡ online) × (now < last + stale_after * 1000000))
            ⊎ ((s ≡ stale)
                × (last + stale_after * 1000000 ≤ now)
                × (now < last + offline_after * 1000000))
            ⊎ ((s ≡ offline) × (last + offline_after * 1000000 ≤ now)))
unfolding derived_status
derived_status_bands node now stale_after offline_after last h o = ground arith

-- While no heartbeat arrives, a status only ages: it never goes back from `offline` to `stale`, nor
-- from either to `online`.
derived_status_ages :
    (node : Node) (now later stale_after offline_after : ℕ)
    → now ≤ later
    → ¬ (node.last_seen_at ≡ none)
    → staleness (derived_status node now stale_after offline_after)
      ≤ staleness (derived_status node later stale_after offline_after)
unfolding derived_status
derived_status_ages node now later stale_after offline_after h seen = ground arith

-- Applying the derived status to a node that already shows it changes nothing.
apply_derived_status_idem :
    (node : Node) (now stale_after offline_after : ℕ)
    → let shown = apply_derived_status node now stale_after offline_after in
      apply_derived_status shown now stale_after offline_after ≡ shown
unfolding apply_derived_status
apply_derived_status_idem node now stale_after offline_after = ground arith
