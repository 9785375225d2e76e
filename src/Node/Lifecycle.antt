-- ===== src/Node/Lifecycle.antt =====
-- The life cycle of a node under the methods of src/sdn_controller/core/entities/node.py.
use mathlib.Core.Path.{subst}
use nervum.Prelude.{
  ℕ, ◌≤◌, ◌≡◌, refl, ◌↔◌, ◌⊎◌, String, true, Option, none, some, List, [], ◌∷◌, arith, all, length,
  is_some,
}
use nervum.Errors.{Result, ok, err, is_ok, ◌>>=◌, ok-injective}
use nervum.Node.{
  NodeStatus, pending, online, stale, offline, draining, NodeCapabilities, Node, Text, is_hex,
  normalize_thumbprint, normalize_optional, enroll, record_heartbeat, mark_drain, enter_maintenance,
  exit_maintenance, or_keep,
}

-- A SHA-256 thumbprint in its canonical form: 64 lower-case hexadecimal digits.
abbrev pub IsThumbprint : Text → Type 0
IsThumbprint t = (length t ≡ 64) × (all is_hex t ≡ true)

abbrev pub IsThumbprint? : Option Text → Type 0
IsThumbprint? none = Unit
IsThumbprint? (some t) = IsThumbprint t

-- What `_normalize_thumbprint` returns is in canonical form.
pub normalize_thumbprint_canonical :
    (t tp : Text) → normalize_thumbprint t ≡ ok tp → IsThumbprint tp
unfolding normalize_thumbprint
normalize_thumbprint_canonical t tp h = ground arith

normalize_optional_canonical :
    (t tp : Option Text) → normalize_optional t ≡ ok tp → IsThumbprint? tp
unfolding normalize_optional
normalize_optional_canonical none tp h = ground arith
normalize_optional_canonical (some t) tp h = go (normalize_thumbprint t) refl h
  where
    go :
        (r : Result Text)
        → normalize_thumbprint t ≡ r
        → (r >>= λ u. ok (some u)) ≡ ok tp
        → IsThumbprint? tp
    go (ok u) e k = subst IsThumbprint? (ok-injective k) (normalize_thumbprint_canonical t u e)
    go (err _) e k = cc

-- What the methods keep of a node: `stale` and `offline` are never written, an online node has been
-- heard of, the maintenance flag and its time go together, and the pinned thumbprint is canonical.
pub record IsValid (node : Node) : Type 0 where
  pub written : (node.status ≡ pending) ⊎ (node.status ≡ online) ⊎ (node.status ≡ draining)
  pub seen : node.status ≡ online → is_some node.last_seen_at ≡ true
  pub flagged : node.maintenance ≡ is_some node.maintenance_at
  pub pinned : IsThumbprint? node.tls_thumbprint

-- The methods, as calls.
pub data Call : Type 0 where
  enroll_with : ℕ → Option String → Option NodeCapabilities → Option Text → Call
  heartbeat : ℕ → Option String → Option NodeCapabilities → Call
  drain enter exit : ℕ → Call

-- A call that raises leaves the node as it was.
abbrev or_same : Node → Result Node → Node
or_same node (ok node') = node'
or_same node (err _) = node

pub apply_call : Call → Node → Node
apply_call (enroll_with now v c t) node = or_same node (enroll now v c t node)
apply_call (heartbeat now v c) node = or_same node (record_heartbeat now v c node)
apply_call (drain now) node = mark_drain now node
apply_call (enter now) node = enter_maintenance now node
apply_call (exit now) node = exit_maintenance now node

unfoldable pub run : List Call → Node → Node
unfolding apply_call
run [] node = node
run (c ∷ cs) node = run cs (apply_call c node)

or_keep_canonical :
    (new old : Option Text)
    → IsThumbprint? new
    → IsThumbprint? old
    → IsThumbprint? (or_keep new old)
or_keep_canonical none old n o = o
or_keep_canonical (some t) old n o = n

enroll-IsValid :
    (now : ℕ) (v : Option String) (c : Option NodeCapabilities) (t : Option Text) (node : Node)
    → IsValid node
    → IsValid (or_same node (enroll now v c t node))
unfolding enroll
enroll-IsValid now v c t node h = go (normalize_optional t) refl
  where
    go :
        (r : Result (Option Text))
        → normalize_optional t ≡ r
        → IsValid (or_same node (enroll now v c t node))
    go (ok tp) e = ground (
      arith,
      or_keep_canonical tp node.tls_thumbprint (normalize_optional_canonical t tp e) h.pinned,
    )
    go (err _) e = ground arith

apply_call-IsValid : (c : Call) (node : Node) → IsValid node → IsValid (apply_call c node)
unfolding apply_call record_heartbeat mark_drain enter_maintenance exit_maintenance
apply_call-IsValid (enroll_with now v c t) node h = enroll-IsValid now v c t node h
apply_call-IsValid (heartbeat now v c) node h = ground arith
apply_call-IsValid (drain now) node h = ground arith
apply_call-IsValid (enter now) node h = ground arith
apply_call-IsValid (exit now) node h = ground arith

-- Any calls on a valid node, whether they return or raise, leave it valid: its status is `pending`,
-- `online` or `draining`, an online node has been heard of, the maintenance flag tells whether its
-- time is set, and a pinned thumbprint is 64 lower-case hexadecimal digits.
pub run-IsValid : (cs : List Call) (node : Node) → IsValid node → IsValid (run cs node)
unfolding run
run-IsValid [] node h = h
run-IsValid (c ∷ cs) node h = run-IsValid cs (apply_call c node) (apply_call-IsValid c node h)

-- How far a node is in its life: before enrolment, in service, or being decommissioned.
abbrev pub stage : NodeStatus → ℕ
stage pending = 0
stage online = 1
stage stale = 1
stage offline = 1
stage draining = 2

apply_call-stage : (c : Call) (node : Node) → stage node.status ≤ stage (apply_call c node).status
unfolding apply_call enroll record_heartbeat mark_drain enter_maintenance exit_maintenance
apply_call-stage (enroll_with now v c t) node = ground arith
apply_call-stage (heartbeat now v c) node = ground arith
apply_call-stage (drain now) node = ground arith
apply_call-stage (enter now) node = ground arith
apply_call-stage (exit now) node = ground arith

-- No calls take a node back: once enrolled it is never `pending` again, and once `draining` it
-- stays `draining`, heartbeats and enrolments included.
pub run-stage : (cs : List Call) (node : Node) → stage node.status ≤ stage (run cs node).status
unfolding run
run-stage [] node = omega arith
run-stage (c ∷ cs) node = omega (arith, apply_call-stage c node, run-stage cs (apply_call c node))

-- Enrolment succeeds exactly on a `pending` node with no thumbprint or one that normalises.
pub enroll_iff :
    (now : ℕ) (v : Option String) (c : Option NodeCapabilities) (t : Option Text) (node : Node)
    → (is_ok (enroll now v c t node) ≡ true)
      ↔ ((node.status ≡ pending) × (is_ok (normalize_optional t) ≡ true))
unfolding enroll
enroll_iff now v c t node = (λ h. ground arith, λ h. ground arith)
