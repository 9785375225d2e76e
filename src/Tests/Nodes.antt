-- ===== src/Tests/Nodes.antt =====
-- The life of one node (src/sdn_controller/core/entities/node.py).
use nervum.Prelude.{
  ◌+◌, ◌*◌, ◌≤◌, ◌<◌, ◌≡◌, refl, ◌↔◌, ◌⊎◌, true, false, none, some, List, [], ◌∷◌, arith,
}
use nervum.Errors.{is_ok, ok}
use nervum.Node.{
  pending, online, stale, offline, draining, Node, Text, normalize_thumbprint, normalize_optional,
  enroll, record_heartbeat, mark_drain, enter_maintenance, derived_status,
}
use nervum.Node.Lifecycle.{
  IsThumbprint, IsValid, Call, enroll_with, heartbeat, drain, enter, run, run-IsValid, run-stage,
  stage, enroll_iff,
}
use nervum.Node.Thumbprints.{IsPadded, normalize_thumbprint_iff}
use nervum.Node.Freshness.{IsExplicit, derived_status_bands}

abbrev node : Node
node = record {
  id = "node_1";
  name = "compute-1";
  mgmt_ip = "10.0.0.1";
  created_at = 0;
  updated_at = 0;
  status = pending;
  roles = [];
  labels = [];
  agent_version = none;
  last_seen_at = none;
  capabilities = none;
  tls_thumbprint = none;
  project_id = none;
  maintenance = false;
  maintenance_at = none;
}

node-IsValid : IsValid node
node-IsValid = ground arith

-- A heartbeat before enrolment, an enrolment, a heartbeat, a drain, and a heartbeat again.
abbrev calls : List Call
calls =
    heartbeat 1 none none
    ∷ enroll_with 2 (some "1.0") none none
    ∷ enter 3
    ∷ heartbeat 4 none none
    ∷ drain 5
    ∷ heartbeat 6 none none
    ∷ []

run-calls :
    let n = run calls node in
    (n.status ≡ draining) × (n.last_seen_at ≡ some 6) × (n.maintenance_at ≡ some 3)
unfolding run record_heartbeat mark_drain enter_maintenance enroll
run-calls = (refl, refl, refl)

run-IsValid_example : IsValid (run calls node)
run-IsValid_example = run-IsValid calls node node-IsValid

run-stage_example : stage node.status ≤ stage (run calls node).status
run-stage_example = run-stage calls node

thumb8 : Text → Text
thumb8 t = b'A' ∷ b'b' ∷ b'0' ∷ b'1' ∷ b'2' ∷ b'3' ∷ b'4' ∷ b'F' ∷ t

abbrev thumbprint : Text
thumbprint =
    b' ' ∷ thumb8 (thumb8 (thumb8 (thumb8 (thumb8 (thumb8 (thumb8 (thumb8 (b' ' ∷ []))))))))

normalize_thumbprint_mixed : is_ok (normalize_thumbprint thumbprint) ≡ true
unfolding normalize_thumbprint thumb8
normalize_thumbprint_mixed = refl

low8 : Text → Text
low8 t = b'a' ∷ b'b' ∷ b'0' ∷ b'1' ∷ b'2' ∷ b'3' ∷ b'4' ∷ b'f' ∷ t

abbrev plain_hex : Text
plain_hex = low8 (low8 (low8 (low8 (low8 (low8 (low8 (low8 [])))))))

normalize_thumbprint_iff_example :
    (normalize_thumbprint thumbprint ≡ ok plain_hex)
    ↔ (IsThumbprint plain_hex × IsPadded thumbprint plain_hex)
normalize_thumbprint_iff_example = normalize_thumbprint_iff thumbprint plain_hex

-- A text with capitals, between spaces.
normalized : normalize_thumbprint thumbprint ≡ ok plain_hex
unfolding normalize_thumbprint thumb8 low8
normalized = refl

enroll_iff_example :
    (is_ok (enroll 2 none none (some thumbprint) node) ≡ true)
    ↔ ((node.status ≡ pending) × (is_ok (normalize_optional (some thumbprint)) ≡ true))
enroll_iff_example = enroll_iff 2 none none (some thumbprint) node

abbrev seen : Node
seen = record node { status = online; last_seen_at = some 1000000 }

derived_status_bands_example :
    let s = derived_status seen 40000000 30 90 in
    (IsExplicit seen.status → s ≡ seen.status)
    × (¬ IsExplicit seen.status
        → ((s ≡ online) × (40000000 < 1000000 + 30 * 1000000))
          ⊎ ((s ≡ stale)
              × (1000000 + 30 * 1000000 ≤ 40000000)
              × (40000000 < 1000000 + 90 * 1000000))
          ⊎ ((s ≡ offline) × (1000000 + 90 * 1000000 ≤ 40000000)))
derived_status_bands_example = derived_status_bands seen 40000000 30 90 1000000 refl (omega arith)

abbrev beaten : Node
beaten = record seen { last_seen_at = some 95000000; updated_at = 95000000 }
