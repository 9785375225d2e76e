-- ===== src/Node.antt =====
-- The `Node` entity and its observable status: src/sdn_controller/core/entities/node.py and
-- src/sdn_controller/core/services/node_status.py. A `datetime` is a number of microseconds; a
-- thumbprint is held as the code points of its text.
pub mod Lifecycle
pub mod Thumbprints
pub mod Freshness
use Prim.Native.Char.{code}
use mathlib.Core.List.{reverse}
use nervum.Prelude.{
  ℕ, ◌+◌, ◌*◌, ◌-◌, String, Bool, true, false, not, ◌&&◌, ◌||◌, Option, none, some, List, [], ◌∷◌,
  map, leb, ◌==◌, any, all, length, is_some, is_space, is_blank, is_empty, Dict, if◌then◌else◌,
}
use nervum.Errors.{Result, ok, err, validation_error, raise_if, or_raise, ◌>>=◌, ◌>>◌}
use nervum.Address.{IpSyntax}

pub data NodeStatus : Type 0 where
  pending online stale offline draining : NodeStatus

abbrev pub is_pending : NodeStatus → Bool
is_pending pending = true
is_pending _ = false

-- A text as the code points that the code walks.
abbrev pub Text : Type 0
Text = List ℕ

lstrip : Text → Text
lstrip [] = []
lstrip (c ∷ t) = let rest = lstrip t in if is_space c then rest else c ∷ t

-- `str.strip`
strip : Text → Text
unfolding lstrip
strip t = reverse (lstrip (reverse (lstrip t)))

lower_code : ℕ → ℕ
lower_code c = if leb b'A' c && leb c b'Z' then c + 32 else c

-- `str.lower`, on ASCII letters
lower : Text → Text
unfolding lower_code
lower = map lower_code

abbrev is_hex : ℕ → Bool
is_hex c = (leb b'0' c && leb c b'9') || (leb b'a' c && leb c b'f')

unfoldable pub normalize_thumbprint : Text → Result Text
unfolding strip lower
normalize_thumbprint value =
    let tp = lower (strip value) in
    if not (length tp == 64) || not (all is_hex tp) then err validation_error else ok tp

pub record NodeCapabilities : Type 0 where
  pub ovs_version : Option String
  pub kernel : Option String
  pub interfaces : List String
  pub features : List String

pub record Node : Type 0 where
  pub id : String
  pub name : String
  pub mgmt_ip : String
  pub created_at : ℕ
  pub updated_at : ℕ
  pub status : NodeStatus
  pub roles : List String
  pub labels : Dict String
  pub agent_version : Option String
  pub last_seen_at : Option ℕ
  pub capabilities : Option NodeCapabilities
  pub tls_thumbprint : Option Text
  pub project_id : Option String
  pub maintenance : Bool
  pub maintenance_at : Option ℕ

-- `_normalize_thumbprint(x) if x is not None else None`
pub normalize_optional : Option Text → Result (Option Text)
normalize_optional none = ok none
normalize_optional (some t) = do tp ← normalize_thumbprint t; ok (some tp)

-- `Node.__post_init__`
unfoldable pub post_init : IpSyntax → Node → Result Node
unfolding normalize_optional
post_init ip node = do
  raise_if (is_empty node.name || is_blank node.name) validation_error
  address ← or_raise (ip.ip_address node.mgmt_ip) validation_error
  thumbprint ← normalize_optional node.tls_thumbprint
  ok (record node { tls_thumbprint = thumbprint })

-- `if x is not None: self.field = x`
abbrev or_keep {ℓ} : {A : Type ℓ} → Option A → Option A → Option A
or_keep none old = old
or_keep (some new) old = some new

unfoldable pub enroll :
    ℕ → Option String → Option NodeCapabilities → Option Text → Node → Result Node
unfolding normalize_optional
enroll now agent_version capabilities tls_thumbprint node = do
  raise_if (not (is_pending node.status)) validation_error
  normalized_thumbprint ← normalize_optional tls_thumbprint
  ok (record node {
    status = online;
    last_seen_at = some now;
    updated_at = now;
    agent_version = or_keep agent_version node.agent_version;
    capabilities = or_keep capabilities node.capabilities;
    tls_thumbprint = or_keep normalized_thumbprint node.tls_thumbprint;
  })

-- `if self.status in {STALE, OFFLINE}: self.status = ONLINE`
recovered : NodeStatus → NodeStatus
recovered stale = online
recovered offline = online
recovered s = s

unfoldable pub record_heartbeat : ℕ → Option String → Option NodeCapabilities → Node → Result Node
unfolding recovered
record_heartbeat now agent_version capabilities node = do
  raise_if (is_pending node.status) validation_error
  ok (record node {
    last_seen_at = some now;
    updated_at = now;
    agent_version = or_keep agent_version node.agent_version;
    capabilities = or_keep capabilities node.capabilities;
    status = recovered node.status;
  })

unfoldable pub mark_drain : ℕ → Node → Node
mark_drain now node = record node { status = draining; updated_at = now }

unfoldable pub enter_maintenance : ℕ → Node → Node
enter_maintenance now node = record node {
  maintenance = true;
  maintenance_at = some now;
  updated_at = now;
}

unfoldable pub exit_maintenance : ℕ → Node → Node
exit_maintenance now node = record node {
  maintenance = false;
  maintenance_at = none;
  updated_at = now;
}

-- `age >= seconds`, the age and the threshold both in microseconds and with no subtraction
abbrev is_older : ℕ → ℕ → ℕ → Bool
is_older now last seconds = leb (last + seconds * 1000000) now

-- The branches of `derived_status` after the explicit states.
derived_from : NodeStatus → Option ℕ → ℕ → ℕ → ℕ → NodeStatus
derived_from s none now stale_after offline_after = s
derived_from s (some last) now stale_after offline_after =
    if is_older now last offline_after
    then offline
    else if is_older now last stale_after
    then stale
    else online

derived_by : NodeStatus → Option ℕ → ℕ → ℕ → ℕ → NodeStatus
derived_by pending last now stale_after offline_after = pending
derived_by draining last now stale_after offline_after = draining
derived_by s last now stale_after offline_after = derived_from s last now stale_after offline_after

unfoldable pub derived_status : Node → ℕ → ℕ → ℕ → NodeStatus
unfolding derived_by derived_from
derived_status node now stale_after_seconds offline_after_seconds =
    derived_by node.status node.last_seen_at now stale_after_seconds offline_after_seconds

unfoldable pub apply_derived_status : Node → ℕ → ℕ → ℕ → Node
unfolding derived_status
apply_derived_status node now stale_after_seconds offline_after_seconds = record node {
  status = derived_status node now stale_after_seconds offline_after_seconds;
}
