-- ===== src/Enrollment.antt =====
-- Enrollment tokens and the use cases around them:
-- src/sdn_controller/core/entities/enrollment_token.py and
-- src/sdn_controller/core/use_cases/enrollment.py, over the repositories in memory. A use case returns
-- its result and the state that is left, also when it raised. The digest of a token's text, the
-- clock's reading and new identifiers and texts are arguments; published events are left out.
pub mod SingleUse
pub mod OneAgent
use nervum.Prelude.{
  if◌then◌else◌, ℕ, ◌+◌, ◌*◌, String, Bool, true, false, not, ◌||◌, Option, none, some, List, leb,
  ◌==◌, is_some, is_blank, is_empty, str_eq, Dict, lookup, insert, find_value, drop_values,
}
use nervum.Errors.{
  DomainError, Result, ok, err, validation_error, not_found, conflict, raise_if, ◌>>=◌, ◌>>◌,
}
use nervum.Node.{Node, NodeCapabilities, Text, enroll, record_heartbeat, is_pending}

pub record EnrollmentToken : Type 0 where
  pub id : String
  pub node_id : String
  pub token_hash : String
  pub issued_at : ℕ
  pub expires_at : ℕ
  pub used_at : Option ℕ
  pub issued_by : Option String

unfoldable pub is_expired : ℕ → EnrollmentToken → Bool
is_expired now token = leb token.expires_at now

unfoldable pub is_used : EnrollmentToken → Bool
is_used token = is_some token.used_at

unfoldable pub consume : ℕ → EnrollmentToken → Result EnrollmentToken
unfolding is_used
consume now token = do
  raise_if (is_used token) conflict
  raise_if (is_expired now token) conflict
  ok (record token { used_at = some now })

-- The two repositories.
pub record Registry : Type 0 where
  pub nodes : Dict Node
  pub tokens : Dict EnrollmentToken

pub record EnrollAgentCommand : Type 0 where
  pub plaintext : String
  pub agent_version : Option String
  pub capabilities : Option NodeCapabilities
  pub tls_thumbprint : Option Text

pub record HeartbeatCommand : Type 0 where
  pub node_id : String
  pub agent_version : Option String
  pub capabilities : Option NodeCapabilities

unfoldable pub save_token : EnrollmentToken → Registry → Registry
save_token token s = record s { tokens = insert token.id token s.tokens }

unfoldable pub save_node : Node → Registry → Registry
save_node node s = record s { nodes = insert node.id node s.nodes }

unfoldable pub delete_for_node : String → Registry → Registry
delete_for_node node_id s = record s {
  tokens = drop_values (λ t. str_eq t.node_id node_id) s.tokens;
}

-- A change of a node that may raise, and then its `save`.
unfoldable save_result : Result Node → Registry → Result Node × Registry
unfolding save_node
save_result (err e) s = (err e, s)
save_result (ok node) s = (ok node, save_node node s)

unfoldable heartbeat_on : Option Node → ℕ → HeartbeatCommand → Registry → Result Node × Registry
unfolding save_result
heartbeat_on none now cmd s = (err not_found, s)
heartbeat_on (some node) now cmd s =
    save_result (record_heartbeat now cmd.agent_version cmd.capabilities node) s

-- `RecordHeartbeat.execute`
unfoldable pub heartbeat : ℕ → HeartbeatCommand → Registry → Result Node × Registry
unfolding heartbeat_on
heartbeat now cmd s = heartbeat_on (lookup cmd.node_id s.nodes) now cmd s

unfoldable save_issued : Result EnrollmentToken → Registry → Result EnrollmentToken × Registry
save_issued (err e) s = (err e, s)
save_issued (ok token) s = (ok token, save_token token s)

-- `node.enroll`, and then the two `save` calls.
unfoldable save_enrolled : Result Node → EnrollmentToken → Registry → Result Node × Registry
unfolding save_token save_node
save_enrolled (err e) token s = (err e, s)
save_enrolled (ok node) token s = (ok node, save_node node (save_token token s))

-- The node of a token that was consumed.
unfoldable enroll_node :
    Option Node → EnrollmentToken → ℕ → EnrollAgentCommand → Registry → Result Node × Registry
unfolding save_enrolled delete_for_node
enroll_node none token now cmd s = (err not_found, delete_for_node token.node_id s)
enroll_node (some node) token now cmd s =
    save_enrolled (enroll now cmd.agent_version cmd.capabilities cmd.tls_thumbprint node) token s

unfoldable redeem_consumed :
    Result EnrollmentToken → ℕ → EnrollAgentCommand → Registry → Result Node × Registry
unfolding enroll_node
redeem_consumed (err e) now cmd s = (err e, s)
redeem_consumed (ok used) now cmd s = enroll_node (lookup used.node_id s.nodes) used now cmd s

unfoldable redeem :
    Option EnrollmentToken → ℕ → EnrollAgentCommand → Registry → Result Node × Registry
unfolding redeem_consumed
redeem none now cmd s = (err not_found, s)
redeem (some token) now cmd s = redeem_consumed (consume now token) now cmd s

unfoldable pub get_by_hash : String → Registry → Option EnrollmentToken
get_by_hash token_hash s = find_value (λ t. str_eq t.token_hash token_hash) s.tokens

module _ (hash_token : String → String) where
  -- `EnrollmentToken.issue`
  unfoldable pub issue : String → String → String → ℕ → ℕ → Option String → Result EnrollmentToken
  issue token_id node_id plaintext now ttl_seconds issued_by = do
    raise_if (ttl_seconds == 0) validation_error
    ok (record {
      id = token_id;
      node_id = node_id;
      token_hash = hash_token plaintext;
      issued_at = now;
      expires_at = now + ttl_seconds * 1000000;
      used_at = none;
      issued_by = issued_by;
    })

  unfoldable issue_for :
      Option Node → String → String → String → ℕ → ℕ → Option String → Result EnrollmentToken
  unfolding issue
  issue_for none token_id node_id plaintext now ttl_seconds issued_by = err not_found
  issue_for (some node) token_id node_id plaintext now ttl_seconds issued_by = do
    raise_if (not (is_pending node.status)) conflict
    issue token_id node_id plaintext now ttl_seconds issued_by

  -- `IssueEnrollmentToken.execute`
  unfoldable pub issue_token :
      String
      → String
      → String
      → ℕ
      → ℕ
      → Option String
      → Registry
      → Result EnrollmentToken × Registry
  unfolding issue_for save_issued
  issue_token token_id node_id plaintext now ttl_seconds issued_by s =
      save_issued
        (issue_for (lookup node_id s.nodes) token_id node_id plaintext now ttl_seconds issued_by) s

  -- `EnrollAgent.execute`
  unfoldable pub enroll_agent : ℕ → EnrollAgentCommand → Registry → Result Node × Registry
  unfolding redeem
  enroll_agent now cmd s =
      let found = redeem (get_by_hash (hash_token cmd.plaintext) s) now cmd s in
      if is_empty cmd.plaintext || is_blank cmd.plaintext then (err validation_error, s) else found
