-- ===== src/Enrollment/SingleUse.antt =====
-- An enrollment token enrols one agent (src/sdn_controller/core/use_cases/enrollment.py).
use nervum.Prelude.{
  ◌==◌, ◌||◌, All, ◌≡◌, ◌≢◌, refl, sym, ◌∙◌, ap, ℕ, String, true, Option, none, some, List, [], ◌∷◌,
  lookup, AllEntries, insert-AllEntries, drop_values-AllEntries, is_some, is_empty, is_blank,
  str_eq, Bool-cases, inl, inr,
}
use nervum.Errors.{ok-injective, >>=-eq-ok, Result, ok, err}
use nervum.Node.{Node}
use nervum.Enrollment.{
  validation_error, conflict, is_pending, not, is_expired, raise_if, save_result, record_heartbeat,
  redeem_consumed, enroll, save_enrolled, EnrollmentToken, Registry, EnrollAgentCommand,
  HeartbeatCommand, consume, is_used, issue, issue_for, save_issued, issue_token, enroll_node,
  redeem, enroll_agent, heartbeat, heartbeat_on, save_token, save_node, delete_for_node,
  get_by_hash,
}

-- A token stands under its id, and one with the hash was used.
abbrev pub IsSpentToken : String → String → EnrollmentToken → Type 0
IsSpentToken hash k t = (t.id ≡ k) × (t.token_hash ≡ hash → is_some t.used_at ≡ true)

-- Every token that has the hash was used.
abbrev pub IsSpent : String → Registry → Type 0
IsSpent hash s = AllEntries (IsSpentToken hash) s.tokens

-- A call of a use case, by an operator or an agent.
pub data Call : Type 0 where
  issued : String → String → String → ℕ → ℕ → Option String → Call
  enrolled : ℕ → EnrollAgentCommand → Call
  beaten : ℕ → HeartbeatCommand → Call

module _ (hash_token : String → String) where
  unfoldable pub step : Call → Registry → Registry
  step (issued id node_id plaintext now ttl by) s =
      (issue_token hash_token id node_id plaintext now ttl by s).1
  step (enrolled now cmd) s = (enroll_agent hash_token now cmd s).1
  step (beaten now cmd) s = (heartbeat now cmd s).1

  unfoldable pub run : List Call → Registry → Registry
  unfolding step
  run [] s = s
  run (c ∷ cs) s = run cs (step c s)

  -- No call issues a token with the hash.
  abbrev pub IssuesOther : String → Call → Type 0
  IssuesOther hash (issued _ _ plaintext _ _ _) = hash_token plaintext ≢ hash
  IssuesOther hash (enrolled _ _) = Unit
  IssuesOther hash (beaten _ _) = Unit

  issue_for-hash :
      (node : Option Node) (id node_id plaintext : String) (now ttl : ℕ) (by : Option String)
      (t : EnrollmentToken)
      → issue_for hash_token node id node_id plaintext now ttl by ≡ ok t
      → t.token_hash ≡ hash_token plaintext
  unfolding issue_for issue
  issue_for-hash none id node_id plaintext now ttl by t h = cc h
  issue_for-hash (some node) id node_id plaintext now ttl by t h =
      let (_, _, first) = >>=-eq-ok (raise_if (not (is_pending node.status)) conflict) _ h in
      let (_, _, second) = >>=-eq-ok (raise_if (ttl == 0) validation_error) _ first in
      ap (λ x. x.token_hash) (sym (ok-injective second))

  save_issued-IsSpent :
      (hash : String) (r : Result EnrollmentToken) (s : Registry)
      → ((t : EnrollmentToken) → r ≡ ok t → t.token_hash ≢ hash)
      → IsSpent hash s
      → IsSpent hash ((save_issued r s).1)
  unfolding save_issued save_token
  save_issued-IsSpent hash (err e) s ne w = w
  save_issued-IsSpent hash (ok t) s ne w =
      insert-AllEntries (IsSpentToken hash) t.id t s.tokens (refl, λ e. absurd (ne t refl e)) w

  save_enrolled-IsSpent :
      (hash : String) (r : Result Node) (token : EnrollmentToken) (s : Registry)
      → IsSpentToken hash token.id token
      → IsSpent hash s
      → IsSpent hash ((save_enrolled r token s).1)
  unfolding save_enrolled save_token save_node
  save_enrolled-IsSpent hash (err e) token s t w = w
  save_enrolled-IsSpent hash (ok node) token s t w =
      insert-AllEntries (IsSpentToken hash) token.id token s.tokens t w

  enroll_node-IsSpent :
      (hash : String) (node : Option Node) (token : EnrollmentToken) (now : ℕ)
      (cmd : EnrollAgentCommand) (s : Registry)
      → IsSpentToken hash token.id token
      → IsSpent hash s
      → IsSpent hash ((enroll_node node token now cmd s).1)
  unfolding enroll_node delete_for_node
  enroll_node-IsSpent hash none token now cmd s t w =
      drop_values-AllEntries (λ x. str_eq x.node_id token.node_id) (IsSpentToken hash) s.tokens w
  enroll_node-IsSpent hash (some node) token now cmd s t w =
      save_enrolled-IsSpent hash
        (enroll now cmd.agent_version cmd.capabilities cmd.tls_thumbprint node) token s t w

  redeem-IsSpent :
      (hash : String) (found : Option EnrollmentToken) (now : ℕ) (cmd : EnrollAgentCommand)
      (s : Registry)
      → IsSpent hash s
      → IsSpent hash ((redeem found now cmd s).1)
  unfolding redeem redeem_consumed consume
  redeem-IsSpent hash none now cmd s w = w
  redeem-IsSpent hash (some token) now cmd s w = elim (Bool-cases (is_used token)) [
    | inl e ↦ rw e w
    | inr e ↦ elim (Bool-cases (is_expired now token)) [
      | inl x ↦ rw (e, x) w
      | inr x ↦
          let used : EnrollmentToken = record token { used_at = some now } in
          rw (e, x)
            (enroll_node-IsSpent hash (lookup token.node_id s.nodes) used now cmd s
              (refl, λ _. refl) w)
    ]
  ]

  save_result-IsSpent :
      (hash : String) (r : Result Node) (s : Registry)
      → IsSpent hash s
      → IsSpent hash ((save_result r s).1)
  unfolding save_result save_node
  save_result-IsSpent hash (err e) s w = w
  save_result-IsSpent hash (ok node) s w = w

  heartbeat_on-IsSpent :
      (hash : String) (node : Option Node) (now : ℕ) (cmd : HeartbeatCommand) (s : Registry)
      → IsSpent hash s
      → IsSpent hash ((heartbeat_on node now cmd s).1)
  unfolding heartbeat_on
  heartbeat_on-IsSpent hash none now cmd s w = w
  heartbeat_on-IsSpent hash (some node) now cmd s w =
      save_result-IsSpent hash (record_heartbeat now cmd.agent_version cmd.capabilities node) s w

  step-IsSpent :
      (hash : String) (c : Call) (s : Registry)
      → IssuesOther hash c
      → IsSpent hash s
      → IsSpent hash (step c s)
  unfolding step issue_token enroll_agent heartbeat
  step-IsSpent hash (issued id node_id plaintext now ttl by) s ne w =
      save_issued-IsSpent hash
        (issue_for hash_token (lookup node_id s.nodes) id node_id plaintext now ttl by) s
        (λ t e same. ne (
          sym (issue_for-hash (lookup node_id s.nodes) id node_id plaintext now ttl by t e) ∙ same))
        w
  step-IsSpent hash (enrolled now cmd) s ne w =
      elim (Bool-cases (is_empty cmd.plaintext || is_blank cmd.plaintext)) [
        | inl e ↦ rw (e, step) w
        | inr e ↦
            rw (e, step)
              (redeem-IsSpent hash (get_by_hash (hash_token cmd.plaintext) s) now cmd s w)
      ]
  step-IsSpent hash (beaten now cmd) s ne w =
      heartbeat_on-IsSpent hash (lookup cmd.node_id s.nodes) now cmd s w

  pub run-IsSpent :
      (hash : String) (cs : List Call) (s : Registry)
      → All (IssuesOther hash) cs
      → IsSpent hash s
      → IsSpent hash (run cs s)
  unfolding run
  run-IsSpent hash [] s ne w = w
  run-IsSpent hash (c ∷ cs) s ne w =
      run-IsSpent hash cs (step c s) ne.1 (step-IsSpent hash c s ne.0 w)
