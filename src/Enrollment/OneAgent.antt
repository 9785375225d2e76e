-- ===== src/Enrollment/OneAgent.antt =====
-- After a token enrolled an agent it enrols no other one
-- (src/sdn_controller/core/use_cases/enrollment.py).
use nervum.Prelude.{
  ◌≡◌, refl, sym, ◌∙◌, ap, subst, ℕ, String, Bool, true, false, ◌||◌, Option, none, some, List, All,
  lookup, insert, lookup-insert, insert-IsDict, AllEntries, find_value_holds, find_value-lookup,
  is_some, is_empty, is_blank, str_eq, eq_iff, Bool-cases, inl, inr,
}
use nervum.Errors.{ok-injective, >>=-eq-ok, Result, ok, err, is_ok}
use nervum.Node.{Node, enroll}
use nervum.Enrollment.{
  conflict, raise_if, EnrollmentToken, Registry, EnrollAgentCommand, consume, is_used, is_expired,
  enroll_node, save_enrolled, redeem, redeem_consumed, enroll_agent, save_token, save_node,
  get_by_hash,
}
use nervum.Enrollment.SingleUse.{IsSpent, IsSpentToken, Call, IssuesOther, run, run-IsSpent}

-- Every token stands under its id.
abbrev pub IsRegistry : Registry → Type 0
IsRegistry s = AllEntries (λ k t. t.id ≡ k) s.tokens

-- No two tokens have the hash.
abbrev pub IsOnly : String → Registry → Type 0
IsOnly hash s =
    (j k : String) (t u : EnrollmentToken)
    → lookup j s.tokens ≡ some t
    → lookup k s.tokens ≡ some u
    → t.token_hash ≡ hash
    → u.token_hash ≡ hash
    → j ≡ k

module _ (hash_token : String → String) where
  spent_redeem :
      (found : Option EnrollmentToken) (now : ℕ) (cmd : EnrollAgentCommand) (s : Registry)
      → ((t : EnrollmentToken) → found ≡ some t → is_some t.used_at ≡ true)
      → is_ok ((redeem found now cmd s).0) ≡ false
  unfolding redeem redeem_consumed consume is_used
  spent_redeem none now cmd s h = refl
  spent_redeem (some t) now cmd s h = rw (h t refl) refl

  spent_refuses :
      (now : ℕ) (cmd : EnrollAgentCommand) (s : Registry)
      → IsSpent (hash_token cmd.plaintext) s
      → is_ok ((enroll_agent hash_token now cmd s).0) ≡ false
  unfolding enroll_agent get_by_hash
  spent_refuses now cmd s w =
      let hash = hash_token cmd.plaintext in
      let has : EnrollmentToken → Bool = λ t. str_eq t.token_hash hash in
      let used : (t : EnrollmentToken) → get_by_hash hash s ≡ some t → is_some t.used_at ≡ true =
        λ t e.
          let (k, found) = find_value-lookup has t s.tokens w.0 e in
          (w.1 k t found).1 ((eq_iff t.token_hash hash).0 (find_value_holds has s.tokens e)) in
      elim (Bool-cases (is_empty cmd.plaintext || is_blank cmd.plaintext)) [
        | inl e ↦ rw e refl
        | inr e ↦ rw e (spent_redeem (get_by_hash hash s) now cmd s used)
      ]

  -- The token that was found is marked, and it is the only one of its hash.
  marked-IsSpent :
      (hash : String) (k : String) (t : EnrollmentToken) (now : ℕ) (s : Registry)
      → IsRegistry s
      → IsOnly hash s
      → lookup k s.tokens ≡ some t
      → t.token_hash ≡ hash
      → AllEntries (IsSpentToken hash) (insert t.id (record t { used_at = some now }) s.tokens)
  marked-IsSpent hash k t now s w only found same =
      let used : EnrollmentToken = record t { used_at = some now } in
      (
        insert-IsDict t.id used s.tokens w.0,
        λ j x h. elim (Bool-cases (str_eq t.id j)) [
          | inl e ↦
              let new : used ≡ x = cc (h, e, lookup-insert t.id j used s.tokens) in
              subst (IsSpentToken hash j) new ((eq_iff t.id j).0 e, λ _. refl)
          | inr e ↦
              let old : lookup j s.tokens ≡ some x =
                cc (h, e, lookup-insert t.id j used s.tokens) in
              (
                w.1 j x old,
                λ q.
                    let key : j ≡ k = only j k x t old found q same in
                    cc ((eq_iff t.id j).1 (w.1 k t found ∙ sym key), e),
              )
        ],
      )

  save_enrolled_spends :
      (hash : String) (r : Result Node) (t : EnrollmentToken) (s : Registry)
      → AllEntries (IsSpentToken hash) (insert t.id t s.tokens)
      → is_ok ((save_enrolled r t s).0) ≡ true
      → IsSpent hash ((save_enrolled r t s).1)
  unfolding save_enrolled save_token save_node
  save_enrolled_spends hash (err e) t s w h = cc
  save_enrolled_spends hash (ok node) t s w h = w

  enroll_node_spends :
      (hash : String) (node : Option Node) (t : EnrollmentToken) (now : ℕ)
      (cmd : EnrollAgentCommand) (s : Registry)
      → AllEntries (IsSpentToken hash) (insert t.id t s.tokens)
      → is_ok ((enroll_node node t now cmd s).0) ≡ true
      → IsSpent hash ((enroll_node node t now cmd s).1)
  unfolding enroll_node
  enroll_node_spends hash none t now cmd s w h = cc
  enroll_node_spends hash (some node) t now cmd s w h =
      save_enrolled_spends hash
        (enroll now cmd.agent_version cmd.capabilities cmd.tls_thumbprint node) t s w h

  consume-eq-ok :
      (now : ℕ) (t u : EnrollmentToken) → consume now t ≡ ok u → record t { used_at = some now } ≡ u
  unfolding consume
  consume-eq-ok now t u h =
      let (_, _, first) = >>=-eq-ok (raise_if (is_used t) conflict) _ h in
      let (_, _, second) = >>=-eq-ok (raise_if (is_expired now t) conflict) _ first in
      ok-injective second

  redeem_consumed_spends :
      (hash : String) (c : Result EnrollmentToken) (k : String) (t : EnrollmentToken) (now : ℕ)
      (cmd : EnrollAgentCommand) (s : Registry)
      → consume now t ≡ c
      → IsRegistry s
      → IsOnly hash s
      → lookup k s.tokens ≡ some t
      → t.token_hash ≡ hash
      → is_ok ((redeem_consumed c now cmd s).0) ≡ true
      → IsSpent hash ((redeem_consumed c now cmd s).1)
  unfolding redeem_consumed
  redeem_consumed_spends hash (err e) k t now cmd s eq w only found same h = cc
  redeem_consumed_spends hash (ok u) k t now cmd s eq w only found same h =
      let marked =
        subst (λ x. AllEntries (IsSpentToken hash) (insert x.id x s.tokens))
          (consume-eq-ok now t u eq) (marked-IsSpent hash k t now s w only found same) in
      enroll_node_spends hash (lookup u.node_id s.nodes) u now cmd s marked h

  redeem_spends :
      (hash : String) (found : Option EnrollmentToken) (now : ℕ) (cmd : EnrollAgentCommand)
      (s : Registry)
      → get_by_hash hash s ≡ found
      → IsRegistry s
      → IsOnly hash s
      → is_ok ((redeem found now cmd s).0) ≡ true
      → IsSpent hash ((redeem found now cmd s).1)
  unfolding redeem get_by_hash
  redeem_spends hash none now cmd s e w only h = cc
  redeem_spends hash (some t) now cmd s e w only h =
      let has : EnrollmentToken → Bool = λ x. str_eq x.token_hash hash in
      let (k, found) = find_value-lookup has t s.tokens w.0 e in
      let same : t.token_hash ≡ hash =
        (eq_iff t.token_hash hash).0 (find_value_holds has s.tokens e) in
      redeem_consumed_spends hash (consume now t) k t now cmd s refl w only found same h

  enroll_agent_spends :
      (blank : Bool) (now : ℕ) (cmd : EnrollAgentCommand) (s : Registry)
      → (is_empty cmd.plaintext || is_blank cmd.plaintext) ≡ blank
      → IsRegistry s
      → IsOnly (hash_token cmd.plaintext) s
      → is_ok ((enroll_agent hash_token now cmd s).0) ≡ true
      → IsSpent (hash_token cmd.plaintext) ((enroll_agent hash_token now cmd s).1)
  unfolding enroll_agent
  enroll_agent_spends true now cmd s e w only h = cc (h, e)
  enroll_agent_spends false now cmd s e w only h =
      let hash = hash_token cmd.plaintext in
      let result : enroll_agent hash_token now cmd s ≡ redeem (get_by_hash hash s) now cmd s =
        rw (e, enroll_agent) refl in
      subst (λ r. IsSpent hash r.1) (sym result)
        (redeem_spends hash (get_by_hash hash s) now cmd s refl w only
          (ap (λ r. is_ok r.0) (sym result) ∙ h))

  -- Let an agent enrol with a token whose hash no other stored token has, in a registry whose
  -- tokens stand under their ids. Whatever calls follow,
  -- of operators who issue tokens with other hashes, of agents who enrol and of heartbeats, an
  -- attempt to enrol with the same text raises at every later time.
  pub enroll_agent_once :
      (now later : ℕ) (cmd again : EnrollAgentCommand) (cs : List Call) (s : Registry)
      → IsRegistry s
      → IsOnly (hash_token cmd.plaintext) s
      → is_ok ((enroll_agent hash_token now cmd s).0) ≡ true
      → All (IssuesOther hash_token (hash_token cmd.plaintext)) cs
      → again.plaintext ≡ cmd.plaintext
      → is_ok (
          (enroll_agent hash_token later again
            (run hash_token cs ((enroll_agent hash_token now cmd s).1))).0)
        ≡ false
  enroll_agent_once now later cmd again cs s w only h others same =
      let spent =
        run-IsSpent hash_token (hash_token cmd.plaintext) cs ((enroll_agent hash_token now cmd s).1)
          others (enroll_agent_spends _ now cmd s refl w only h) in
      spent_refuses later again _ (
        subst
          (λ p. IsSpent (hash_token p) (run hash_token cs ((enroll_agent hash_token now cmd s).1)))
          (sym same) spent)
