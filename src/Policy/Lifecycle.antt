-- ===== src/Policy/Lifecycle.antt =====
-- A security policy over its life (src/sdn_controller/core/entities/security_policy.py).
use nervum.Prelude.{
  ◌∙◌, if◌then◌else◌, ◌==◌, length, ap, sym, subst, ℕ, ◌≤◌, ◌≡◌, refl, String, Bool, true, false,
  not, Option, none, some, List, [], ◌∷◌, ◌++◌, arith, All, Dict, filter, str_eq, is_some,
  Bool-cases, inl, inr,
}
use nervum.Errors.{
  ◌>>=◌, ◌>>◌, raise_if, validation_error, >>=-eq-ok, ok-injective, Result, ok, err,
}
use nervum.Policy.{
  redraft, PolicyRule, SecurityPolicy, SecurityPolicyStatus, draft, compiled, applied, failed,
  add_rule, remove_rule, mark_compiled, mark_applied, mark_failed, count_rule, update_counters,
  update, is_compiled,
}
use nervum.Policy.Ordering.{IsSorted, sort_rules-IsSorted}

-- A draft has no script, and a compiled or applied policy has one.
abbrev pub IsBacked : SecurityPolicyStatus → Option String → Type 0
IsBacked draft script = script ≡ none
IsBacked compiled script = is_some script ≡ true
IsBacked applied script = is_some script ≡ true
IsBacked failed script = Unit

pub record IsValid (policy : SecurityPolicy) : Type 0 where
  pub sorted : IsSorted policy.rules
  pub backed : IsBacked policy.status policy.compiled_ruleset

-- The calls that use cases make on a policy.
pub data Call : Type 0 where
  adding : PolicyRule → ℕ → Call
  removing : String → ℕ → Call
  compiling : String → ℕ → Call
  applying : ℕ → Call
  failing : ℕ → Call
  counting : String → ℕ → ℕ → Call
  updating : Option String → Option String → Option (Dict String) → ℕ → Call

-- A call that raises leaves the policy as it was.
abbrev kept : SecurityPolicy → Result SecurityPolicy → SecurityPolicy
kept policy (ok after) = after
kept policy (err _) = policy

unfoldable pub apply_call : Call → SecurityPolicy → SecurityPolicy
apply_call (adding rule now) policy = add_rule rule now policy
apply_call (removing rule_id now) policy = kept policy (remove_rule rule_id now policy)
apply_call (compiling script now) policy = mark_compiled script now policy
apply_call (applying now) policy = kept policy (mark_applied now policy)
apply_call (failing now) policy = mark_failed now policy
apply_call (counting rule_id packets bytes) policy =
    kept policy (update_counters rule_id packets bytes policy)
apply_call (updating name description labels now) policy = update name description labels now policy

unfoldable pub run : List Call → SecurityPolicy → SecurityPolicy
run [] policy = policy
run (c ∷ cs) policy = run cs (apply_call c policy)

filter-All :
    (P : PolicyRule → Type 0) (test : PolicyRule → Bool) (rules : List PolicyRule)
    → All P rules
    → All P (filter test rules)
filter-All P test [] all = tt
filter-All P test (r ∷ rules) all = elim (Bool-cases (test r)) [
  | inl stays ↦ rw stays (all.0, filter-All P test rules all.1)
  | inr goes ↦ rw goes (filter-All P test rules all.1)
]

filter-IsSorted :
    (test : PolicyRule → Bool) (rules : List PolicyRule)
    → IsSorted rules
    → IsSorted (filter test rules)
filter-IsSorted test [] h = tt
filter-IsSorted test (r ∷ rules) h = elim (Bool-cases (test r)) [
  | inl stays ↦
      rw stays
        (filter-All (λ s. r.priority ≤ s.priority) test rules h.0, filter-IsSorted test rules h.1)
  | inr goes ↦ rw goes (filter-IsSorted test rules h.1)
]

-- A rule with other counters stands where it stood.
data Recounted : List PolicyRule → List PolicyRule → Type 0 where
  nothing_left : Recounted [] []
  next_rule :
      {r s : PolicyRule} {rules counted : List PolicyRule}
      → r.priority ≡ s.priority
      → Recounted rules counted
      → Recounted (r ∷ rules) (s ∷ counted)

Recounted-refl : (rules : List PolicyRule) → Recounted rules rules
Recounted-refl [] = nothing_left
Recounted-refl (r ∷ rules) = next_rule refl (Recounted-refl rules)

Recounted-All :
    (n : ℕ) {rules counted : List PolicyRule}
    → Recounted rules counted
    → All (λ s. n ≤ s.priority) rules
    → All (λ s. n ≤ s.priority) counted
Recounted-All n nothing_left all = tt
Recounted-All n (next_rule e rest) all = (omega (arith, e, all.0), Recounted-All n rest all.1)

Recounted-IsSorted :
    {rules counted : List PolicyRule} → Recounted rules counted → IsSorted rules → IsSorted counted
Recounted-IsSorted nothing_left h = tt
Recounted-IsSorted (next_rule {r = r} {s = s} {counted = counted} e rest) h = (
  subst (λ n. All (λ t. n ≤ t.priority) counted) e (Recounted-All r.priority rest h.0),
  Recounted-IsSorted rest h.1,
)

count_rule_recounts :
    (rule_id : String) (packets bytes : ℕ) (rules counted : List PolicyRule)
    → count_rule rule_id packets bytes rules ≡ ok counted
    → Recounted rules counted
unfolding count_rule
count_rule_recounts rule_id packets bytes [] counted h = cc h
count_rule_recounts rule_id packets bytes (r ∷ rules) counted h =
    elim (Bool-cases (str_eq r.rule_id rule_id)) [
      | inl found ↦
          subst (Recounted (r ∷ rules))
            (ok-injective (
              sym (
                ap
                  (λ b.
                    if b
                    then ok (record r { packet_count = packets; byte_count = bytes } ∷ rules)
                    else (count_rule rule_id packets bytes rules >>= λ counted. ok (r ∷ counted)))
                  found)
              ∙ h))
            (next_rule refl (Recounted-refl rules))
      | inr other ↦
          let (rest, e, cons) =
            >>=-eq-ok (count_rule rule_id packets bytes rules) (λ counted. ok (r ∷ counted))
              (sym (
                  ap
                    (λ b.
                      if b
                      then ok (record r { packet_count = packets; byte_count = bytes } ∷ rules)
                      else (count_rule rule_id packets bytes rules >>= λ counted. ok (r ∷ counted)))
                    other)
                ∙ h) in
          subst (Recounted (r ∷ rules)) (ok-injective cons)
            (next_rule refl (count_rule_recounts rule_id packets bytes rules rest e))
    ]

apply_call-IsValid :
    (c : Call) (policy : SecurityPolicy) → IsValid policy → IsValid (apply_call c policy)
unfolding apply_call add_rule remove_rule mark_compiled mark_applied mark_failed update_counters
    update
apply_call-IsValid (adding rule now) policy v = record {
  sorted = sort_rules-IsSorted (policy.rules ++ rule ∷ []);
  backed = refl;
}
apply_call-IsValid (removing rule_id now) policy v =
    go (length (filter (λ r. not (str_eq r.rule_id rule_id)) policy.rules) == length policy.rules)
  where
    go :
        (b : Bool)
        → IsValid (
            kept policy (
              raise_if b validation_error
              >> ok
                  (redraft now (filter (λ r. not (str_eq r.rule_id rule_id)) policy.rules) policy)))
    go true = v
    go false = record {
      sorted = filter-IsSorted (λ r. not (str_eq r.rule_id rule_id)) policy.rules v.sorted;
      backed = refl;
    }
apply_call-IsValid (compiling script now) policy v = record { sorted = v.sorted; backed = refl }
apply_call-IsValid (applying now) policy v = go policy.status v.backed
  where
    go :
        (st : SecurityPolicyStatus)
        → IsBacked st policy.compiled_ruleset
        → IsValid (
            kept policy (
              raise_if (not (is_compiled st)) validation_error
              >> ok (record policy { applied_at = some now; status = applied; updated_at = now })))
    go compiled b = record { sorted = v.sorted; backed = b }
    go draft b = v
    go applied b = v
    go failed b = v
apply_call-IsValid (failing now) policy v = record { sorted = v.sorted; backed = tt }
apply_call-IsValid (counting rule_id packets bytes) policy v =
    go (count_rule rule_id packets bytes policy.rules) refl
  where
    go :
        (r : Result (List PolicyRule))
        → count_rule rule_id packets bytes policy.rules ≡ r
        → IsValid (kept policy (r >>= λ rules. ok (record policy { rules = rules })))
    go (ok rules) e = record {
      sorted =
          Recounted-IsSorted (count_rule_recounts rule_id packets bytes policy.rules rules e)
            v.sorted;
      backed = v.backed;
    }
    go (err _) e = v
apply_call-IsValid (updating name description labels now) policy v = record {
  sorted = v.sorted;
  backed = v.backed;
}

run-IsValid_from :
    (cs : List Call) (policy : SecurityPolicy) → IsValid policy → IsValid (run cs policy)
unfolding run
run-IsValid_from [] policy v = v
run-IsValid_from (c ∷ cs) policy v =
    run-IsValid_from cs (apply_call c policy) (apply_call-IsValid c policy v)

-- A policy that was made with sorted rules as a draft without a script.
abbrev pub new_policy : String → String → List PolicyRule → ℕ → SecurityPolicy
new_policy id name rules now = record {
  id = id;
  name = name;
  description = "";
  project_id = none;
  labels = [];
  rules = rules;
  status = draft;
  compiled_ruleset = none;
  compiled_at = none;
  applied_at = none;
  created_at = now;
  updated_at = now;
}

-- Whatever calls are made on a new policy without rules, its rules stand in the order of their
-- priorities, a draft has no compiled script, and a policy that is compiled or applied has one.
pub run-new_policy-IsValid :
    (id name : String) (now : ℕ) (cs : List Call) → IsValid (run cs (new_policy id name [] now))
run-new_policy-IsValid id name now cs =
    run-IsValid_from cs (new_policy id name [] now) (record { sorted = tt; backed = refl })
