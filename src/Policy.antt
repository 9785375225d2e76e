-- ===== src/Policy.antt =====
-- Security policies: src/sdn_controller/core/entities/security_policy.py. A method that changes the
-- policy returns the new one. The identifiers of new rules are arguments.
pub mod Compiler
pub mod Ordering
pub mod Nft
pub mod Texts
pub mod Meaning
pub mod Writable
pub mod Soundness
pub mod Openings
pub mod Lifecycle
use nervum.Prelude.{
  ℕ, String, Bool, true, false, not, ◌&&◌, ◌||◌, Option, none, some, List, [], ◌∷◌, ◌++◌, any,
  filter, length, leb, ltb, ◌==◌, str_eq, is_empty, Dict, if◌then◌else◌, opt_str_eq,
}
use nervum.Errors.{Result, ok, err, validation_error, raise_if, ◌>>=◌, ◌>>◌}

pub record PolicyRule : Type 0 where
  pub rule_id : String
  pub priority : ℕ
  pub direction : String
  pub action : String
  pub source_type : String
  pub source_value : String
  pub destination_type : String
  pub destination_value : String
  pub service_object_id : Option String
  pub enabled : Bool
  pub comment : String
  pub packet_count : ℕ
  pub byte_count : ℕ

-- `s in words`
abbrev pub text_in : String → List String → Bool
text_in s = any (str_eq s)

abbrev pub endpoint_types : List String
endpoint_types = "security_group" ∷ "address_pool" ∷ "cidr" ∷ "any" ∷ []

abbrev pub directions : List String
directions = "ingress" ∷ "egress" ∷ "both" ∷ []

abbrev pub actions : List String
actions = "allow" ∷ "deny" ∷ []

-- A `cidr` that is not empty and that `ip_network(value, strict=False)` refuses.
abbrev pub bad_cidr : (String → Bool) → String → String → Bool
bad_cidr is_network type value =
    str_eq type "cidr" && (not (is_empty value) && not (is_network value))

-- `SecurityPolicyRule.__post_init__`, where `is_network` tells the texts that `ip_network` accepts.
unfoldable pub make_rule : (String → Bool) → PolicyRule → Result PolicyRule
make_rule is_network rule = do
  raise_if (not (leb 1 rule.priority && leb rule.priority 65535)) validation_error
  raise_if (not (text_in rule.direction directions)) validation_error
  raise_if (not (text_in rule.action actions)) validation_error
  raise_if (not (text_in rule.source_type endpoint_types)) validation_error
  raise_if (not (text_in rule.destination_type endpoint_types)) validation_error
  raise_if (bad_cidr is_network rule.source_type rule.source_value) validation_error
  raise_if (bad_cidr is_network rule.destination_type rule.destination_value) validation_error
  ok rule

pub data SecurityPolicyStatus : Type 0 where
  draft compiled applied failed : SecurityPolicyStatus

pub record SecurityPolicy : Type 0 where
  pub id : String
  pub name : String
  pub description : String
  pub project_id : Option String
  pub labels : Dict String
  pub rules : List PolicyRule
  pub status : SecurityPolicyStatus
  pub compiled_ruleset : Option String
  pub compiled_at : Option ℕ
  pub applied_at : Option ℕ
  pub created_at : ℕ
  pub updated_at : ℕ

-- `sorted(rules, key=lambda r: r.priority)`, which is stable
unfoldable pub insert_rule : PolicyRule → List PolicyRule → List PolicyRule
insert_rule r [] = r ∷ []
insert_rule r (s ∷ rules) =
    let rest = insert_rule r rules in if ltb s.priority r.priority then s ∷ rest else r ∷ s ∷ rules

unfoldable pub sort_rules : List PolicyRule → List PolicyRule
unfolding insert_rule
sort_rules [] = []
sort_rules (r ∷ rules) = insert_rule r (sort_rules rules)

-- The policy is a draft again, without a ruleset.
abbrev pub redraft : ℕ → List PolicyRule → SecurityPolicy → SecurityPolicy
redraft now rules policy = record policy {
  rules = rules;
  status = draft;
  compiled_ruleset = none;
  updated_at = now;
}

unfoldable pub add_rule : PolicyRule → ℕ → SecurityPolicy → SecurityPolicy
add_rule rule now policy = redraft now (sort_rules (policy.rules ++ rule ∷ [])) policy

unfoldable pub remove_rule : String → ℕ → SecurityPolicy → Result SecurityPolicy
remove_rule rule_id now policy =
    let new_rules = filter (λ r. not (str_eq r.rule_id rule_id)) policy.rules in
    do
      raise_if (length new_rules == length policy.rules) validation_error
      ok (redraft now new_rules policy)

unfoldable pub mark_compiled : String → ℕ → SecurityPolicy → SecurityPolicy
mark_compiled script now policy = record policy {
  compiled_ruleset = some script;
  compiled_at = some now;
  status = compiled;
  updated_at = now;
}

abbrev pub is_compiled : SecurityPolicyStatus → Bool
is_compiled compiled = true
is_compiled _ = false

unfoldable pub mark_applied : ℕ → SecurityPolicy → Result SecurityPolicy
mark_applied now policy = do
  raise_if (not (is_compiled policy.status)) validation_error
  ok (record policy { applied_at = some now; status = applied; updated_at = now })

unfoldable pub mark_failed : ℕ → SecurityPolicy → SecurityPolicy
mark_failed now policy = record policy { status = failed; updated_at = now }

-- The rules after the counters of the first one with the id are set, if there is one.
unfoldable pub count_rule : String → ℕ → ℕ → List PolicyRule → Result (List PolicyRule)
count_rule rule_id packets bytes [] = err validation_error
count_rule rule_id packets bytes (r ∷ rules) =
    let rest = count_rule rule_id packets bytes rules in
    if str_eq r.rule_id rule_id
    then ok (record r { packet_count = packets; byte_count = bytes } ∷ rules)
    else (rest >>= λ counted. ok (r ∷ counted))

unfoldable pub update_counters : String → ℕ → ℕ → SecurityPolicy → Result SecurityPolicy
unfolding count_rule
update_counters rule_id packets bytes policy = do
  rules ← count_rule rule_id packets bytes policy.rules
  ok (record policy { rules = rules })

-- `name is not None and name != self.name`
abbrev pub is_changed : Option String → String → Bool
is_changed none old = false
is_changed (some new) old = not (str_eq new old)

abbrev pub or_same {ℓ} : {A : Type ℓ} → Option A → A → A
or_same none old = old
or_same (some new) old = new

abbrev pub is_given {ℓ} : {A : Type ℓ} → Option A → Bool
is_given none = false
is_given (some _) = true

unfoldable pub update :
    Option String → Option String → Option (Dict String) → ℕ → SecurityPolicy → SecurityPolicy
update name description labels now policy =
    let changed =
      is_changed name policy.name || is_changed description policy.description || is_given labels in
    record policy {
      name = or_same name policy.name;
      description = or_same description policy.description;
      labels = or_same labels policy.labels;
      updated_at = if changed then now else policy.updated_at;
    }
