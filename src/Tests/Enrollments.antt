-- ===== src/Tests/Enrollments.antt =====
-- A node that is enrolled with a token, and a second attempt
-- (src/sdn_controller/core/use_cases/enrollment.py).
use nervum.Prelude.{
  ◌∙◌, insert-AllEntries, sym, ◌≡◌, refl, String, true, false, none, some, List, [], ◌∷◌, lookup,
  str_eq, eq_iff, Bool-cases, inl, inr,
}
use nervum.Errors.{is_ok}
use nervum.Node.{Node, NodeStatus, enroll}
use nervum.Enrollment.{
  consume, get_by_hash, EnrollmentToken, Registry, EnrollAgentCommand, enroll_agent, is_expired,
}
use nervum.Enrollment.SingleUse.{Call, enrolled, beaten, run}
use nervum.Enrollment.OneAgent.{IsRegistry, IsOnly, enroll_agent_once}

-- A stand-in for the digest: the text itself.
abbrev digest : String → String
digest t = t

abbrev waiting : Node
waiting = record {
  id = "node_1";
  name = "edge";
  mgmt_ip = "10.0.0.2";
  created_at = 0;
  updated_at = 0;
  status = NodeStatus.pending;
  roles = [];
  labels = [];
  agent_version = none;
  last_seen_at = none;
  capabilities = none;
  tls_thumbprint = none;
  project_id = none;
  maintenance = false;
  maintenance_at = none;
}

abbrev token : EnrollmentToken
token = record {
  id = "tok_1";
  node_id = "node_1";
  token_hash = "enroll_a";
  issued_at = 0;
  expires_at = 60000000;
  used_at = none;
  issued_by = none;
}

abbrev registry : Registry
registry = record { nodes = ("node_1", waiting) ∷ []; tokens = ("tok_1", token) ∷ [] }

abbrev command : EnrollAgentCommand
command = record {
  plaintext = "enroll_a";
  agent_version = some "1.0";
  capabilities = none;
  tls_thumbprint = none;
}

enrols : is_ok ((enroll_agent digest 5 command registry).0) ≡ true
unfolding enroll_agent get_by_hash consume enroll is_expired
enrols = refl

registry-IsRegistry : IsRegistry registry
registry-IsRegistry = insert-AllEntries (λ k t. t.id ≡ k) "tok_1" token [] refl (tt, λ k t h. cc h)

one_key : (j : String) (t : EnrollmentToken) → lookup j registry.tokens ≡ some t → "tok_1" ≡ j
one_key j t h = elim (Bool-cases (str_eq "tok_1" j)) [
  | inl e ↦ (eq_iff "tok_1" j).0 e
  | inr e ↦ cc (h, e)
]

registry-IsOnly : IsOnly "enroll_a" registry
registry-IsOnly j k t u ht hu e f = sym (one_key j t ht) ∙ one_key k u hu

abbrev calls : List Call
calls =
    beaten 7 (record { node_id = "node_1"; agent_version = none; capabilities = none })
    ∷ enrolled 8 command
    ∷ []

enroll_agent_once_example :
    is_ok (
      (enroll_agent digest 9 command
        (run digest calls ((enroll_agent digest 5 command registry).1))).0)
    ≡ false
enroll_agent_once_example =
    enroll_agent_once digest 5 9 command command calls registry registry-IsRegistry registry-IsOnly
      enrols (tt, (tt, tt)) refl
