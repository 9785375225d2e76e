-- ===== src/Policy/Ordering.antt =====
-- Rules in the order of their priorities
-- (src/sdn_controller/core/entities/security_policy.py, src/sdn_controller/core/services/policy_compiler.py).
use nervum.Prelude.{
  inr, ltb→lt, inl, Bool-cases, ℕ, ◌≤◌, ◌≡◌, refl, Bool, Option, none, some, List, [], ◌∷◌, arith,
  ltb, All, if◌then◌else◌,
}
use nervum.Policy.{PolicyRule, insert_rule, sort_rules}

abbrev pub IsSorted : List PolicyRule → Type 0
IsSorted [] = Unit
IsSorted (r ∷ rules) = All (λ s. r.priority ≤ s.priority) rules × IsSorted rules

insert_rule-All :
    (n : ℕ) (r : PolicyRule) (rules : List PolicyRule)
    → n ≤ r.priority
    → All (λ s. n ≤ s.priority) rules
    → All (λ s. n ≤ s.priority) (insert_rule r rules)
unfolding insert_rule
insert_rule-All n r [] h all = (h, tt)
insert_rule-All n r (s ∷ rules) h all = ground (arith, insert_rule-All n r rules h all.1)

All-above :
    (n m : ℕ) (rules : List PolicyRule)
    → n ≤ m
    → All (λ s. m ≤ s.priority) rules
    → All (λ s. n ≤ s.priority) rules
All-above n m [] h all = tt
All-above n m (s ∷ rules) h all = (omega (arith, all.0), All-above n m rules h all.1)

insert_rule-IsSorted :
    (r : PolicyRule) (rules : List PolicyRule) → IsSorted rules → IsSorted (insert_rule r rules)
unfolding insert_rule
insert_rule-IsSorted r [] h = (tt, tt)
insert_rule-IsSorted r (s ∷ rules) h = elim (Bool-cases (ltb s.priority r.priority)) [
  | inl below ↦ rw below (
    insert_rule-All s.priority r rules (omega (arith, ltb→lt s.priority r.priority below)) h.0,
    insert_rule-IsSorted r rules h.1,
  )
  | inr above ↦
      let le : r.priority ≤ s.priority = ground arith in
      rw above ((le, All-above r.priority s.priority rules le h.0), h)
]

pub sort_rules-IsSorted : (rules : List PolicyRule) → IsSorted (sort_rules rules)
unfolding sort_rules
sort_rules-IsSorted [] = tt
sort_rules-IsSorted (r ∷ rules) =
    insert_rule-IsSorted r (sort_rules rules) (sort_rules-IsSorted rules)

module _ (admits : PolicyRule → Bool) where
  -- The first rule of the list that admits.
  abbrev pub first : List PolicyRule → Option PolicyRule
  first [] = none
  first (r ∷ rules) = if admits r then some r else first rules

  -- `r`, unless the other one has a smaller number.
  abbrev pub better : PolicyRule → Option PolicyRule → Option PolicyRule
  better r none = some r
  better r (some s) = if ltb s.priority r.priority then some s else some r

  -- The rule that admits with the smallest number, the earliest of these.
  abbrev pub best : List PolicyRule → Option PolicyRule
  best [] = none
  best (r ∷ rules) = if admits r then better r (best rules) else best rules

  better_first :
      (r : PolicyRule) (rules : List PolicyRule)
      → All (λ s. r.priority ≤ s.priority) rules
      → better r (first rules) ≡ some r
  better_first r [] h = refl
  better_first r (s ∷ rules) h = ground (arith, better_first r rules h.1)

  first-insert_rule :
      (r : PolicyRule) (rules : List PolicyRule)
      → IsSorted rules
      → first (insert_rule r rules) ≡ (if admits r then better r (first rules) else first rules)
  unfolding insert_rule
  first-insert_rule r [] h = refl
  first-insert_rule r (s ∷ rules) h = elim (Bool-cases (ltb s.priority r.priority)) [
    | inl below ↦ ground (arith, first-insert_rule r rules h.1)
    | inr above ↦
        let le : r.priority ≤ s.priority = ground arith in
        ground
          (arith, better_first r (s ∷ rules) (le, All-above r.priority s.priority rules le h.0))
  ]

  -- In a sorted list the first rule that admits is the best one.
  pub first-sort_rules : (rules : List PolicyRule) → first (sort_rules rules) ≡ best rules
  unfolding sort_rules
  first-sort_rules [] = refl
  first-sort_rules (r ∷ rules) =
      rw
        (first-insert_rule r (sort_rules rules) (sort_rules-IsSorted rules), first-sort_rules rules)
        refl
