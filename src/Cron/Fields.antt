-- ===== src/Cron/Fields.antt =====
-- What a cron field admits, by the formats of the docstring of
-- src/sdn_controller/core/services/cron_scheduler.py.
use nervum.Prelude.{
  ℕ, ◌+◌, ◌-◌, ◌*◌, ◌/◌, ◌%◌, ◌≤◌, ◌<◌, ◌≡◌, ◌↔◌, refl, sym, ap, ◌∙◌, arith, String, true, not,
  Option, none, some, ◌⊎◌, inl, inr, str_eq, eq_iff, ◌+++◌, Bool-cases, &&_right,
}
use native.Mathlib.Nat.{div-add-mod', mul-mod_left}
use text.Mathlib.TextLemmas.{append-nil}
use nervum.Errors.{ok, is_ok}
use nervum.Cron.{
  is_empty, all_digits, is_number, int, step_of, split_dash, matches, matches_step, matches_range,
  matches_number, matches_formats, matches_rest,
}
use nervum.Cron.Texts.{
  step_of_sound, step_of_complete, split_dash_sound, split_dash_complete, split_dash_digits,
  number_step,
}

-- `*/N`: every N-th value from the lowest on.
abbrev pub AdmitsStep : String → ℕ → ℕ → Type 0
AdmitsStep step lo value =
    (is_number step ≡ true) × (0 < int step) × ((k : ℕ) × (value ≡ lo + k * int step))

-- `A-B`: both in the field's range, and the value between them.
abbrev pub AdmitsRange : String → String → ℕ → ℕ → ℕ → Type 0
AdmitsRange first last lo hi value =
    (is_number first ≡ true)
    × (is_number last ≡ true)
    × (lo ≤ int first)
    × (int first ≤ hi)
    × (lo ≤ int last)
    × (int last ≤ hi)
    × (int first ≤ value)
    × (value ≤ int last)

-- `A`: in the field's range, and the value.
abbrev pub AdmitsNumber : String → ℕ → ℕ → ℕ → Type 0
AdmitsNumber field lo hi value =
    (is_number field ≡ true) × (lo ≤ int field) × (int field ≤ hi) × (int field ≡ value)

abbrev pub Admits : String → ℕ → ℕ → ℕ → Type 0
Admits field lo hi value =
    (field ≡ "*")
    ⊎ (((step : String) × (field ≡ "*/" +++ step) × AdmitsStep step lo value)
        ⊎ (((first : String) × (last : String) × (field ≡ first +++ ("-" +++ last))
              × AdmitsRange first last lo hi value)
            ⊎ AdmitsNumber field lo hi value))

matches_step_sound :
    (step : String) (lo value : ℕ)
    → lo ≤ value
    → matches_step step value lo ≡ ok true
    → AdmitsStep step lo value
unfolding matches_step
matches_step_sound step lo value le h =
    let whole = div-add-mod' (value - lo) (int step) in
    let passed : (is_number step ≡ true) × (0 < int step) × ((value - lo) % int step ≡ 0) =
      ground arith in
    (passed.0, passed.1, ((value - lo) / int step, omega (arith, whole, passed.2, le)))

matches_step_complete :
    (step : String) (lo value : ℕ) → AdmitsStep step lo value → matches_step step value lo ≡ ok true
unfolding matches_step
matches_step_complete step lo value (number, positive, (k, e)) =
    let rest : value - lo ≡ k * int step = omega (arith, e) in
    let even : (value - lo) % int step ≡ 0 =
      ap (λ n. n % int step) rest ∙ mul-mod_left k (int step) in
    ground arith

matches_range_iff :
    (first last : String) (lo hi value : ℕ)
    → (matches_range (first, last) value lo hi ≡ ok true) ↔ AdmitsRange first last lo hi value
unfolding matches_range
matches_range_iff first last lo hi value = ground arith

matches_number_iff :
    (field : String) (lo hi value : ℕ)
    → (matches_number field value lo hi ≡ ok true) ↔ AdmitsNumber field lo hi value
unfolding matches_number
matches_number_iff field lo hi value = ground arith

rest_sound :
    (o : Option (String × String)) (field : String) (lo hi value : ℕ)
    → split_dash field ≡ o
    → matches_rest o field value lo hi ≡ ok true
    → Admits field lo hi value
rest_sound (some (first, last)) field lo hi value e h = inr (
    inr (
      inl (
        first,
        last,
        split_dash_sound field first last e,
        (matches_range_iff first last lo hi value).0 h,
      )))
rest_sound none field lo hi value e h = inr (inr (inr ((matches_number_iff field lo hi value).0 h)))

formats_sound :
    (o : Option String) (field : String) (lo hi value : ℕ)
    → lo ≤ value
    → step_of field ≡ o
    → matches_formats o field value lo hi ≡ ok true
    → Admits field lo hi value
formats_sound (some step) field lo hi value le e h =
    inr (inl (step, step_of_sound field step e, matches_step_sound step lo value le h))
formats_sound none field lo hi value le e h = rest_sound (split_dash field) field lo hi value refl h

matches_sound :
    (field : String) (lo hi value : ℕ)
    → lo ≤ value
    → matches field value lo hi ≡ ok true
    → Admits field lo hi value
unfolding matches
matches_sound field lo hi value le h = elim (Bool-cases (str_eq field "*")) [
  | inl star ↦ inl ((eq_iff field "*").0 star)
  | inr other ↦ formats_sound (step_of field) field lo hi value le refl (ground arith)
]

by_format :
    (field : String) (o : Option String) (lo hi value : ℕ)
    → step_of field ≡ o
    → matches_formats o field value lo hi ≡ ok true
    → matches field value lo hi ≡ ok true
unfolding matches
by_format field o lo hi value e h = ground arith

by_rest :
    (field : String) (o : Option (String × String)) (lo hi value : ℕ)
    → step_of field ≡ none
    → split_dash field ≡ o
    → matches_rest o field value lo hi ≡ ok true
    → matches field value lo hi ≡ ok true
by_rest field o lo hi value e split h =
    by_format field none lo hi value e (ap (λ r. matches_rest r field value lo hi) split ∙ h)

matches_complete :
    (field : String) (lo hi value : ℕ)
    → Admits field lo hi value
    → matches field value lo hi ≡ ok true
unfolding matches
matches_complete field lo hi value (inl star) = rw star refl
matches_complete field lo hi value (inr (inl (step, e, admits))) =
    by_format field (some step) lo hi value (ap step_of e ∙ step_of_complete step)
      (matches_step_complete step lo value admits)
matches_complete field lo hi value (inr (inr (inl (first, last, e, admits)))) =
    by_rest field (some (first, last)) lo hi value
      (ap step_of e ∙ number_step first ("-" +++ last) admits.0)
      (ap split_dash e
        ∙ split_dash_complete first last
            (&&_right (not (is_empty first)) (all_digits first) admits.0))
      ((matches_range_iff first last lo hi value).1 admits)
matches_complete field lo hi value (inr (inr (inr admits))) =
    by_rest field none lo hi value
      (ap step_of (sym (append-nil field)) ∙ number_step field "" admits.0)
      (split_dash_digits field (&&_right (not (is_empty field)) (all_digits field) admits.0))
      ((matches_number_iff field lo hi value).1 admits)

-- A field matches a value of its range exactly if one of the four formats admits the value.
pub matches_iff :
    (field : String) (lo hi value : ℕ)
    → lo ≤ value
    → (matches field value lo hi ≡ ok true) ↔ Admits field lo hi value
matches_iff field lo hi value le =
    (matches_sound field lo hi value le, matches_complete field lo hi value)

-- Whether a field raises does not depend on the value.
pub matches_raises :
    (field : String) (lo hi v w : ℕ) → is_ok (matches field v lo hi) ≡ is_ok (matches field w lo hi)
unfolding matches matches_step matches_range matches_number
matches_raises field lo hi v w = ground arith
