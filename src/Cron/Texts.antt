-- ===== src/Cron/Texts.antt =====
-- How the texts of cron fields are taken apart (src/sdn_controller/core/services/cron_scheduler.py).
use nervum.Prelude.{
  &&_left, &&_right, ℕ, ◌≡◌, ◌≢◌, refl, sym, ap, ◌∙◌, arith, String, true, false, Option, none,
  some, inl, inr, str_eq, eq_iff, ◌+++◌, Bool-cases,
}
use Prim.Native.Char.{Char, char, code}
use text.Mathlib.TextLemmas.{nil-append, cons-append, append_assoc}
use nervum.Cron.{all_digits, is_digit, is_number, step_of, split_dash, before}

-- The code of the first character.
abbrev head_code : String → ℕ
head_code String.[] = 0
head_code (String.◌∷◌ c s) = code c

-- Two characters before a text, and one.
cons_two :
    (c d : Char) (s : String)
    → String.◌∷◌ c (String.◌∷◌ d String.[]) +++ s ≡ String.◌∷◌ c (String.◌∷◌ d s)
cons_two c d s =
    cons-append c (String.◌∷◌ d String.[]) s
    ∙ ap (String.◌∷◌ c) (cons-append d String.[] s ∙ ap (String.◌∷◌ d) (nil-append s))

cons_one : (c : Char) (s : String) → String.◌∷◌ c String.[] +++ s ≡ String.◌∷◌ c s
cons_one c s = cons-append c String.[] s ∙ ap (String.◌∷◌ c) (nil-append s)

pub step_of_sound : (field step : String) → step_of field ≡ some step → field ≡ "*/" +++ step
step_of_sound String.[] step h = cc h
step_of_sound (String.◌∷◌ c String.[]) step h = cc h
step_of_sound (String.◌∷◌ c (String.◌∷◌ d s)) step h =
    elim (Bool-cases (str_eq (String.◌∷◌ c (String.◌∷◌ d String.[])) "*/")) [
      | inl starts ↦
          let same : s ≡ step = ground arith in
          let head = (eq_iff (String.◌∷◌ c (String.◌∷◌ d String.[])) "*/").0 starts in
          sym (cons_two c d s) ∙ ap (λ t. t +++ s) head ∙ ap (λ t. "*/" +++ t) same
      | inr other ↦ ground arith
    ]

pub step_of_complete : (step : String) → step_of ("*/" +++ step) ≡ some step
step_of_complete step = ap step_of (cons_two (char 42 tt) (char 47 tt) step)

digit_dash : (c : Char) → is_digit (code c) ≡ true → str_eq (String.◌∷◌ c String.[]) "-" ≡ false
digit_dash c h = elim (Bool-cases (str_eq (String.◌∷◌ c String.[]) "-")) [
  | inl same ↦
      let e = ap head_code ((eq_iff (String.◌∷◌ c String.[]) "-").0 same) in ground (arith, e)
  | inr other ↦ other
]

dash_cons : (s : String) → "-" +++ s ≡ String.◌∷◌ (char 45 tt) s
dash_cons s = cons_one (char 45 tt) s

before_sound :
    (c : Char) (s a b : String) (rest : Option (String × String))
    → ((x y : String) → rest ≡ some (x, y) → s ≡ x +++ ("-" +++ y))
    → before (String.◌∷◌ c String.[]) rest ≡ some (a, b)
    → String.◌∷◌ c s ≡ a +++ ("-" +++ b)
before_sound c s a b none each h = cc h
before_sound c s a b (some (x, y)) each h =
    let first : String.◌∷◌ c String.[] +++ x ≡ a = cc h in
    let last : y ≡ b = cc h in
    sym (cons_one c s)
    ∙ ap (λ t. String.◌∷◌ c String.[] +++ t) (each x y refl)
    ∙ sym (append_assoc (String.◌∷◌ c String.[]) x ("-" +++ y))
    ∙ ap (λ t. t +++ ("-" +++ y)) first
    ∙ ap (λ t. a +++ ("-" +++ t)) last

pub split_dash_sound :
    (field a b : String) → split_dash field ≡ some (a, b) → field ≡ a +++ ("-" +++ b)
split_dash_sound String.[] a b h = cc h
split_dash_sound (String.◌∷◌ c s) a b h = elim (Bool-cases (str_eq (String.◌∷◌ c String.[]) "-")) [
  | inl dash ↦
      let head = (eq_iff (String.◌∷◌ c String.[]) "-").0 dash in
      let first : "" ≡ a = ground arith in
      let last : s ≡ b = ground arith in
      sym (cons_one c s)
      ∙ ap (λ t. t +++ s) head
      ∙ sym (nil-append ("-" +++ s))
      ∙ ap (λ t. t +++ ("-" +++ s)) first
      ∙ ap (λ t. a +++ ("-" +++ t)) last
  | inr other ↦ before_sound c s a b (split_dash s) (λ x y. split_dash_sound s x y) (ground arith)
]

pub split_dash_complete :
    (a b : String) → all_digits a ≡ true → split_dash (a +++ ("-" +++ b)) ≡ some (a, b)
split_dash_complete String.[] b h = ap split_dash (nil-append ("-" +++ b) ∙ dash_cons b)
split_dash_complete (String.◌∷◌ c a) b h =
    let other = digit_dash c (&&_left (is_digit (code c)) (all_digits a) h) in
    let rest = split_dash_complete a b (&&_right (is_digit (code c)) (all_digits a) h) in
    ap split_dash (cons-append c a ("-" +++ b)) ∙ rw (other, rest, cons_one c a) refl

pub split_dash_digits : (s : String) → all_digits s ≡ true → split_dash s ≡ none
split_dash_digits String.[] h = refl
split_dash_digits (String.◌∷◌ c s) h = ground (arith, digit_dash c, split_dash_digits s)

pub number_star : (s t : String) → is_number s ≡ true → s +++ t ≢ "*"
number_star String.[] t h e = cc h
number_star (String.◌∷◌ c s) t h e =
    let k = ap head_code (sym (cons-append c s t) ∙ e) in ground (arith, k)

step_digit : (c : Char) (s : String) → is_digit (code c) ≡ true → step_of (String.◌∷◌ c s) ≡ none
step_digit c String.[] h = refl
step_digit c (String.◌∷◌ d s) h =
    elim (Bool-cases (str_eq (String.◌∷◌ c (String.◌∷◌ d String.[])) "*/")) [
      | inl same ↦
          let k = ap head_code ((eq_iff (String.◌∷◌ c (String.◌∷◌ d String.[])) "*/").0 same) in
          ground (arith, k)
      | inr other ↦ rw other refl
    ]

pub number_step : (s t : String) → is_number s ≡ true → step_of (s +++ t) ≡ none
number_step String.[] t h = cc h
number_step (String.◌∷◌ c s) t h =
    ap step_of (cons-append c s t) ∙ step_digit c (s +++ t) (ground arith)
