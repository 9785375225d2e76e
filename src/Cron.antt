-- ===== src/Cron.antt =====
-- The cron schedules of src/sdn_controller/core/services/cron_scheduler.py. White space and digits
-- are those of ASCII.
pub mod Texts
pub mod Fields
pub mod Schedules
use nervum.Prelude.{
  ◌||◌, ℕ, ◌+◌, ◌-◌, ◌*◌, ◌%◌, String, Bool, true, false, not, ◌&&◌, Option, none, some, List, [],
  ◌∷◌, leb, ltb, ◌==◌, str_eq, is_empty, is_space, ◌+++◌, if◌then◌else◌,
}
use Prim.Native.Char.{code}
use nervum.Errors.{Result, ok, err, validation_error, ◌>>=◌, ◌>>◌}

-- The word at the front, and a word that is kept unless it is empty.
abbrev pub emit : String → List String → List String
emit word words = if is_empty word then words else word ∷ words

-- The text up to the first white space, and the words after it.
abbrev pub words_from : String → String × List String
words_from String.[] = ("", [])
words_from (String.◌∷◌ c s) =
    let (word, words) = words_from s in
    if is_space (code c) then ("", emit word words) else (String.◌∷◌ c word, words)

-- `s.strip().split()`
abbrev pub split_words : String → List String
split_words s = let (word, words) = words_from s in emit word words

abbrev pub is_digit : ℕ → Bool
is_digit c = leb 48 c && leb c 57

abbrev pub all_digits : String → Bool
all_digits String.[] = true
all_digits (String.◌∷◌ c s) = is_digit (code c) && all_digits s

-- `s.isdigit()`
abbrev pub is_number : String → Bool
is_number s = not (is_empty s) && all_digits s

-- `int(s)` on digits
abbrev pub int_from : ℕ → String → ℕ
int_from n String.[] = n
int_from n (String.◌∷◌ c s) = int_from (n * 10 + (code c - 48)) s

abbrev pub int : String → ℕ
int = int_from 0

-- `field[2:]` if `field.startswith("*/")`
abbrev pub step_of : String → Option String
step_of String.[] = none
step_of (String.◌∷◌ c String.[]) = none
step_of (String.◌∷◌ c (String.◌∷◌ d s)) =
    if str_eq (String.◌∷◌ c (String.◌∷◌ d String.[])) "*/" then some s else none

abbrev pub before : String → Option (String × String) → Option (String × String)
before c none = none
before c (some (s, t)) = some (c +++ s, t)

-- `field.split("-", 1)` if `"-" in field`
abbrev pub split_dash : String → Option (String × String)
split_dash String.[] = none
split_dash (String.◌∷◌ c s) =
    let rest = split_dash s in
    if str_eq (String.◌∷◌ c String.[]) "-"
    then some ("", s)
    else before (String.◌∷◌ c String.[]) rest

-- `lo <= n <= hi`
abbrev pub within : ℕ → ℕ → ℕ → Bool
within lo n hi = leb lo n && leb n hi

unfoldable pub matches_step : String → ℕ → ℕ → Result Bool
matches_step step value lo =
    if not (is_number step)
    then err validation_error
    else if int step == 0
    then err validation_error
    else ok ((value - lo) % int step == 0)

unfoldable pub matches_range : String × String → ℕ → ℕ → ℕ → Result Bool
matches_range (first, last) value lo hi =
    if not (is_number first) || not (is_number last)
    then err validation_error
    else if not (within lo (int first) hi && within lo (int last) hi)
    then err validation_error
    else ok (within (int first) value (int last))

unfoldable pub matches_number : String → ℕ → ℕ → ℕ → Result Bool
matches_number field value lo hi =
    if is_number field
    then (if within lo (int field) hi then ok (int field == value) else err validation_error)
    else err validation_error

abbrev pub matches_rest : Option (String × String) → String → ℕ → ℕ → ℕ → Result Bool
matches_rest (some range) field value lo hi = matches_range range value lo hi
matches_rest none field value lo hi = matches_number field value lo hi

abbrev pub matches_formats : Option String → String → ℕ → ℕ → ℕ → Result Bool
matches_formats (some step) field value lo hi = matches_step step value lo
matches_formats none field value lo hi = matches_rest (split_dash field) field value lo hi

-- `_matches`, which is called with values that are at least `lo`
unfoldable pub matches : String → ℕ → ℕ → ℕ → Result Bool
matches field value lo hi =
    if str_eq field "*" then ok true else matches_formats (step_of field) field value lo hi

-- A moment: minute, hour, day, month and Python's `weekday()`, in which Monday is 0.
pub record Moment : Type 0 where
  pub minute : ℕ
  pub hour : ℕ
  pub day : ℕ
  pub month : ℕ
  pub weekday : ℕ

-- `a and b`, where the second call is not made if the first says no
abbrev pub and_then : Result Bool → Result Bool → Result Bool
and_then (ok true) next = next
and_then (ok false) next = ok false
and_then (err e) next = err e

abbrev pub due_fields : List String → Moment → Result Bool
due_fields (minute ∷ (hour ∷ (dom ∷ (month ∷ (dow ∷ []))))) now =
    and_then (matches minute now.minute 0 59) (
      and_then (matches hour now.hour 0 23) (
        and_then (matches dom now.day 1 31)
          (and_then (matches month now.month 1 12) (matches dow ((now.weekday + 1) % 7) 0 6))))
due_fields _ now = err validation_error

-- `CronScheduler.is_due`
unfoldable pub is_due : String → Moment → Result Bool
is_due cron_expr now = due_fields (split_words cron_expr) now

-- What a field is checked for: a `ValidationError` stays one.
abbrev pub check_field : String → ℕ → ℕ → Result (Unit {0})
check_field field lo hi = matches field lo lo hi >>= λ _. ok tt

abbrev pub check_fields : List String → Result (Unit {0})
check_fields (minute ∷ (hour ∷ (dom ∷ (month ∷ (dow ∷ []))))) = do
  check_field minute 0 59
  check_field hour 0 23
  check_field dom 1 31
  check_field month 1 12
  check_field dow 0 6
check_fields _ = err validation_error

-- `CronScheduler.validate`
unfoldable pub validate_cron : String → Result (Unit {0})
validate_cron cron_expr = check_fields (split_words cron_expr)
