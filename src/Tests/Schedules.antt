-- ===== src/Tests/Schedules.antt =====
-- Schedules and moments (src/sdn_controller/core/services/cron_scheduler.py).
use nervum.Prelude.{◌≡◌, refl, String, true, [], ◌∷◌, arith}
use nervum.Errors.{ok, err, validation_error}
use nervum.Cron.{
  Moment, split_words, is_due, validate_cron, matches, matches_step, matches_range, matches_number,
}
use nervum.Cron.Schedules.{Says, AllAdmit, validate_cron-is_due}

-- Monday at 2:00.
abbrev monday_at_two : Moment
monday_at_two = record { minute = 0; hour = 2; day = 25; month = 5; weekday = 0 }

abbrev nightly : String
nightly = " */15 1-3  * * 1 "

words : split_words nightly ≡ "*/15" ∷ ("1-3" ∷ ("*" ∷ ("*" ∷ ("1" ∷ []))))
words = refl

due : is_due nightly monday_at_two ≡ ok true
unfolding is_due matches matches_step matches_range matches_number
due = refl

refused : validate_cron "61 * * * *" ≡ err validation_error
unfolding validate_cron matches matches_step matches_range matches_number
refused = refl

accepted : validate_cron nightly ≡ ok tt
unfolding validate_cron matches matches_step matches_range matches_number
accepted = refl

validate_cron-is_due_example :
    Says (is_due nightly monday_at_two) (AllAdmit (split_words nightly) monday_at_two)
validate_cron-is_due_example =
    validate_cron-is_due nightly monday_at_two accepted (omega arith, omega arith)
