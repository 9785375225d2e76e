-- ===== src/Cron/Schedules.antt =====
-- Schedules that were validated (src/sdn_controller/core/services/cron_scheduler.py).
use nervum.Prelude.{
  sym, ◌∙◌, ap, ℕ, ◌+◌, ◌%◌, ◌≤◌, ◌≡◌, ◌↔◌, refl, arith, String, Bool, true, false, List, [], ◌∷◌,
}
use nervum.Errors.{◌>>◌, ok-injective, Result, ok, err, is_ok}
use nervum.Cron.{
  Moment, matches, and_then, split_words, due_fields, is_due, check_fields, check_field,
  validate_cron,
}
use nervum.Cron.Fields.{Admits, matches_iff, matches_raises}

-- A moment whose day and month count from 1.
abbrev pub IsMoment : Moment → Type 0
IsMoment now = (1 ≤ now.day) × (1 ≤ now.month)

-- The five fields admit the moment; the days of the week count from Sunday.
abbrev pub AllAdmit : List String → Moment → Type 0
AllAdmit (minute ∷ (hour ∷ (dom ∷ (month ∷ (dow ∷ []))))) now =
    Admits minute 0 59 now.minute
    × (Admits hour 0 23 now.hour
        × (Admits dom 1 31 now.day
            × (Admits month 1 12 now.month × Admits dow 0 6 ((now.weekday + 1) % 7))))
AllAdmit _ now = ⊥

-- A call that returns an answer, which is yes exactly if `P`.
abbrev pub Says : Result Bool → Type 0 → Type 0
Says r P = (said : Bool) × (r ≡ ok said) × ((said ≡ true) ↔ P)

says_match :
    (field : String) (lo hi value : ℕ)
    → lo ≤ value
    → is_ok (check_field field lo hi) ≡ true
    → Says (matches field value lo hi) (Admits field lo hi value)
says_match field lo hi value le checked = go (matches field value lo hi) refl
  where
    go : (r : Result Bool) → matches field value lo hi ≡ r → Says r (Admits field lo hi value)
    go (ok b) e = (
      b,
      refl,
      (
        λ yes. (matches_iff field lo hi value le).0 (e ∙ ap ok yes),
        λ admits. ok-injective (sym e ∙ (matches_iff field lo hi value le).1 admits),
      ),
    )
    go (err x) e =
        let same = matches_raises field lo hi lo value in absurd (ground (arith, same, e, checked))

says_and : (a b : Result Bool) {P Q : Type 0} → Says a P → Says b Q → Says (and_then a b) (P × Q)
says_and (ok true) b (x, e, p) (y, f, q) =
    (y, f, (λ yes. (p.0 (sym (ok-injective e)), q.0 yes), λ both. q.1 both.1))
says_and (ok false) b (x, e, p) (y, f, q) =
    (false, refl, (λ yes. cc yes, λ both. ok-injective e ∙ p.1 both.0))
says_and (err z) b (x, e, p) (y, f, q) = cc e

-- A check that is followed by others.
check_first :
    (a : Result (Unit {0})) (rest : Result (Unit {0}))
    → (a >> rest) ≡ ok tt
    → (is_ok a ≡ true) × (rest ≡ ok tt)
check_first (ok t) rest h = (refl, h)
check_first (err x) rest h = cc h

says_due :
    (words : List String) (now : Moment)
    → IsMoment now
    → check_fields words ≡ ok tt
    → Says (due_fields words now) (AllAdmit words now)
says_due (minute ∷ (hour ∷ (dom ∷ (month ∷ (dow ∷ []))))) now m checked =
    let (c1, r1) = check_first (check_field minute 0 59) _ checked in
    let (c2, r2) = check_first (check_field hour 0 23) _ r1 in
    let (c3, r3) = check_first (check_field dom 1 31) _ r2 in
    let (c4, r4) = check_first (check_field month 1 12) _ r3 in
    says_and (matches minute now.minute 0 59) _ (says_match minute 0 59 now.minute (omega arith) c1)
      (says_and (matches hour now.hour 0 23) _ (says_match hour 0 23 now.hour (omega arith) c2) (
        says_and (matches dom now.day 1 31) _ (says_match dom 1 31 now.day m.0 c3) (
          says_and (matches month now.month 1 12) _ (says_match month 1 12 now.month m.1 c4)
            (says_match dow 0 6 ((now.weekday + 1) % 7) (omega arith) (ap is_ok r4)))))
says_due _ now m checked = cc checked

-- A schedule that was accepted never raises: for every moment whose day and month count from 1 it
-- returns an answer, and the answer is yes exactly if each of the five fields admits the moment by
-- one of the formats of the docstring, with the days of the week counted from Sunday.
pub validate_cron-is_due :
    (cron_expr : String) (now : Moment)
    → validate_cron cron_expr ≡ ok tt
    → IsMoment now
    → Says (is_due cron_expr now) (AllAdmit (split_words cron_expr) now)
unfolding validate_cron is_due
validate_cron-is_due cron_expr now checked m = says_due (split_words cron_expr) now m checked
