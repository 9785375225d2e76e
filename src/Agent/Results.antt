-- ===== src/Agent/Results.antt =====
-- What the result of a plan says (src/netos_agent/core/use_cases/apply_plan.py, `execute`).
use nervum.Prelude.{◌≡◌, refl, Bool, true, ◌&&◌, List, [], ◌∷◌, all, arith}
use nervum.Errors.{Result, ok, err, is_ok}
use nervum.Agent.{
  DomainError, PlanStep, PlanStepResult, Plan, Host, apply_step, run_steps, execute, step_result,
  left_by,
}

-- A plan run by the rule of the docstring: a step that fails leaves the host as it is, and the
-- next one goes on from there.
pub data Run : List PlanStep → Host → List PlanStepResult → Host → Type 0 where
  finished : {h : Host} → Run [] h [] h
  applied :
      {step : PlanStep} {steps : List PlanStep} {h next after : Host} {changed : Bool}
      {rs : List PlanStepResult}
      → apply_step step h ≡ ok (changed, next)
      → Run steps next rs after
      → Run (step ∷ steps) h (step_result step (ok (changed, next)) ∷ rs) after
  skipped :
      {step : PlanStep} {steps : List PlanStep} {h after : Host} {e : DomainError}
      {rs : List PlanStepResult}
      → apply_step step h ≡ err e
      → Run steps h rs after
      → Run (step ∷ steps) h (step_result step (err e) ∷ rs) after

extend-Run :
    (step : PlanStep) (steps : List PlanStep) (h : Host) (rs : List PlanStepResult) (after : Host)
    (outcome : Result (Bool × Host))
    → apply_step step h ≡ outcome
    → Run steps (left_by h outcome) rs after
    → Run (step ∷ steps) h (step_result step outcome ∷ rs) after
extend-Run step steps h rs after (ok (changed, next)) e run = applied e run
extend-Run step steps h rs after (err x) e run = skipped e run

run_steps-Run :
    (steps : List PlanStep) (overall_ok : Bool) (h : Host)
    → Run steps h ((run_steps steps overall_ok h).0) ((run_steps steps overall_ok h).2)
unfolding run_steps
run_steps-Run [] overall_ok h = finished
run_steps-Run (step ∷ steps) overall_ok h =
    extend-Run step steps h _ _ (apply_step step h) refl (
      run_steps-Run steps (is_ok (apply_step step h) && overall_ok) (left_by h (apply_step step h)))

step_result_ok :
    (step : PlanStep) (outcome : Result (Bool × Host))
    → (step_result step outcome).ok ≡ is_ok outcome
step_result_ok step (ok _) = refl
step_result_ok step (err _) = refl

run_steps_ok :
    (steps : List PlanStep) (overall_ok : Bool) (h : Host)
    → (run_steps steps overall_ok h).1
      ≡ (all (λ r. r.ok) ((run_steps steps overall_ok h).0) && overall_ok)
unfolding run_steps
run_steps_ok [] overall_ok h = refl
run_steps_ok (step ∷ steps) overall_ok h = ground (
  arith,
  step_result_ok step (apply_step step h),
  run_steps_ok steps (is_ok (apply_step step h) && overall_ok) (left_by h (apply_step step h)),
)

-- `execute` runs every step of the plan in order, each on what the earlier ones left, where a step
-- that failed left its host unchanged, and returns one result for each; the plan is reported as
-- successful exactly if every step is.
pub execute-Run :
    (plan : Plan) (h : Host)
    → Run plan.steps h ((execute plan h).0.steps) ((execute plan h).1)
      × ((execute plan h).0.ok ≡ all (λ r. r.ok) ((execute plan h).0.steps))
unfolding execute
execute-Run plan h =
    (run_steps-Run plan.steps true h, ground (arith, run_steps_ok plan.steps true h))
