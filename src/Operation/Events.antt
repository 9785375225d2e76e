-- ===== src/Operation/Events.antt =====
-- The event list that every operation keeps: it is numbered from 1 without gaps, and its statuses
-- follow the diagram from `accepted` to the operation's own status.
use nervum.Prelude.{
  ℕ, suc, ◌+◌, ◌≤◌, ◌≡◌, refl, ◌∙◌, ◌⊎◌, inl, inr, String, true, Option, none, some, List, [], ◌∷◌,
  ◌++◌, arith, is_some, Dict, length,
}
use nervum.Errors.{Result, ok, err}
use nervum.Operation.{
  OperationStatus, accepted, is_terminal, OperationError, OperationEvent, OperationKind,
  ResourceRef, Operation, accept, or_keep, transition_to, log,
}
use nervum.Operation.Graph.{◌⟶◌, steps_left, TakesError, ⟶-no_error, transition_to_iff}

-- `s` is left alone or moves along an edge.
abbrev Follows : OperationStatus → OperationStatus → Type 0
Follows s t = (t ≡ s) ⊎ (s ⟶ t)

-- The events `es`, numbered from `n`, lead from status `s` to status `t`.
abbrev pub Trail : ℕ → OperationStatus → List OperationEvent → OperationStatus → Type 0
Trail n s [] t = t ≡ s
Trail n s (e ∷ es) t = (e.sequence ≡ n) × Follows s e.status × Trail (suc n) e.status es t

pub record IsValid (op : Operation) : Type 0 where
  pub trail : Trail 1 accepted op.events op.status
  pub error_status : is_some op.error ≡ true → TakesError op.status

Trail-snoc :
    (n : ℕ) (s : OperationStatus) (es : List OperationEvent) (t : OperationStatus)
    (e : OperationEvent)
    → Trail n s es t
    → e.sequence ≡ length es + n
    → Follows t e.status
    → Trail n s (es ++ e ∷ []) e.status
Trail-snoc n s [] t e h q f = ground arith
Trail-snoc n s (x ∷ es) t e h q f =
    (h.0, h.1, Trail-snoc (suc n) x.status es t e h.2 (omega arith) f)

pub accept-IsValid :
    (id : String) (k : OperationKind) (r : ResourceRef) (now : ℕ) (by : Option String) (m : String)
    → IsValid (accept id k r now by m)
unfolding accept
accept-IsValid id k r now by m = ground arith

pub log-IsValid :
    (now : ℕ) (m : String) (p : Option (Dict String)) (op : Operation)
    → IsValid op
    → IsValid (log now m p op).0
unfolding log
log-IsValid now m p op v = record {
  trail = Trail-snoc 1 accepted op.events op.status _ v.trail (omega arith) (inl refl);
  error_status = v.error_status;
}

-- An error stays recorded only where the status takes one, since no edge leaves such a status.
error_kept :
    (x : Option OperationError) (op : Operation) (s : OperationStatus)
    → (is_some op.error ≡ true → TakesError op.status)
    → op.status ⟶ s
    → (is_some x ≡ true → TakesError s)
    → is_some (or_keep x op.error) ≡ true
    → TakesError s
error_kept (some _) op s old edge new h = new refl
error_kept none op s old edge new h = absurd (⟶-no_error edge (old h))

module _ (s : OperationStatus) (now : ℕ) (m : String) (p : Option (Dict String)) where
  -- What a successful transition does to the fields that the invariant speaks of.
  transition_to-fields :
      (x : Option OperationError) (op op' : Operation) (e : OperationEvent)
      → transition_to s now m p x op ≡ ok (op', e)
      → (op'.status ≡ s)
        × (op'.events ≡ op.events ++ e ∷ [])
        × (e.status ≡ s)
        × (e.sequence ≡ length op.events + 1)
        × (op'.error ≡ or_keep x op.error)
  unfolding transition_to
  transition_to-fields x op op' e h = ground arith

  pub transition_to-IsValid :
      (x : Option OperationError) (op op' : Operation) (e : OperationEvent)
      → IsValid op
      → transition_to s now m p x op ≡ ok (op', e)
      → IsValid op'
  transition_to-IsValid x op op' e v h =
      let (qs, qe, es, en, er) = transition_to-fields x op op' e h in
      let (edge, takes) = (transition_to_iff s now m p x op).0.0 (rw h) in
      record {
        trail =
            rw (qe, qs, ← es)
              (Trail-snoc 1 accepted op.events op.status e v.trail en (inr (rw es edge)));
        error_status = rw (er, qs) (error_kept x op s v.error_status edge takes);
      }

-- The calls that a use case makes on an operation after `accept`.
pub data Call : Type 0 where
  move : OperationStatus → ℕ → String → Option (Dict String) → Option OperationError → Call
  note : ℕ → String → Option (Dict String) → Call

-- The operation after a call, and whether it was a transition that succeeded.
abbrev after_move : Operation → Result (Operation × OperationEvent) → Operation × ℕ
after_move op (ok (op', _)) = (op', 1)
after_move op (err _) = (op, 0)

pub apply_call : Call → Operation → Operation × ℕ
apply_call (move s now m p x) op = after_move op (transition_to s now m p x op)
apply_call (note now m p) op = ((log now m p op).0, 0)

-- The operation after a list of calls, and the number of transitions that succeeded.
unfoldable pub run : List Call → Operation → Operation × ℕ
unfolding apply_call
run [] op = (op, 0)
run (c ∷ cs) op = let (op', n) = apply_call c op in let (op'', k) = run cs op' in (op'', n + k)

apply_call-IsValid : (c : Call) (op : Operation) → IsValid op → IsValid (apply_call c op).0
unfolding apply_call
apply_call-IsValid (note now m p) op v = log-IsValid now m p op v
apply_call-IsValid (move s now m p x) op v = go (transition_to s now m p x op) refl
  where
    go :
        (r : Result (Operation × OperationEvent))
        → transition_to s now m p x op ≡ r
        → IsValid (after_move op r).0
    go (ok (op', e)) h = transition_to-IsValid s now m p x op op' e v h
    go (err _) h = v

run-IsValid : (cs : List Call) (op : Operation) → IsValid op → IsValid (run cs op).0
unfolding run
run-IsValid [] op v = v
run-IsValid (c ∷ cs) op v = run-IsValid cs (apply_call c op).0 (apply_call-IsValid c op v)

-- Whatever calls follow `accept`, the events are numbered 1, 2, 3, … and their statuses lead along
-- the diagram from `accepted` to the operation's status; an error is recorded only in status
-- `failed` or `rolled_back`.
pub run-accept-IsValid :
    (id : String) (k : OperationKind) (r : ResourceRef) (now : ℕ) (by : Option String) (m : String)
    (cs : List Call)
    → IsValid (run cs (accept id k r now by m)).0
run-accept-IsValid id k r now by m cs = run-IsValid cs _ (accept-IsValid id k r now by m)

apply_call-steps :
    (c : Call) (op : Operation)
    → (apply_call c op).1 + steps_left (apply_call c op).0.status ≤ steps_left op.status
unfolding apply_call transition_to log
apply_call-steps (note now m p) op = omega arith
apply_call-steps (move s now m p x) op = ground arith

-- However many calls are made, at most `steps_left` of them change the status: four after
-- `accept`, and none at all once the operation is terminal.
pub run-steps :
    (cs : List Call) (op : Operation)
    → (run cs op).1 + steps_left (run cs op).0.status ≤ steps_left op.status
unfolding run
run-steps [] op = omega arith
run-steps (c ∷ cs) op = omega (arith, apply_call-steps c op, run-steps cs (apply_call c op).0)

apply_call-terminal :
    (c : Call) (op : Operation)
    → is_terminal op.status ≡ true
    → ((apply_call c op).0.status ≡ op.status) × ((apply_call c op).0.error ≡ op.error)
unfolding apply_call transition_to log is_terminal
apply_call-terminal (note now m p) op h = (refl, refl)
apply_call-terminal (move s now m p x) op h = ground arith

-- No calls change the status or the error of a terminal operation.
pub run-terminal :
    (cs : List Call) (op : Operation)
    → is_terminal op.status ≡ true
    → ((run cs op).0.status ≡ op.status) × ((run cs op).0.error ≡ op.error)
unfolding run
run-terminal [] op h = (refl, refl)
run-terminal (c ∷ cs) op h =
    let (same, kept) = apply_call-terminal c op h in
    let (same', kept') = run-terminal cs (apply_call c op).0 (rw same h) in
    (same' ∙ same, kept' ∙ kept)
