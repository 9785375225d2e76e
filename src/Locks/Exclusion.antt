-- ===== src/Locks/Exclusion.antt =====
-- Mutual exclusion of the lock store over every schedule of calls.
use nervum.Prelude.{
  ℕ, ◌+◌, ◌*◌, ◌<◌, ◌≡◌, ◌≢◌, ◌↔◌, ◌⊎◌, String, true, false, none, some, List, [], ◌∷◌, arith,
  eq_iff, lookup, lookup-insert, lookup-erase, lookup-erase_self, IsDict, inl, inr, Option-cases,
}
use nervum.Locks.{Held, try_lock, release, current_owner}

-- The calls that tasks make.
pub data Call : Type 0 where
  trying : ℕ → String → String → ℕ → Call
  releasing : String → String → Call

pub apply_call : Call → Held → Held
apply_call (trying now key owner ttl) held = (try_lock now key owner ttl held).0
apply_call (releasing key owner) held = release key owner held

-- A schedule: the calls in the order in which the mutex lets them through.
unfoldable pub run : List Call → Held → Held
unfolding apply_call
run [] held = held
run (c ∷ cs) held = run cs (apply_call c held)

-- A call that comes before `expires`, and is not a release of `key` by `owner`.
abbrev pub Spares : String → String → ℕ → Call → Type 0
Spares key owner expires (trying now _ _ _) = now < expires
Spares key owner expires (releasing k o) = (k ≢ key) ⊎ (o ≢ owner)

abbrev pub AllSpare : String → String → ℕ → List Call → Type 0
AllSpare key owner expires [] = Unit
AllSpare key owner expires (c ∷ cs) = Spares key owner expires c × AllSpare key owner expires cs

module _ (key owner : String) (expires : ℕ) where
  abbrev Holds : Held → Type 0
  Holds held = lookup key held ≡ some (owner, expires)

  try_lock-Holds :
      (now : ℕ) (k o : String) (ttl : ℕ) (held : Held)
      → now < expires
      → Holds held
      → Holds (try_lock now k o ttl held).0
  unfolding try_lock
  try_lock-Holds now k o ttl held h e =
      ground (arith, eq_iff k key, lookup-insert k key (o, now + ttl * 1000000) held)

  release-Holds :
      (k o : String) (held : Held) → (k ≢ key) ⊎ (o ≢ owner) → Holds held → Holds (release k o held)
  unfolding release
  release-Holds k o held h e = ground (arith, eq_iff k key, eq_iff owner o, lookup-erase k key held)

  run-Holds :
      (cs : List Call) (held : Held)
      → AllSpare key owner expires cs
      → Holds held
      → Holds (run cs held)
  unfolding run
  run-Holds [] held h e = e
  run-Holds (trying now k o ttl ∷ cs) held h e =
      run-Holds cs (try_lock now k o ttl held).0 h.1 (try_lock-Holds now k o ttl held h.0 e)
  run-Holds (releasing k o ∷ cs) held h e =
      run-Holds cs (release k o held) h.1 (release-Holds k o held h.0 e)

-- Mutual exclusion: while a lock is held, through any schedule of calls before it expires in which
-- its owner does not release it, the owner is reported as its holder, every other task that tries is
-- refused and changes nothing, and the owner that tries again is granted it.
pub lock_excludes :
    (key owner : String) (expires : ℕ) (held : Held) (cs : List Call) (now : ℕ) (other : String)
    (ttl : ℕ)
    → lookup key held ≡ some (owner, expires)
    → AllSpare key owner expires cs
    → now < expires
    → (current_owner now key (run cs held) ≡ some owner)
      × (other ≢ owner → try_lock now key other ttl (run cs held) ≡ (run cs held, false))
      × (try_lock now key owner ttl (run cs held) ≡ (run cs held, true))
unfolding current_owner try_lock
lock_excludes key owner expires held cs now other ttl e h l =
    let kept = run-Holds key owner expires cs held h e in
    (ground arith, λ ne. ground (arith, eq_iff owner other), ground (arith, eq_iff owner owner))

-- A task is granted a lock exactly when it is then the reported owner; a task that is refused leaves
-- the store as it was, and another task is the owner.
pub try_lock_iff :
    (now : ℕ) (key owner : String) (ttl : ℕ) (held : Held)
    → 0 < ttl
    → let (held', granted) = try_lock now key owner ttl held in
      ((granted ≡ true) ↔ (current_owner now key held' ≡ some owner))
      × (granted ≡ false → (held' ≡ held) × (current_owner now key held ≢ none))
unfolding try_lock current_owner
try_lock_iff now key owner ttl held h = elim (Option-cases (lookup key held)) [
  | inl free ↦
      ground (arith, eq_iff key key, lookup-insert key key (owner, now + ttl * 1000000) held)
  | inr ((holder, expires), taken) ↦ ground (
    arith,
    eq_iff key key,
    eq_iff holder owner,
    lookup-insert key key (owner, now + ttl * 1000000) held,
  )
]

-- A release by the owner frees the lock for the next task, whatever the time; a release by anyone
-- else changes nothing.
pub release_frees :
    (key owner other : String) (expires : ℕ) (held : Held) (now : ℕ) (ttl : ℕ)
    → lookup key held ≡ some (owner, expires)
    → IsDict held
    → ((try_lock now key other ttl (release key owner held)).1 ≡ true)
      × (other ≢ owner → release key other held ≡ held)
unfolding try_lock release
release_frees key owner other expires held now ttl e d = (
  ground (arith, eq_iff owner owner, lookup-erase_self key held d),
  λ ne. ground (arith, eq_iff owner other),
)
