-- ===== src/Tests/LockStore.antt =====
-- One lock and two tasks (src/sdn_controller/adapters/locks.py).
use nervum.Prelude.{
  ◌≡◌, refl, ◌≢◌, ◌↔◌, inr, true, false, none, some, List, [], ◌∷◌, String, arith, eq_iff,
}
use nervum.Locks.{Held, try_lock, release, current_owner}
use nervum.Locks.Exclusion.{
  Call, trying, releasing, run, lock_excludes, try_lock_iff, release_frees,
}

abbrev held : Held
held = ("network:apply:n1", ("op_1", 300000000)) ∷ []

abbrev calls : List Call
calls = trying 5 "network:apply:n1" "op_2" 300 ∷ releasing "network:apply:n1" "op_2" ∷ []

abbrev op_3 : String
op_3 = "op_3"

lock_excludes_example :
    (current_owner 10 "network:apply:n1" (run calls held) ≡ some "op_1")
    × (op_3 ≢ "op_1"
        → try_lock 10 "network:apply:n1" op_3 300 (run calls held) ≡ (run calls held, false))
    × (try_lock 10 "network:apply:n1" "op_1" 300 (run calls held) ≡ (run calls held, true))
lock_excludes_example =
    lock_excludes "network:apply:n1" "op_1" 300000000 held calls 10 op_3 300 refl
      (omega arith, (inr (λ e. ground (arith, eq_iff "op_2" "op_1")), tt)) (omega arith)

try_lock_iff_example :
    let (held', granted) = try_lock 10 "network:apply:n1" op_3 300 held in
    ((granted ≡ true) ↔ (current_owner 10 "network:apply:n1" held' ≡ some op_3))
    × (granted ≡ false → (held' ≡ held) × (current_owner 10 "network:apply:n1" held ≢ none))
try_lock_iff_example = try_lock_iff 10 "network:apply:n1" op_3 300 held (omega arith)

release_frees_example :
    ((try_lock 10 "network:apply:n1" op_3 300 (release "network:apply:n1" "op_1" held)).1 ≡ true)
    × (op_3 ≢ "op_1" → release "network:apply:n1" op_3 held ≡ held)
release_frees_example =
    release_frees "network:apply:n1" "op_1" op_3 300000000 held 10 300 refl (refl, tt)

-- After the lease of 300 seconds another task is granted the lock, though it was not released.
lease_ends : (try_lock 300000001 "network:apply:n1" op_3 300 held).1 ≡ true
unfolding try_lock
lease_ends = refl
