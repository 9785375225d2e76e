-- ===== src/Locks.antt =====
-- The lock store of src/sdn_controller/adapters/locks.py (`InMemoryLockStore`). Its methods run
-- under one mutex, so a schedule of concurrent tasks is a list of whole calls. The clock's reading
-- is an argument of each call.
pub mod Exclusion
use nervum.Prelude.{
  ℕ, ◌+◌, ◌*◌, String, Bool, true, false, not, Option, none, some, List, [], ◌∷◌, leb, ltb, str_eq,
  Dict, lookup, insert, erase, if◌then◌else◌,
}

-- `_held`: for each key its owner and the moment at which the lock expires.
abbrev pub Held : Type 0
Held = Dict (String × ℕ)

try_from : Option (String × ℕ) → ℕ → String → String → ℕ → Held → Held × Bool
try_from none now key owner ttl held = (insert key (owner, now + ttl * 1000000) held, true)
try_from (some (holder, expires)) now key owner ttl held =
    if ltb now expires
    then (held, str_eq holder owner)
    else (insert key (owner, now + ttl * 1000000) held, true)

unfoldable pub try_lock : ℕ → String → String → ℕ → Held → Held × Bool
unfolding try_from
try_lock now key owner ttl_seconds held = try_from (lookup key held) now key owner ttl_seconds held

release_from : Option (String × ℕ) → String → String → Held → Held
release_from none key owner held = held
release_from (some (holder, _)) key owner held =
    if not (str_eq holder owner) then held else erase key held

unfoldable pub release : String → String → Held → Held
unfolding release_from
release key owner held = release_from (lookup key held) key owner held

owner_from : Option (String × ℕ) → ℕ → Option String
owner_from none now = none
owner_from (some (holder, expires)) now = if leb expires now then none else some holder

unfoldable pub current_owner : ℕ → String → Held → Option String
unfolding owner_from
current_owner now key held = owner_from (lookup key held) now
