-- ===== src/Apply/Exclusion.antt =====
-- A second apply of a network (src/sdn_controller/core/use_cases/reconcile.py,
-- `_ApplyAlreadyRunning`).
use nervum.Prelude.{ℕ, ◌+◌, ◌<◌, ◌≡◌, ◌≢◌, arith, String, Option, some, lookup, eq_iff}
use nervum.Network.{Network}
use nervum.Locks.{try_lock, current_owner}
use nervum.Apply.{lock_key, when_acquired, apply_network}
use nervum.Apply.Tasks.{raised}
use nervum.Apply.Setting.{World, Services, already_running}

-- While the lock of a known network is held under another operation's id, and has not expired when the
-- clock is read for the lock and for its owner, an apply raises the conflict that names that
-- operation. It has drawn an id and read the clock twice; nothing else has changed, and no agent
-- was called.
pub apply_network_excluded :
    {Agents : Type 0} (self : Services Agents) (network_id : String) (by : Option String)
    (w : World Agents) (network : Network) (holder : String) (expires : ℕ)
    → lookup network_id w.networks ≡ some network
    → lookup (lock_key network_id) w.held ≡ some (holder, expires)
    → holder ≢ self.new_id w.next_id
    → self.clock w.ticks < expires
    → self.clock (w.ticks + 1) < expires
    → apply_network self network_id by w ≡ (
      raised (already_running self.texts network_id (some holder)),
      record w { ticks = w.ticks + 1 + 1; next_id = w.next_id + 1 },
    )
unfolding apply_network when_acquired try_lock current_owner
apply_network_excluded self network_id by w network holder expires known taken other now soon =
    ground (arith, eq_iff holder (self.new_id w.next_id))
