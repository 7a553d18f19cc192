-- ===== src/Xv6/Sleeplock/Exclusion.antt =====
-- The sleep lock has one holder, and forgets no sleeper.
use os_codes.Common.{ℕ, ◌≤◌, ◌<◌, ◌≡◌, true, false, arith, if◌then◌else◌}
use os_codes.Xv6.Sleeplock.{
  Sleeplock, init_sleeplock, acquire_sleep, release_sleep, holding_sleep, Step, acquires, again,
  releases, is_killed, Reach, here, next,
}

record Inv (s : Sleeplock) : Type 0 where
  one : s.holders ≡ (if s.locked then 1 else 0)
  owner : s.locked ≡ true → 0 < s.pid
  reason : 0 < s.asleep → s.locked ≡ true

Step-Inv : {s t : Sleeplock} → Step s t → Inv s → Inv t
unfolding acquire_sleep release_sleep
Step-Inv (acquires pid h) inv = ground arith
Step-Inv (again pid h g) inv = ground arith
Step-Inv (releases h) inv = ground arith
Step-Inv (is_killed h) inv = ground arith

Reach-Inv : {s : Sleeplock} → Reach s → Inv s
unfolding init_sleeplock
Reach-Inv here = ground arith
Reach-Inv (next r st) = Step-Inv st (Reach-Inv r)

-- In every reachable state at most one process holds the lock; if one does, `holdingsleep` is true for
-- the process id stored in the lock, which is not 0, and if none does, it is false for every id.
pub sleeplock_exclusion :
    {s : Sleeplock}
    → Reach s
    → (s.holders ≤ 1)
      × (0 < s.holders → (0 < s.pid) × (holding_sleep s.pid s ≡ true))
      × (s.holders ≡ 0 → (pid : ℕ) → holding_sleep pid s ≡ false)
unfolding holding_sleep
sleeplock_exclusion {s} r =
    let inv = Reach-Inv r in (ground arith, λ h. ground arith, λ h pid. ground arith)

-- In every reachable state in which no process holds the lock, no process sleeps on it.
pub sleeplock_no_lost_wakeup : {s : Sleeplock} → Reach s → s.holders ≡ 0 → s.asleep ≡ 0
sleeplock_no_lost_wakeup {s} r h = let inv = Reach-Inv r in ground arith
