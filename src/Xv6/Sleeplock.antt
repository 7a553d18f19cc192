-- ===== src/Xv6/Sleeplock.antt =====
-- xv6-public/sleeplock.c: a lock that a process may hold while it sleeps. The code runs under the spin
-- lock in it, so that what a process does between two sleeps is one step. Process ids are not 0.
pub mod Exclusion
mod Tests
use os_codes.Common.{ℕ, ◌+◌, ◌-◌, ◌<◌, Bool, true, false, ◌&&◌, if◌then◌else◌, ◌==◌}

-- `locked` and `pid` of `struct sleeplock`, and the processes around it: those that hold the lock, and
-- those in the `while` of `acquiresleep`, asleep or woken.
pub record Sleeplock : Type 0 where
  pub locked : Bool
  pub pid : ℕ
  pub holders : ℕ
  pub asleep : ℕ
  pub woken : ℕ

-- `initsleeplock`
pub init_sleeplock : Sleeplock
init_sleeplock = record { locked = false; pid = 0; holders = 0; asleep = 0; woken = 0 }

-- `acquiresleep` by the process `pid`, from the test of its `while` on.
pub acquire_sleep : ℕ → Sleeplock → Sleeplock
acquire_sleep pid s =
    if s.locked
    then record s { asleep = s.asleep + 1 }
    else record s { locked = true; pid = pid; holders = s.holders + 1 }

-- `releasesleep`: `wakeup` wakes every process that sleeps on the lock.
pub release_sleep : Sleeplock → Sleeplock
release_sleep s = record s { locked = false; pid = 0; woken = s.woken + s.asleep; asleep = 0 }

-- `holdingsleep` by the process `pid`
pub holding_sleep : ℕ → Sleeplock → Bool
holding_sleep pid s = s.locked && (s.pid == pid)

-- A process calls `acquiresleep`, or wakes up in it, or the holder calls `releasesleep`. A sleeper may
-- be woken by `kill`.
pub data Step (s : Sleeplock) : Sleeplock → Type 0 where
  acquires : (pid : ℕ) → 0 < pid → Step s (acquire_sleep pid s)
  again :
      (pid : ℕ)
      → 0 < pid
      → 0 < s.woken
      → Step s (acquire_sleep pid (record s { woken = s.woken - 1 }))
  releases : 0 < s.holders → Step s (release_sleep (record s { holders = s.holders - 1 }))
  is_killed : 0 < s.asleep → Step s (record s { asleep = s.asleep - 1; woken = s.woken + 1 })

pub data Reach : Sleeplock → Type 0 where
  here : Reach init_sleeplock
  next : {s t : Sleeplock} → Reach s → Step s t → Reach t
