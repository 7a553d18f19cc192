-- ===== src/Xv6/Sleeplock/Tests.antt =====
-- Runs of a sleep lock.
use os_codes.Common.{arith}
use os_codes.Xv6.Sleeplock.{
  Sleeplock, init_sleeplock, acquire_sleep, release_sleep, acquires, releases, Reach, here, next,
}

-- Process 3 holds the lock and process 4 sleeps.
abbrev held : Sleeplock
held = acquire_sleep 4 (acquire_sleep 3 init_sleeplock)

Reach-held : Reach held
Reach-held = next (next here (acquires 3 (omega arith))) (acquires 4 (omega arith))

abbrev released : Sleeplock
released = release_sleep (record held { holders = 0 })

Reach-released : Reach released
unfolding init_sleeplock acquire_sleep
Reach-released = next Reach-held (releases (omega arith))
