-- ===== src/Sync/Zemaphore/Tests.antt =====
-- Runs of the semaphore.
use os_codes.Common.{◌+◌, ◌≤◌, ◌<◌, ◌≡◌, arith, neg_part, ◌-ℤ◌, ◌+ℤ◌, pos, refl}
use os_codes.Sync.Zemaphore.{Zem, zem_init, zem_down, zem_up, wake, down, Reach, here, next}
use os_codes.Sync.Zemaphore.Permits.{passed_le_permits, spurious_wake_overruns}

-- One permit, taken twice: the second thread sleeps.
abbrev crowded : Zem
crowded = zem_down (zem_down (zem_init (pos 1)))

Reach-crowded : Reach 1 crowded
Reach-crowded = next (next here down) down

passed_le_permits_example :
    (crowded.passed ≤ 1 + crowded.ups)
    × (0 < crowded.asleep
        → (crowded.passed ≡ 1 + crowded.ups) × (neg_part crowded.value ≡ crowded.asleep))
passed_le_permits_example = passed_le_permits Reach-crowded

spurious_wake_overruns_example : 1 + crowded.ups < (wake crowded).passed
unfolding zem_down zem_init ◌-ℤ◌
spurious_wake_overruns_example = spurious_wake_overruns Reach-crowded (omega arith)

signalled : (zem_up crowded).passed ≡ 2
unfolding zem_up zem_down zem_init ◌-ℤ◌ ◌+ℤ◌
signalled = refl
