-- ===== src/Sync/Zemaphore/Permits.antt =====
-- How many calls of `zem_down` pass.
use os_codes.Common.{ℕ, ◌+◌, ◌≤◌, ◌<◌, ◌≡◌, arith, pos_part, neg_part, ◌+ℤ◌, ◌-ℤ◌}
use os_codes.Sync.Zemaphore.{
  Zem, zem_init, zem_down, zem_up, wake, Step, down, up, Reach, here, next,
}

-- `value` counts the permits that are left, or, below 0, the sleepers.
record Inv (permits : ℕ) (s : Zem) : Type 0 where
  left : pos_part s.value + s.passed ≡ permits + s.ups
  sleepers : neg_part s.value ≡ s.asleep

zem_down-Inv : {permits : ℕ} {s : Zem} → Inv permits s → Inv permits (zem_down s)
unfolding zem_down ◌-ℤ◌
zem_down-Inv inv = ground arith

zem_up-Inv : {permits : ℕ} {s : Zem} → Inv permits s → Inv permits (zem_up s)
unfolding zem_up ◌+ℤ◌
zem_up-Inv inv = ground arith

Step-Inv : {permits : ℕ} {s t : Zem} → Step s t → Inv permits s → Inv permits t
Step-Inv down inv = zem_down-Inv inv
Step-Inv up inv = zem_up-Inv inv

Reach-Inv : {permits : ℕ} {s : Zem} → Reach permits s → Inv permits s
unfolding zem_init
Reach-Inv here = omega arith
Reach-Inv (next r st) = Step-Inv st (Reach-Inv r)

-- From a start with `permits` permits, and as long as no thread wakes up without a signal: never more
-- calls of `zem_down` pass than there were permits and calls of `zem_up`, and as long as a thread
-- sleeps, exactly as many have passed; `value` is then below 0 by the number of sleepers.
pub passed_le_permits :
    {permits : ℕ} {s : Zem}
    → Reach permits s
    → (s.passed ≤ permits + s.ups)
      × (0 < s.asleep → (s.passed ≡ permits + s.ups) × (neg_part s.value ≡ s.asleep))
passed_le_permits r = let inv = Reach-Inv r in (omega arith, λ h. (ground arith, inv.sleepers))

-- POSIX allows a thread to wake up without a signal. From every reachable state in which a thread
-- sleeps, such a wake-up lets one call too many pass, since the test is not made again.
pub spurious_wake_overruns :
    {permits : ℕ} {s : Zem} → Reach permits s → 0 < s.asleep → permits + s.ups < (wake s).passed
unfolding wake
spurious_wake_overruns r h = let inv = Reach-Inv r in ground arith
