-- ===== src/Sync/Zemaphore.antt =====
-- pthreads-sync-code/zemaphore: a counting semaphore over a mutex and a condition variable.
pub mod Permits
mod Tests
use os_codes.Common.{ℕ, ◌+◌, ◌-◌, ◌<◌, if◌then◌else◌, ltb, ℤ, pos, ltb_ℤ, ◌+ℤ◌, ◌-ℤ◌}

-- `zem_t`, with the threads that it has met: `asleep` of them wait on `cond`, and `passed` calls of
-- `zem_down` have nothing left to do but to unlock. `ups` counts the calls of `zem_up`.
pub record Zem : Type 0 where
  pub value : ℤ
  pub asleep : ℕ
  pub passed : ℕ
  pub ups : ℕ

pub zem_init : ℤ → Zem
zem_init value = record { value = value; asleep = 0; passed = 0; ups = 0 }

-- `zem_down` up to its wait, or to its end if it does not wait.
pub zem_down : Zem → Zem
zem_down s =
    let value = s.value -ℤ pos 1 in
    if ltb_ℤ value (pos 0)
    then record s { value = value; asleep = s.asleep + 1 }
    else record s { value = value; passed = s.passed + 1 }

-- A sleeper wakes up. It does not test `value` again: the wait stands under an `if`.
pub wake : Zem → Zem
wake s = record s { asleep = s.asleep - 1; passed = s.passed + 1 }

-- The signal wakes one sleeper, if there is one.
pub zem_up : Zem → Zem
unfolding wake
zem_up s =
    let raised : Zem = record s { value = s.value +ℤ pos 1; ups = s.ups + 1 } in
    if ltb 0 s.asleep then wake raised else raised

-- Calls of the two functions, in any order, when no thread wakes up without a signal.
pub data Step (s : Zem) : Zem → Type 0 where
  down : Step s (zem_down s)
  up : Step s (zem_up s)

pub data Reach (permits : ℕ) : Zem → Type 0 where
  here : Reach permits (zem_init (pos permits))
  next : {s t : Zem} → Reach permits s → Step s t → Reach permits t
