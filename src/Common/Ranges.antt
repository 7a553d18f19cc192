-- ===== src/Common/Ranges.antt =====
-- Facts about all numbers of a range, one end at a time.
use mathlib.Core.Path.{subst}
use os_codes.Common.Basics.{ℕ, ◌+◌, ◌≤◌, ◌<◌, arith, ℕ_discrete}

pub range_cons :
    (P : ℕ → Type 0) (i hi : ℕ)
    → P i
    → ((m : ℕ) → i + 1 ≤ m → m < hi → P m)
    → (m : ℕ) → i ≤ m
    → m < hi
    → P m
range_cons P i hi first rest m lo up = elim (ℕ_discrete i m) [
  | yes e ↦ subst P e first
  | no ne ↦ rest m (omega arith) up
]
