-- ===== src/Shell/Plan/Waits.antt =====
-- The processes that the child of the shell makes, and its waits.
use os_codes.Common.{
  ℕ, zero, suc, ◌+◌, ◌-◌, ◌≤◌, ◌≡◌, refl, Bool, List, [], ◌∷◌, ◌++◌, Bool-cases, inl, inr, arith,
}
use os_codes.Shell.Plan.{
  same, and_then, in_parallel, cd, Effect, spawn, fork_fails, wait_one, fork, waits, run_from,
  strip_amp, run_line,
}

-- The processes that are left after some effects: a `wait` without a process returns -1.
abbrev pub left_after : ℕ → List Effect → ℕ
left_after n [] = n
left_after n (spawn c ∷ es) = left_after (suc n) es
left_after n (fork_fails c ∷ es) = left_after n es
left_after zero (wait_one ∷ es) = left_after zero es
left_after (suc n) (wait_one ∷ es) = left_after n es

-- The waits for which there is no process.
abbrev pub idle_waits : ℕ → List Effect → ℕ
idle_waits n [] = 0
idle_waits n (spawn c ∷ es) = idle_waits (suc n) es
idle_waits n (fork_fails c ∷ es) = idle_waits n es
idle_waits zero (wait_one ∷ es) = suc (idle_waits zero es)
idle_waits (suc n) (wait_one ∷ es) = idle_waits n es

left_after-waits : (n co : ℕ) → n ≤ co → left_after n (waits co) ≡ 0
left_after-waits zero zero le = refl
left_after-waits (suc n) zero le = absurd (omega arith)
left_after-waits zero (suc co) le = left_after-waits zero co (omega arith)
left_after-waits (suc n) (suc co) le = left_after-waits n co (omega arith)

left_after-fork :
    (ok : ℕ → Bool) (k n : ℕ) (command : List (List ℕ)) (es : List Effect)
    → ((m : ℕ) → m ≤ suc n → left_after m es ≡ 0)
    → left_after n (fork ok k command ∷ es) ≡ 0
left_after-fork ok k n command es rest = elim (Bool-cases (ok k)) [
  | inl made ↦ rw made (rest (suc n) (omega arith))
  | inr failed ↦ rw failed (rest n (omega arith))
]

left_after-wait :
    (n co : ℕ) (es : List Effect)
    → n ≤ suc co
    → ((m : ℕ) → m ≤ co → left_after m es ≡ 0)
    → left_after n (wait_one ∷ es) ≡ 0
left_after-wait zero co es le rest = rest zero (omega arith)
left_after-wait (suc n) co es le rest = rest n (omega arith)

left_after-run_from :
    (ok : ℕ → Bool) (ts : List (List ℕ)) (k : ℕ) (command : List (List ℕ)) (co n : ℕ)
    → n ≤ co
    → left_after n (run_from ok k command (suc co) ts) ≡ 0
unfolding run_from
left_after-run_from ok [] k command co n le =
    left_after-fork ok k n command (waits (suc co))
      (λ m le'. left_after-waits m (suc co) (omega arith))
left_after-run_from ok (t ∷ ts) k command co n le = elim (Bool-cases (same t and_then)) [
  | inl seq ↦ rw seq (
      left_after-fork ok k n command (wait_one ∷ run_from ok (suc k) [] (suc co) ts) (λ m le'.
        left_after-wait m co (run_from ok (suc k) [] (suc co) ts) (omega arith)
          (λ i le''. left_after-run_from ok ts (suc k) [] co i le'')))
  | inr not_seq ↦ elim (Bool-cases (same t in_parallel)) [
    | inl par ↦
        rw (not_seq, par)
          (left_after-fork ok k n command (run_from ok (suc k) [] (suc (suc co)) ts)
            (λ m le'. left_after-run_from ok ts (suc k) [] (suc co) m (omega arith)))
    | inr word ↦ rw (not_seq, word) (left_after-run_from ok ts k (command ++ (t ∷ [])) co n le)
  ]
]

-- The forks that fail.
abbrev pub failures : List Effect → ℕ
failures [] = 0
failures (spawn c ∷ es) = failures es
failures (fork_fails c ∷ es) = suc (failures es)
failures (wait_one ∷ es) = failures es

failures-waits : (co : ℕ) → failures (waits co) ≡ 0
failures-waits zero = refl
failures-waits (suc co) = failures-waits co

idle_waits-waits : (n co : ℕ) → n ≤ co → idle_waits n (waits co) ≡ co - n
idle_waits-waits zero zero le = omega arith
idle_waits-waits (suc n) zero le = absurd (omega arith)
idle_waits-waits zero (suc co) le =
    let rest = idle_waits-waits zero co (omega arith) in omega (arith, rest)
idle_waits-waits (suc n) (suc co) le =
    let rest = idle_waits-waits n co (omega arith) in omega (arith, rest)

idle_waits-fork :
    (ok : ℕ → Bool) (k n d : ℕ) (command : List (List ℕ)) (es : List Effect)
    → idle_waits (suc n) es ≤ failures es + d
    → idle_waits n es ≤ failures es + suc d
    → idle_waits n (fork ok k command ∷ es) ≤ failures (fork ok k command ∷ es) + d
idle_waits-fork ok k n d command es made_le failed_le = elim (Bool-cases (ok k)) [
  | inl made ↦ rw made made_le
  | inr failed ↦ rw failed (omega (arith, failed_le))
]

idle_waits-wait :
    (n co : ℕ) (es : List Effect)
    → n ≤ suc co
    → ((m : ℕ) → m ≤ co → idle_waits m es ≤ failures es + (co - m))
    → idle_waits n (wait_one ∷ es) ≤ failures (wait_one ∷ es) + (suc co - n)
idle_waits-wait zero co es le rest = let bound = rest zero (omega arith) in omega (arith, bound)
idle_waits-wait (suc n) co es le rest = let bound = rest n (omega arith) in omega (arith, bound)

idle_waits-run_from :
    (ok : ℕ → Bool) (ts : List (List ℕ)) (k : ℕ) (command : List (List ℕ)) (co n : ℕ)
    → n ≤ co
    → idle_waits n (run_from ok k command (suc co) ts)
      ≤ failures (run_from ok k command (suc co) ts) + (co - n)
unfolding run_from
idle_waits-run_from ok [] k command co n le =
    let none_failed = failures-waits (suc co) in
    let made = idle_waits-waits (suc n) (suc co) (omega arith) in
    let failed = idle_waits-waits n (suc co) (omega arith) in
    idle_waits-fork ok k n (co - n) command (waits (suc co)) (omega (arith, made, none_failed))
      (omega (arith, failed, none_failed))
idle_waits-run_from ok (t ∷ ts) k command co n le = elim (Bool-cases (same t and_then)) [
  | inl seq ↦
      let es : List Effect = run_from ok (suc k) [] (suc co) ts in
      let after = λ (m : ℕ) (le' : m ≤ suc co).
        idle_waits-wait m co es le' (λ i le''. idle_waits-run_from ok ts (suc k) [] co i le'') in
      let made = after (suc n) (omega arith) in
      let failed = after n (omega arith) in
      rw seq (
        idle_waits-fork ok k n (co - n) command (wait_one ∷ es) (omega (arith, made))
          (omega (arith, failed)))
  | inr not_seq ↦ elim (Bool-cases (same t in_parallel)) [
    | inl par ↦
        let made = idle_waits-run_from ok ts (suc k) [] (suc co) (suc n) (omega arith) in
        let failed = idle_waits-run_from ok ts (suc k) [] (suc co) n (omega arith) in
        rw (not_seq, par)
          (idle_waits-fork ok k n (co - n) command (run_from ok (suc k) [] (suc (suc co)) ts)
            (omega (arith, made)) (omega (arith, failed)))
    | inr word ↦ rw (not_seq, word) (idle_waits-run_from ok ts k (command ++ (t ∷ [])) co n le)
  ]
]

-- Whatever the line and whichever forks fail, no process is left when the child exits, and its `wait`s
-- that come when there is no process to wait for are at most as many as the forks that fail.
pub run_line-left :
    (ok : ℕ → Bool) (t : List ℕ) (ts : List (List ℕ))
    → (left_after 0 (run_line ok t ts) ≡ 0)
      × (idle_waits 0 (run_line ok t ts) ≤ failures (run_line ok t ts))
unfolding run_line
run_line-left ok t ts = elim (Bool-cases (same t cd)) [
  | inl change ↦ rw change (refl, omega arith)
  | inr other ↦
      let few = idle_waits-run_from ok (strip_amp (t ∷ ts)) 0 [] 0 0 (omega arith) in
      rw other
        (left_after-run_from ok (strip_amp (t ∷ ts)) 0 [] 0 0 (omega arith), omega (arith, few))
]
