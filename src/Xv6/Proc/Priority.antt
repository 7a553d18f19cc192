-- ===== src/Xv6/Proc/Priority.antt =====
-- Which priorities the scheduler serves.
use os_codes.Common.{
  ℕ, zero, suc, ◌+◌, ◌*◌, ◌/◌, ◌≤◌, ◌≡◌, inl, inr, refl, sym, get_elem?, ap, ◌∙◌, subst, true,
  false, none, some, Option-cases, Bool-cases, arith, ℤ, pos, negsuc, ◌-ℤ◌, ltb_ℤ, ◌==◌,
}
use mathlib.Core.Option.{some-injective}
use os_codes.Xv6.Proc.{Proc, Kernel, runnable, allocproc, find_unused}
use os_codes.Xv6.Proc.Life.{exit, exited, wait, wait_with, wait_scan, reaped}
use os_codes.Xv6.Proc.Sched.{
  Machine, set_cpu, dispatch, Step, Reach, skips, picks, ends_pass, yields, goes_to_sleep, exits,
  reaps, kills, wakes, allocates, starts, sets_prio, here, next, next_check, eligible,
}

-- `prio_check` after `n` more passes.
abbrev pub check_after : ℕ → ℤ → ℤ
check_after zero c = c
check_after (suc n) c = check_after n (next_check c)

InRange : ℤ → Type 0
InRange c = (k : ℕ) × (k ≤ 100) × (c ≡ pos (10 * k))

next_check_down : (k : ℕ) → next_check (pos (10 * suc k)) ≡ pos (10 * k)
unfolding next_check ◌-ℤ◌
next_check_down k = ground arith

next_check-InRange : (c : ℤ) → InRange c → InRange (next_check c)
unfolding InRange next_check
next_check-InRange c (zero, le, e) = (100, omega arith, ap next_check e)
next_check-InRange c (suc k, le, e) = (k, omega arith, ap next_check e ∙ next_check_down k)

check_after-zero : (k : ℕ) → check_after k (pos (10 * k)) ≡ pos 0
check_after-zero zero = refl
check_after-zero (suc k) = ap (check_after k) (next_check_down k) ∙ check_after-zero k

exit-prio_check : (cur : ℕ) (s t : Kernel) → exit cur s ≡ some t → s.prio_check ≡ t.prio_check
unfolding exit
exit-prio_check cur s t h = elim (Bool-cases (cur == s.initproc)) [
  | inl e ↦ absurd (cc (e, h))
  | inr e ↦
      let ends : some (exited cur s) ≡ some t = rw e at h in
      ap (λ (x : Kernel). x.prio_check) (some-injective _ _ ends)
]

wait-prio_check :
    (cur pid kstack pgdir : ℕ) (s t : Kernel)
    → wait cur s ≡ reaped pid kstack pgdir t
    → s.prio_check ≡ t.prio_check
unfolding wait
wait-prio_check cur pid kstack pgdir s t h = elim (Option-cases (wait_scan cur s.procs).1) [
  | inl e ↦
      let ends : wait_with cur s (wait_scan cur s.procs).0 none ≡ reaped pid kstack pgdir t =
        rw e at h in
      ground arith
  | inr (r, e) ↦
      let ends : wait_with cur s (wait_scan cur s.procs).0 (some r) ≡ reaped pid kstack pgdir t =
        rw e at h in
      cc ends
]

allocproc-prio_check : (kstack : ℕ) (s : Kernel) → s.prio_check ≡ (allocproc kstack s).1.prio_check
unfolding allocproc
allocproc-prio_check kstack s = elim (Option-cases (find_unused s.procs)) [
  | inl e ↦ rw (e, allocproc)
  | inr (i, e) ↦ rw (e, allocproc)
]

-- The passes over the table that a step ends.
abbrev pub ticks : {m n : Machine} → Step m n → ℕ
ticks (skips k p idle at low) = 0
ticks (picks k p idle at chosen) = 0
ticks (ends_pass k idle end) = 1
ticks (yields k i busy) = 0
ticks (goes_to_sleep k i chan busy) = 0
ticks (exits k i s busy run) = 0
ticks (reaps k i pid kstack pgdir s busy run) = 0
ticks (kills pid) = 0
ticks (wakes chan) = 0
ticks (allocates kstack) = 0
ticks (starts i p at young) = 0
ticks (sets_prio k i n busy) = 0

-- Only the end of a pass changes `prio_check`.
Step-prio_check :
    {m n : Machine} (st : Step m n)
    → n.kernel.prio_check ≡ check_after (ticks st) m.kernel.prio_check
Step-prio_check (skips k p idle at low) = refl
Step-prio_check (picks k p idle at chosen) = refl
Step-prio_check (ends_pass k idle end) = refl
Step-prio_check (yields k i busy) = refl
Step-prio_check (goes_to_sleep k i chan busy) = refl
Step-prio_check {m} (exits k i s busy run) = sym (exit-prio_check i m.kernel s run)
Step-prio_check {m} (reaps k i pid kstack pgdir s busy run) =
    sym (wait-prio_check i pid kstack pgdir m.kernel s run)
Step-prio_check (kills pid) = refl
Step-prio_check (wakes chan) = refl
Step-prio_check {m} (allocates kstack) = sym (allocproc-prio_check kstack m.kernel)
Step-prio_check (starts i p at young) = refl
Step-prio_check (sets_prio k i n busy) = refl

check_after-InRange : (n : ℕ) (c : ℤ) → InRange c → InRange (check_after n c)
check_after-InRange zero c h = h
check_after-InRange (suc n) c h = check_after-InRange n (next_check c) (next_check-InRange c h)

Reach-InRange : {m : Machine} → Reach m → InRange m.kernel.prio_check
unfolding InRange
Reach-InRange (here none_runs) = (100, omega arith, refl)
Reach-InRange (next r st) =
    subst InRange (sym (Step-prio_check st)) (check_after-InRange (ticks st) _ (Reach-InRange r))

-- A run, with the passes that the processors end in it.
pub data Run (m : Machine) : ℕ → Machine → Type 0 where
  rests : Run m 0 m
  goes : {k : ℕ} {n o : Machine} → Run m k n → (st : Step n o) → Run m (k + ticks st) o

check_after-check_after :
    (a b : ℕ) (c : ℤ) → check_after b (check_after a c) ≡ check_after (a + b) c
check_after-check_after zero b c =
    let same : 0 + b ≡ b = omega arith in ap (λ n. check_after n c) (sym same)
check_after-check_after (suc a) b c =
    let same : suc a + b ≡ suc (a + b) = omega arith in
    check_after-check_after a b (next_check c) ∙ ap (λ n. check_after n c) (sym same)

Run-prio_check :
    {m : Machine} {k : ℕ} {n : Machine}
    → Run m k n
    → n.kernel.prio_check ≡ check_after k m.kernel.prio_check
Run-prio_check rests = refl
Run-prio_check {m} (goes {k} run st) =
    Step-prio_check st
    ∙ ap (check_after (ticks st)) (Run-prio_check run)
    ∙ check_after-check_after k (ticks st) m.kernel.prio_check

-- The passes until `prio_check` is 0.
abbrev pub passes_to_zero : ℤ → ℕ
passes_to_zero (pos c) = c / 10
passes_to_zero (negsuc c) = 0

InRange-zero :
    (c : ℤ) → InRange c → (passes_to_zero c ≤ 100) × (check_after (passes_to_zero c) c ≡ pos 0)
unfolding InRange
InRange-zero c (k, le, e) =
    let same : passes_to_zero c ≡ k =
      ap passes_to_zero e ∙ (let whole : 10 * k / 10 ≡ k = omega arith in whole) in
    (
      subst (λ n. n ≤ 100) (sym same) le,
      ap (λ n. check_after n c) same ∙ ap (check_after k) e ∙ check_after-zero k,
    )

-- Whatever the processes do from a reachable state on: once the processors have ended `prio_check` / 10
-- passes over the table, which are at most 100, a scheduler that reaches a runnable process of priority 0 or
-- more picks it, and cannot skip it.
pub prio_gets_turn :
    {m o : Machine}
    → Reach m
    → Run m (passes_to_zero m.kernel.prio_check) o
    → (k : ℕ) (p : Proc) → (o.cpu k).current ≡ none
    → get_elem? o.kernel.procs (o.cpu k).place ≡ some p
    → p.state ≡ runnable
    → ltb_ℤ p.prio (pos 0) ≡ false
    → (passes_to_zero m.kernel.prio_check ≤ 100)
      × (eligible o.kernel.prio_check p ≡ true)
      × Step o (
          set_cpu k
            (record (o.cpu k) { current = some (o.cpu k).place })
            (dispatch (o.cpu k).place o.kernel)
            o)
prio_gets_turn {m} {o} r run k p idle at can sign =
    let (le, zero_reached) = InRange-zero m.kernel.prio_check (Reach-InRange r) in
    let served : o.kernel.prio_check ≡ pos 0 = Run-prio_check run ∙ zero_reached in
    let passes : eligible o.kernel.prio_check p ≡ true = rw (served, can, sign) in
    (le, passes, picks k p idle at passes)
