-- ===== src/Xv6/Proc/Sched.antt =====
-- xv6-public/proc.c: the scheduler, which runs the processes whose priority reaches `prio_check`.
use os_codes.Common.{
  true, false, Option, ◌≢◌, ◌≡◌, ◌≤◌, none, some, List, length, get_elem?, ℕ, ◌+◌, ◌==◌, Bool, not,
  ◌&&◌, if◌then◌else◌, ℤ, pos, ◌-ℤ◌, ltb_ℤ,
}
use os_codes.Xv6.Proc.Life.{exit, reaped, wait, fall_asleep, yield, start_child}
use os_codes.Xv6.Proc.Calls.{set_prio}
use os_codes.Xv6.Proc.{
  Chan, embryo, kill, wakeup, allocproc, runnable, running, Proc, Kernel, has_state, at_slot,
}

-- The test of the loop of `scheduler`.
abbrev pub eligible : ℤ → Proc → Bool
eligible check p = has_state p.state runnable && not (ltb_ℤ p.prio check)

-- What `scheduler` does before `swtch`.
abbrev pub dispatch : ℕ → Kernel → Kernel
dispatch i s = record s {
  procs = at_slot s.procs i (λ (p : Proc). record p { state = running; inctxt = p.inctxt + 1 });
}

-- `prio_check` after a pass over the table.
unfoldable pub next_check : ℤ → ℤ
unfolding ◌-ℤ◌
next_check c = let d = c -ℤ pos 10 in if ltb_ℤ d (pos 0) then pos 1000 else d

abbrev pub end_pass : Kernel → Kernel
end_pass s = record s { prio_check = next_check s.prio_check }

-- A processor: the place that its `scheduler` has reached in the table, and `c->proc`.
pub record Cpu : Type 0 where
  pub place : ℕ
  pub current : Option ℕ

-- The kernel, and the processors that share it.
pub record Machine : Type 0 where
  pub kernel : Kernel
  pub cpu : ℕ → Cpu

abbrev pub set_cpu : ℕ → Cpu → Kernel → Machine → Machine
set_cpu k c s m = record { kernel = s; cpu = λ n. if n == k then c else m.cpu n }

-- `swtch` back to the scheduler of the processor `k`, which goes on with the next place.
abbrev pub back : ℕ → Kernel → Machine → Machine
back k s m = set_cpu k (record { place = (m.cpu k).place + 1; current = none }) s m

abbrev pub with_kernel : Machine → Kernel → Machine
with_kernel m s = record m { kernel = s }

-- `scheduler` on the processor `k`, and what its process and interrupts do between its choices. Under
-- `ptable.lock` a scheduler may make several of these steps before another processor makes one.
pub data Step (m : Machine) : Machine → Type 0 where
  skips :
      (k : ℕ) (p : Proc)
      → (m.cpu k).current ≡ none
      → get_elem? m.kernel.procs (m.cpu k).place ≡ some p
      → eligible m.kernel.prio_check p ≡ false
      → Step m (back k m.kernel m)
  picks :
      (k : ℕ) (p : Proc)
      → (m.cpu k).current ≡ none
      → get_elem? m.kernel.procs (m.cpu k).place ≡ some p
      → eligible m.kernel.prio_check p ≡ true
      → Step m (
          set_cpu k
            (record (m.cpu k) { current = some (m.cpu k).place })
            (dispatch (m.cpu k).place m.kernel)
            m)
  ends_pass :
      (k : ℕ)
      → (m.cpu k).current ≡ none
      → length m.kernel.procs ≤ (m.cpu k).place
      → Step m (set_cpu k (record { place = 0; current = none }) (end_pass m.kernel) m)
  yields : (k i : ℕ) → (m.cpu k).current ≡ some i → Step m (back k (yield i m.kernel) m)
  goes_to_sleep :
      (k i : ℕ) (chan : Chan)
      → (m.cpu k).current ≡ some i
      → Step m (back k (fall_asleep chan i m.kernel) m)
  exits :
      (k i : ℕ) (s : Kernel)
      → (m.cpu k).current ≡ some i
      → exit i m.kernel ≡ some s
      → Step m (back k s m)
  reaps :
      (k i pid kstack pgdir : ℕ) (s : Kernel)
      → (m.cpu k).current ≡ some i
      → wait i m.kernel ≡ reaped pid kstack pgdir s
      → Step m (with_kernel m s)
  kills :
      (pid : ℕ) → Step m (with_kernel m (record m.kernel { procs = (kill pid m.kernel.procs).1 }))
  wakes :
      (chan : Chan)
      → Step m (with_kernel m (record m.kernel { procs = wakeup chan m.kernel.procs }))
  allocates : (kstack : ℕ) → Step m (with_kernel m (allocproc kstack m.kernel).1)
  starts :
      (i : ℕ) (p : Proc)
      → get_elem? m.kernel.procs i ≡ some p
      → p.state ≡ embryo
      → Step m (with_kernel m (start_child i m.kernel))
  sets_prio :
      (k i : ℕ) (n : ℤ)
      → (m.cpu k).current ≡ some i
      → Step m (with_kernel m (set_prio i n m.kernel))

unfoldable pub NoneRuns : List Proc → Type 0
NoneRuns ps = (j : ℕ) (p : Proc) → get_elem? ps j ≡ some p → p.state ≢ running

-- From the kernel as it is before the first process.
pub data Reach : Machine → Type 0 where
  here :
      {ps : List Proc}
      → NoneRuns ps
      → Reach (record {
        kernel = record { procs = ps; initproc = 0; nextpid = 1; prio_check = pos 1000 };
        cpu = λ k. record { place = 0; current = none };
      })
  next : {m n : Machine} → Reach m → Step m n → Reach n
