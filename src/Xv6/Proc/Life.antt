-- ===== src/Xv6/Proc/Life.antt =====
-- xv6-public/proc.c: how a process ends, sleeps, and is waited for.
use os_codes.Common.{
  ◌&&◌, ◌∷◌, ℕ, Bool, true, false, not, ◌||◌, Option, none, some, List, [], ◌∷◌, length,
  if◌then◌else◌, ◌==◌, get_elem?,
}
use os_codes.Xv6.Proc.{
  unused, runnable, sleeping, zombie, Chan, no_chan, proc_chan, Proc, Kernel, has_state, at_slot,
  wakeup, is_child, adopt_from, parent_chan,
}

-- The table after `exit` of the process `cur`, once its files are closed.
abbrev pub exited : ℕ → Kernel → Kernel
exited cur s =
    let woken = wakeup (parent_chan s.procs cur) s.procs in
    let adopted = adopt_from cur s.initproc (length s.procs) 0 woken in
    record s { procs = at_slot adopted cur (λ (p : Proc). record p { state = zombie }) }

-- `exit`, with its panic as `none`.
unfoldable pub exit : ℕ → Kernel → Option Kernel
exit cur s = if cur == s.initproc then none else some (exited cur s)

-- `p->name[0] = 0`
abbrev pub clear_first : List ℕ → List ℕ
clear_first [] = []
clear_first (c ∷ cs) = 0 ∷ cs

-- What `wait` leaves of the child that it found.
abbrev pub reap : Proc → Proc
reap p = record p {
  kstack = 0;
  pid = 0;
  parent = none;
  name = clear_first p.name;
  killed = false;
  state = unused;
}

abbrev pub put_back : Proc → Option (Proc × List Proc) → Option (Proc × List Proc)
put_back p none = none
put_back p (some (q, qs)) = some (q, p ∷ qs)

-- The loop of `wait`: whether there are children, and the first zombie among them with the table that
-- is left.
unfoldable pub wait_scan : ℕ → List Proc → Bool × Option (Proc × List Proc)
wait_scan cur [] = (false, none)
wait_scan cur (p ∷ ps) =
    let rest = wait_scan cur ps in
    if is_child cur p && has_state p.state zombie
    then (true, some (p, reap p ∷ ps))
    else (is_child cur p || rest.0, put_back p rest.1)

-- `kfree` and `freevm` get the stack and the page table of the child.
pub data WaitResult : Type 0 where
  reaped : (pid kstack pgdir : ℕ) → Kernel → WaitResult
  fails : WaitResult
  sleeps : Kernel → WaitResult

-- `sleep`, up to the call of `sched`
abbrev pub fall_asleep : Chan → ℕ → Kernel → Kernel
fall_asleep chan cur s = record s {
  procs = at_slot s.procs cur (λ (p : Proc). record p { chan = chan; state = sleeping });
}

abbrev pub is_killed : ℕ → List Proc → Bool
is_killed cur ps = elim (get_elem? ps cur) [ none ↦ false | some p ↦ p.killed ]

-- One round of `wait`, with what its loop found: it returns, or sleeps until the next round.
abbrev pub wait_with : ℕ → Kernel → Bool → Option (Proc × List Proc) → WaitResult
wait_with cur s have_kids (some (p, ps)) = reaped p.pid p.kstack p.pgdir (record s { procs = ps })
wait_with cur s have_kids none =
    if not have_kids || is_killed cur s.procs
    then fails
    else sleeps (fall_asleep (proc_chan cur) cur s)

unfoldable pub wait : ℕ → Kernel → WaitResult
unfolding wait_scan
wait cur s = wait_with cur s (wait_scan cur s.procs).0 (wait_scan cur s.procs).1

-- `sleep`, from the return of `sched` on
abbrev pub wake_up : ℕ → Kernel → Kernel
wake_up cur s = record s { procs = at_slot s.procs cur (λ (p : Proc). record p { chan = no_chan }) }

-- `yield`
abbrev pub yield : ℕ → Kernel → Kernel
yield cur s = record s { procs = at_slot s.procs cur (λ (p : Proc). record p { state = runnable }) }

-- The end of `fork`: the child `i` may run.
abbrev pub start_child : ℕ → Kernel → Kernel
start_child i s = record s {
  procs = at_slot s.procs i (λ (p : Proc). record p { state = runnable });
}
