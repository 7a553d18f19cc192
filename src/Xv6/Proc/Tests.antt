-- ===== src/Xv6/Proc/Tests.antt =====
-- Runs of the process table.
use os_codes.Common.{
  ℕ, zero, suc, ◌≤◌, ◌≡◌, refl, ap, true, false, Option, none, some, [], ◌∷◌, get_elem?, length,
  ◌+◌, subst, ℤ, pos, arith,
}
use mathlib.Core.Option.{some-injective}
use os_codes.Xv6.Proc.{
  ProcState, wakeup, runnable, sleeping, running, Chan, no_chan, other_chan, Proc, Kernel,
}
use os_codes.Xv6.Proc.Sched.{
  Machine, Cpu, set_cpu, with_kernel, back, end_pass, NoneRuns, Step, Reach, here, next, skips,
  picks, ends_pass, wakes, dispatch, eligible,
}
use os_codes.Xv6.Proc.Running.{runs_on_one_cpu}
use os_codes.Xv6.Proc.Priority.{Run, rests, goes, passes_to_zero, prio_gets_turn}

abbrev process : ℕ → Option ℕ → ProcState → Chan → ℤ → Proc
process pid parent state chan prio = record {
  sz = 4096;
  pgdir = 1;
  kstack = 1;
  state = state;
  pid = pid;
  parent = parent;
  tf = 0;
  context = 0;
  chan = chan;
  killed = false;
  name = [];
  inctxt = 0;
  prio = prio;
  welcome_addr = 0;
  return_addr = 0;
  eip = 0;
}

abbrev first : Proc
first = process 1 none runnable no_chan (pos 1000)

abbrev booted : Machine
booted = record {
  kernel = record { procs = first ∷ []; initproc = 0; nextpid = 1; prio_check = pos 1000 };
  cpu = λ k. record { place = 0; current = none };
}

first-NoneRuns : NoneRuns (first ∷ [])
unfolding NoneRuns
first-NoneRuns zero p at run =
    let still : runnable ≡ p.state = ap (λ (x : Proc). x.state) (some-injective _ _ at) in
    absurd (cc (still, run))
first-NoneRuns (suc j) p at run = absurd (cc at)

Reach-booted : Reach booted
Reach-booted = here first-NoneRuns

abbrev busy : Machine
busy = set_cpu 1 (record { place = 0; current = some 0 }) (dispatch 0 booted.kernel) booted

Reach-busy : Reach busy
Reach-busy = next Reach-booted (picks 1 first refl refl refl)

runs_on_one_cpu_example :
    (k : ℕ) × ((busy.cpu k).current ≡ some 0) × ((l : ℕ) → (busy.cpu l).current ≡ some 0 → l ≡ k)
runs_on_one_cpu_example =
    runs_on_one_cpu Reach-busy 0 (record first { state = running; inctxt = 1 }) refl refl

abbrev sleeper : Proc
sleeper = process 2 (some 0) sleeping (other_chan 9) (pos 500)

abbrev dozing : Machine
dozing = record booted { kernel = record booted.kernel { procs = sleeper ∷ [] } }

sleeper-NoneRuns : NoneRuns (sleeper ∷ [])
unfolding NoneRuns
sleeper-NoneRuns zero p at run =
    let still : sleeping ≡ p.state = ap (λ (x : Proc). x.state) (some-injective _ _ at) in
    absurd (cc (still, run))
sleeper-NoneRuns (suc j) p at run = absurd (cc at)

Reach-dozing : Reach dozing
Reach-dozing = here sleeper-NoneRuns

abbrev Asleep : Machine → Type 0
Asleep m = (m.kernel.procs ≡ sleeper ∷ []) × (m.cpu 0 ≡ record { place = 0; current = none })

abbrev passed : Machine → Machine
passed o = set_cpu 0 (record { place = 0; current = none }) (end_pass o.kernel) (back 0 o.kernel o)

-- The first processor ends a number of passes while the only process sleeps.
sleeps_on : (n : ℕ) (m : Machine) → Asleep m → (o : Machine) × Run m n o × Asleep o
sleeps_on zero m h = (m, rests, h)
sleeps_on (suc n) m h =
    let (o, run, (procs, idle)) = sleeps_on n m h in
    let free : (o.cpu 0).current ≡ none = ap (λ (c : Cpu). c.current) idle in
    let at : (o.cpu 0).place ≡ 0 = ap (λ (c : Cpu). c.place) idle in
    let there_ : get_elem? o.kernel.procs (o.cpu 0).place ≡ some sleeper = rw (procs, at) in
    let after : length o.kernel.procs ≤ (o.cpu 0).place + 1 = rw (procs, at) (omega arith) in
    let count : n + 0 + 1 ≡ suc n = omega arith in
    (
      passed o,
      subst (λ i. Run m i (passed o)) count
          (goes (goes run (skips 0 sleeper free there_ refl)) (ends_pass 0 refl after)),
      (procs, refl),
    )

night : (o : Machine) × Run dozing 100 o × Asleep o
night = sleeps_on 100 dozing (refl, refl)

abbrev morning : Machine
morning =
    with_kernel night.0
      (record night.0.kernel { procs = wakeup (other_chan 9) night.0.kernel.procs })

abbrev awake : Proc
awake = record sleeper { state = runnable }

morning-awake : get_elem? morning.kernel.procs (morning.cpu 0).place ≡ some awake
unfolding wakeup
morning-awake = rw (night.2.0, ap (λ (c : Cpu). c.place) night.2.1)

morning-none : (morning.cpu 0).current ≡ none
morning-none = ap (λ (c : Cpu). c.current) night.2.1

prio_gets_turn_example :
    (passes_to_zero (pos 1000) ≤ 100)
    × (eligible morning.kernel.prio_check awake ≡ true)
    × Step morning (
        set_cpu 0
          (record (morning.cpu 0) { current = some (morning.cpu 0).place })
          (dispatch (morning.cpu 0).place morning.kernel)
          morning)
prio_gets_turn_example =
    prio_gets_turn Reach-dozing (goes night.1 (wakes (other_chan 9))) 0 awake morning-none
      morning-awake refl refl

abbrev family : Kernel
family = record booted.kernel { procs = first ∷ process 2 (some 0) running no_chan (pos 500) ∷ [] }

abbrev child : Proc
child = process 2 (some 0) running no_chan (pos 500)
