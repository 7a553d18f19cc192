-- ===== src/Xv6/Proc/Running.antt =====
-- Each step of the processors keeps a running process on one processor.
use os_codes.Common.{
  ℕ, zero, suc, ◌≡◌, ◌≢◌, inl, inr, refl, sym, ap, ◌∙◌, subst, Bool, true, false, none, some, List,
  [], ◌∷◌, length, get_elem?, Bool-cases, Option-cases, arith, ◌==◌, ℤ,
}
use mathlib.Core.Option.{some-injective}
use os_codes.Xv6.Proc.{
  running, embryo, unused, Proc, Kernel, has_state, wakeup, adopt_from, parent_chan, allocproc,
  new_proc, find_unused,
}
use os_codes.Xv6.Proc.Life.{wait_with, exited, wait_scan, wait, exit, reaped}
use os_codes.Xv6.Proc.Sched.{
  Cpu, Machine, eligible, Step, Reach, NoneRuns, skips, picks, ends_pass, yields, goes_to_sleep,
  exits, reaps, kills, wakes, allocates, starts, sets_prio, here, next,
}
use os_codes.Xv6.Proc.Table.{
  runs, runs-running, SameRuns, SameRuns-refl, SameRuns-trans, SameRuns-at_slot, SameRuns-wakeup,
  SameRuns-kill, SameRuns-adopt_from, SameRuns-wait_scan, find_unused-some,
}
use os_codes.Xv6.Proc.Cpus.{
  OnCpus, OnCpus-SameRuns, OnCpus-cpu, with_cpu, still_idle, OnCpus-stops, OnCpus-starts,
}

new_proc-running :
    (pid kstack : ℕ) (p : Proc)
    → has_state p.state unused ≡ true
    → has_state (new_proc pid kstack p).state running ≡ has_state p.state running
new_proc-running pid kstack p h = ground (arith, h)

SameRuns-allocproc : (kstack : ℕ) (s : Kernel) → SameRuns s.procs (allocproc kstack s).1.procs
unfolding allocproc
SameRuns-allocproc kstack s = elim (Option-cases (find_unused s.procs)) [
  | inl e ↦ rw (e, allocproc) (SameRuns-refl s.procs)
  | inr (i, e) ↦
      rw (e, allocproc)
        (SameRuns-at_slot s.procs i (new_proc s.nextpid kstack)
          (λ p at. new_proc-running s.nextpid kstack p (find_unused-some s.procs i p e at)))
]

wait_with-none :
    (cur pid kstack pgdir : ℕ) (s t : Kernel) (have_kids : Bool)
    → ¬ (wait_with cur s have_kids none ≡ reaped pid kstack pgdir t)
wait_with-none cur pid kstack pgdir s t have_kids h = ground arith

SameRuns-wait :
    (cur pid kstack pgdir : ℕ) (s t : Kernel)
    → wait cur s ≡ reaped pid kstack pgdir t
    → SameRuns s.procs t.procs
unfolding wait
SameRuns-wait cur pid kstack pgdir s t h = elim (Option-cases (wait_scan cur s.procs).1) [
  | inl e ↦
      let ends : wait_with cur s (wait_scan cur s.procs).0 none ≡ reaped pid kstack pgdir t =
        rw e at h in
      absurd (wait_with-none cur pid kstack pgdir s t (wait_scan cur s.procs).0 ends)
  | inr (r, e) ↦
      let ends : wait_with cur s (wait_scan cur s.procs).0 (some r) ≡ reaped pid kstack pgdir t =
        rw e at h in
      let left : r.1 ≡ t.procs = cc ends in
      subst (SameRuns s.procs) left (SameRuns-wait_scan cur s.procs r.1 r.0 e)
]

eligible-rests :
    (ps : List Proc) (i : ℕ) (p : Proc) (check : ℤ)
    → get_elem? ps i ≡ some p
    → eligible check p ≡ true
    → runs ps i ≡ false
eligible-rests ps i p check at chosen =
    let other : has_state p.state running ≡ false = ground (arith, chosen) in
    runs-running ps i p at ∙ other

embryo-rests : (p q : Proc) → some p ≡ some q → p.state ≡ embryo → false ≡ has_state q.state running
embryo-rests p q e young =
    let same : p.state ≡ q.state = ap (λ (x : Proc). x.state) (some-injective _ _ e) in
    ap (λ x. has_state x running) (sym young ∙ same)

exit-OnCpus :
    (k cur : ℕ) (c : Cpu) (cpu : ℕ → Cpu) (s t : Kernel)
    → exit cur s ≡ some t
    → (cpu k).current ≡ some cur
    → c.current ≡ none
    → OnCpus s.procs cpu
    → OnCpus t.procs (with_cpu k c cpu)
unfolding exit
exit-OnCpus k cur c cpu s t h busy free on = elim (Bool-cases (cur == s.initproc)) [
  | inl e ↦ absurd (cc (e, h))
  | inr e ↦
      let ends : some (exited cur s) ≡ some t = rw e at h in
      let woken : List Proc = wakeup (parent_chan s.procs cur) s.procs in
      let left : List Proc = adopt_from cur s.initproc (length s.procs) 0 woken in
      let same : SameRuns s.procs left =
        SameRuns-trans s.procs woken left (SameRuns-wakeup _ s.procs)
          (SameRuns-adopt_from cur s.initproc (length s.procs) 0 woken) in
      subst (λ (x : Kernel). OnCpus x.procs (with_cpu k c cpu)) (some-injective _ _ ends)
        (OnCpus-stops left cpu k cur c _ (OnCpus-SameRuns s.procs left cpu same on) busy free
          (λ p. refl))
]

Step-OnCpus : {m n : Machine} → Step m n → OnCpus m.kernel.procs m.cpu → OnCpus n.kernel.procs n.cpu
Step-OnCpus {m} (skips k p idle at low) on =
    OnCpus-cpu m.kernel.procs m.cpu _ (still_idle k _ m.cpu idle refl) on
Step-OnCpus {m} (picks k p idle at chosen) on =
    OnCpus-starts m.kernel.procs m.cpu k (m.cpu k).place _ _ on p idle refl at
      (eligible-rests m.kernel.procs (m.cpu k).place p m.kernel.prio_check at chosen) refl
Step-OnCpus {m} (ends_pass k idle end) on =
    OnCpus-cpu m.kernel.procs m.cpu _ (still_idle k _ m.cpu idle refl) on
Step-OnCpus {m} (yields k i busy) on =
    OnCpus-stops m.kernel.procs m.cpu k i _ _ on busy refl (λ p. refl)
Step-OnCpus {m} (goes_to_sleep k i chan busy) on =
    OnCpus-stops m.kernel.procs m.cpu k i _ _ on busy refl (λ p. refl)
Step-OnCpus {m} (exits k i s busy run) on = exit-OnCpus k i _ m.cpu m.kernel s run busy refl on
Step-OnCpus {m} (reaps k i pid kstack pgdir s busy run) on =
    OnCpus-SameRuns m.kernel.procs s.procs m.cpu (SameRuns-wait i pid kstack pgdir m.kernel s run)
      on
Step-OnCpus {m} (kills pid) on =
    OnCpus-SameRuns m.kernel.procs _ m.cpu (SameRuns-kill pid m.kernel.procs) on
Step-OnCpus {m} (wakes chan) on =
    OnCpus-SameRuns m.kernel.procs _ m.cpu (SameRuns-wakeup chan m.kernel.procs) on
Step-OnCpus {m} (allocates kstack) on =
    OnCpus-SameRuns m.kernel.procs _ m.cpu (SameRuns-allocproc kstack m.kernel) on
Step-OnCpus {m} (starts i p at young) on =
    OnCpus-SameRuns m.kernel.procs _ m.cpu
      (SameRuns-at_slot m.kernel.procs i _ (λ q at'. embryo-rests p q (sym at ∙ at') young)) on
Step-OnCpus {m} (sets_prio k i n busy) on =
    OnCpus-SameRuns m.kernel.procs _ m.cpu (SameRuns-at_slot m.kernel.procs i _ (λ q at. refl)) on

idle-rests : (ps : List Proc) → NoneRuns ps → (j : ℕ) → runs ps j ≡ false
unfolding NoneRuns
idle-rests [] none_runs j = refl
idle-rests (p ∷ ps) none_runs zero =
    let still : p.state ≢ running = none_runs 0 p refl in ground (arith, still)
idle-rests (p ∷ ps) none_runs (suc j) = idle-rests ps (λ i q at. none_runs (suc i) q at) j

Reach-OnCpus : {m : Machine} → Reach m → OnCpus m.kernel.procs m.cpu
Reach-OnCpus (here {ps} none_runs) = record {
  held = λ j run. absurd (cc (idle-rests ps none_runs j, run));
  going = λ k j at. absurd (cc at);
  alone = λ k l j at at'. absurd (cc at);
}
Reach-OnCpus (next r st) = Step-OnCpus st (Reach-OnCpus r)

-- Whatever the processors do, from the boot on: a process whose state is `RUNNING` is the process of a
-- processor, and of no other one.
pub runs_on_one_cpu :
    {m : Machine}
    → Reach m
    → (j : ℕ) (p : Proc) → get_elem? m.kernel.procs j ≡ some p
    → p.state ≡ running
    → (k : ℕ) × ((m.cpu k).current ≡ some j) × ((l : ℕ) → (m.cpu l).current ≡ some j → l ≡ k)
runs_on_one_cpu {m} r j p at run =
    let on = Reach-OnCpus r in
    let (k, there_) =
      on.held j (runs-running m.kernel.procs j p at ∙ ap (λ x. has_state x running) run) in
    (k, there_, λ l there'. on.alone k l j there_ there')
