-- ===== src/Xv6/Proc/Cpus.antt =====
-- The processors and the processes that they run.
use os_codes.Common.{
  ℕ, ◌≡◌, ◌≢◌, refl, sym, ap, ◌∙◌, true, false, none, some, List, if◌then◌else◌, get_elem?,
  ℕ_discrete, arith, ◌==◌,
}
use mathlib.Core.Option.{some-injective}
use os_codes.Xv6.Proc.{running, Proc, has_state, at_slot}
use os_codes.Xv6.Proc.Sched.{Cpu}
use os_codes.Xv6.Proc.Table.{runs, SameRuns, runs-elsewhere, runs-stopped, runs-started}

-- The processes that run are those that the processors have, each on one processor.
pub record OnCpus (ps : List Proc) (cpu : ℕ → Cpu) : Type 0 where
  pub held : (j : ℕ) → runs ps j ≡ true → (k : ℕ) × ((cpu k).current ≡ some j)
  pub going : (k j : ℕ) → (cpu k).current ≡ some j → runs ps j ≡ true
  pub alone : (k l j : ℕ) → (cpu k).current ≡ some j → (cpu l).current ≡ some j → l ≡ k

pub OnCpus-SameRuns :
    (ps qs : List Proc) (cpu : ℕ → Cpu) → SameRuns ps qs → OnCpus ps cpu → OnCpus qs cpu
unfolding SameRuns
OnCpus-SameRuns ps qs cpu same on = record {
  held = λ j run. on.held j (sym (same j) ∙ run);
  going = λ k j at. same j ∙ on.going k j at;
  alone = on.alone;
}

pub OnCpus-cpu :
    (ps : List Proc) (cpu cpu' : ℕ → Cpu)
    → ((k : ℕ) → (cpu' k).current ≡ (cpu k).current)
    → OnCpus ps cpu
    → OnCpus ps cpu'
OnCpus-cpu ps cpu cpu' same on = record {
  held = λ j run. let (k, at) = on.held j run in (k, same k ∙ at);
  going = λ k j at. on.going k j (sym (same k) ∙ at);
  alone = λ k l j at at'. on.alone k l j (sym (same k) ∙ at) (sym (same l) ∙ at');
}

abbrev pub with_cpu : ℕ → Cpu → (ℕ → Cpu) → ℕ → Cpu
with_cpu k c cpu n = if n == k then c else cpu n

with_cpu_self : (k : ℕ) (c : Cpu) (cpu : ℕ → Cpu) (n : ℕ) → n ≡ k → with_cpu k c cpu n ≡ c
with_cpu_self k c cpu n e = let hit : (n == k) ≡ true = ground (arith, e) in rw hit

with_cpu_other : (k : ℕ) (c : Cpu) (cpu : ℕ → Cpu) (n : ℕ) → n ≢ k → with_cpu k c cpu n ≡ cpu n
with_cpu_other k c cpu n ne = let miss : (n == k) ≡ false = ground (arith, ne) in rw miss

-- A processor without a process goes on without one.
pub still_idle :
    (k : ℕ) (c : Cpu) (cpu : ℕ → Cpu)
    → (cpu k).current ≡ none
    → c.current ≡ none
    → (n : ℕ) → (with_cpu k c cpu n).current ≡ (cpu n).current
still_idle k c cpu idle free n = elim (ℕ_discrete n k) [
  | yes e ↦
      ap (λ (x : Cpu). x.current) (with_cpu_self k c cpu n e)
      ∙ free
      ∙ sym idle
      ∙ ap (λ i. (cpu i).current) (sym e)
  | no ne ↦ ap (λ (x : Cpu). x.current) (with_cpu_other k c cpu n ne)
]

module _ (ps : List Proc) (cpu : ℕ → Cpu) (k i : ℕ) (c : Cpu) (f : Proc → Proc)
    (on : OnCpus ps cpu) where
  -- The process `i` of the processor `k` stops.
  pub OnCpus-stops :
      (cpu k).current ≡ some i
      → c.current ≡ none
      → ((p : Proc) → has_state (f p).state running ≡ false)
      → OnCpus (at_slot ps i f) (with_cpu k c cpu)
  OnCpus-stops busy free stops = record {
    held = λ j run. elim (ℕ_discrete j i) [
      | yes e ↦
          let rests : runs (at_slot ps i f) j ≡ false =
            ap (runs (at_slot ps i f)) e ∙ runs-stopped ps i f stops in
          absurd (cc (rests, run))
      | no ne ↦
          let (l, at) = on.held j (sym (runs-elsewhere ps i j f ne) ∙ run) in
          let other : l ≢ k =
            λ e. ne (some-injective _ _ (sym at ∙ ap (λ n. (cpu n).current) e ∙ busy)) in
          (l, ap (λ (x : Cpu). x.current) (with_cpu_other k c cpu l other) ∙ at)
    ];
    going = λ l j at.
        let (other, old) = old_current l j at in
        let ne : j ≢ i = λ e. other (on.alone k l i busy (old ∙ ap some e)) in
        runs-elsewhere ps i j f ne ∙ on.going l j old;
    alone = λ l m j at at'. on.alone l m j (old_current l j at).1 (old_current m j at').1;
  }
    where
      old_current :
          (l j : ℕ) → (with_cpu k c cpu l).current ≡ some j → (l ≢ k) × ((cpu l).current ≡ some j)
      old_current l j at = elim (ℕ_discrete l k) [
        | yes e ↦ absurd (cc (ap (λ (x : Cpu). x.current) (with_cpu_self k c cpu l e), free, at))
        | no ne ↦ (ne, sym (ap (λ (x : Cpu). x.current) (with_cpu_other k c cpu l ne)) ∙ at)
      ]

  -- The processor `k`, which has no process, takes the process `i`, which does not run.
  pub OnCpus-starts :
      (p : Proc)
      → (cpu k).current ≡ none
      → c.current ≡ some i
      → get_elem? ps i ≡ some p
      → runs ps i ≡ false
      → has_state (f p).state running ≡ true
      → OnCpus (at_slot ps i f) (with_cpu k c cpu)
  OnCpus-starts p idle taken at rests starts_ = record {
    held = λ j run. elim (ℕ_discrete j i) [
      | yes e ↦
          (k, ap (λ (x : Cpu). x.current) (with_cpu_self k c cpu k refl) ∙ taken ∙ ap some (sym e))
      | no ne ↦
          let (l, there_) = on.held j (sym (runs-elsewhere ps i j f ne) ∙ run) in
          let other : l ≢ k = λ e. cc (sym there_ ∙ ap (λ n. (cpu n).current) e ∙ idle) in
          (l, ap (λ (x : Cpu). x.current) (with_cpu_other k c cpu l other) ∙ there_)
    ];
    going = λ l j there_. elim (ℕ_discrete l k) [
      | yes e ↦ ap (runs (at_slot ps i f)) (of_k l j e there_) ∙ runs-started ps i f p at starts_
      | no ne ↦
          let old = of_other l j ne there_ in
          let differ : j ≢ i = λ e. cc (on.going l j old, ap (runs ps) e, rests) in
          runs-elsewhere ps i j f differ ∙ on.going l j old
    ];
    alone = λ l m j there_ there'. elim (ℕ_discrete l k) [
      | yes e ↦ elim (ℕ_discrete m k) [
        | yes e' ↦ e' ∙ sym e
        | no ne' ↦
            let old = on.going m j (of_other m j ne' there') in
            absurd (cc (old, ap (runs ps) (of_k l j e there_), rests))
      ]
      | no ne ↦ elim (ℕ_discrete m k) [
        | yes e' ↦
            let old = on.going l j (of_other l j ne there_) in
            absurd (cc (old, ap (runs ps) (of_k m j e' there'), rests))
        | no ne' ↦ on.alone l m j (of_other l j ne there_) (of_other m j ne' there')
      ]
    ];
  }
    where
      of_k : (l j : ℕ) → l ≡ k → (with_cpu k c cpu l).current ≡ some j → j ≡ i
      of_k l j e there_ =
          some-injective _ _
            (sym there_ ∙ ap (λ (x : Cpu). x.current) (with_cpu_self k c cpu l e) ∙ taken)

      of_other :
          (l j : ℕ) → l ≢ k → (with_cpu k c cpu l).current ≡ some j → (cpu l).current ≡ some j
      of_other l j ne there_ =
          sym (ap (λ (x : Cpu). x.current) (with_cpu_other k c cpu l ne)) ∙ there_
