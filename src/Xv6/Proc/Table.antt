-- ===== src/Xv6/Proc/Table.antt =====
-- Which processes of a table run, before and after an operation.
use os_codes.Common.{
  ℕ, zero, suc, ◌+◌, ◌≡◌, ◌≢◌, inl, inr, refl, sym, ap, ◌∙◌, subst, Bool, true, false, ◌&&◌, Option,
  none, some, List, [], ◌∷◌, ◌==◌, get_elem?, Bool-cases, Option-cases, arith,
}
use mathlib.Core.Option.{some-injective}
use os_codes.Xv6.Proc.{
  unused, running, zombie, Chan, proc_chan, Proc, has_state, at_slot, wake, wakeup, kill,
  mark_killed, is_child, adopt, adopt_from, find_unused,
}
use os_codes.Xv6.Proc.Life.{wait_scan, put_back, reap}

-- Whether the process `j` is running.
abbrev pub runs : List Proc → ℕ → Bool
runs [] j = false
runs (p ∷ ps) zero = has_state p.state running
runs (p ∷ ps) (suc j) = runs ps j

pub runs-running :
    (ps : List Proc) (j : ℕ) (p : Proc)
    → get_elem? ps j ≡ some p
    → runs ps j ≡ has_state p.state running
runs-running [] j p at = absurd (cc at)
runs-running (q ∷ ps) zero p at =
    ap (λ (x : Proc). has_state x.state running) (some-injective _ _ at)
runs-running (q ∷ ps) (suc j) p at = runs-running ps j p at

-- The same processes run.
unfoldable pub SameRuns : List Proc → List Proc → Type 0
SameRuns ps qs = (j : ℕ) → runs qs j ≡ runs ps j

pub SameRuns-refl : (ps : List Proc) → SameRuns ps ps
unfolding SameRuns
SameRuns-refl ps j = refl

pub SameRuns-trans : (ps qs rs : List Proc) → SameRuns ps qs → SameRuns qs rs → SameRuns ps rs
unfolding SameRuns
SameRuns-trans ps qs rs f g j = g j ∙ f j

SameRuns-cons :
    (p q : Proc) (ps qs : List Proc)
    → has_state q.state running ≡ has_state p.state running
    → SameRuns ps qs
    → SameRuns (p ∷ ps) (q ∷ qs)
unfolding SameRuns
SameRuns-cons p q ps qs f g zero = f
SameRuns-cons p q ps qs f g (suc j) = g j

pub SameRuns-at_slot :
    (ps : List Proc) (i : ℕ) (f : Proc → Proc)
    → ((p : Proc)
        → get_elem? ps i ≡ some p
        → has_state (f p).state running ≡ has_state p.state running)
    → SameRuns ps (at_slot ps i f)
SameRuns-at_slot [] i f h = SameRuns-refl []
SameRuns-at_slot (p ∷ ps) zero f h = SameRuns-cons p (f p) ps ps (h p refl) (SameRuns-refl ps)
SameRuns-at_slot (p ∷ ps) (suc i) f h =
    SameRuns-cons p p ps (at_slot ps i f) refl (SameRuns-at_slot ps i f h)

wake-running :
    (chan : Chan) (p : Proc) → has_state (wake chan p).state running ≡ has_state p.state running
wake-running chan p = ground arith

mark_killed-running :
    (p : Proc) → has_state (mark_killed p).state running ≡ has_state p.state running
mark_killed-running p = ground arith

pub SameRuns-wakeup : (chan : Chan) (ps : List Proc) → SameRuns ps (wakeup chan ps)
unfolding wakeup
SameRuns-wakeup chan [] = SameRuns-refl []
SameRuns-wakeup chan (p ∷ ps) =
    SameRuns-cons p (wake chan p) ps (wakeup chan ps) (wake-running chan p)
      (SameRuns-wakeup chan ps)

pub SameRuns-kill : (pid : ℕ) (ps : List Proc) → SameRuns ps (kill pid ps).1
unfolding kill
SameRuns-kill pid [] = SameRuns-refl []
SameRuns-kill pid (p ∷ ps) = elim (Bool-cases (p.pid == pid)) [
  | inl e ↦ rw e (SameRuns-cons p (mark_killed p) ps ps (mark_killed-running p) (SameRuns-refl ps))
  | inr e ↦ rw e (SameRuns-cons p p ps (kill pid ps).1 refl (SameRuns-kill pid ps))
]

SameRuns-adopt : (cur init i : ℕ) (ps : List Proc) → SameRuns ps (adopt cur init i ps)
unfolding adopt SameRuns
SameRuns-adopt cur init i ps = elim (Option-cases (get_elem? ps i)) [
  | inl e ↦ rw (e, adopt) (SameRuns-refl ps)
  | inr (p, e) ↦
      let qs : List Proc = at_slot ps i (λ (q : Proc). record q { parent = some init }) in
      let same : SameRuns ps qs = SameRuns-at_slot ps i _ (λ q at. refl) in
      elim (Bool-cases (is_child cur p)) [
        | inl child ↦ elim (Bool-cases (has_state p.state zombie)) [
          | inl dead ↦
              rw (e, adopt, child, dead)
                (SameRuns-trans ps qs (wakeup (proc_chan init) qs) same
                  (SameRuns-wakeup (proc_chan init) qs))
          | inr alive ↦ rw (e, adopt, child, alive) same
        ]
        | inr other ↦ rw (e, adopt, other) (SameRuns-refl ps)
      ]
]

pub SameRuns-adopt_from :
    (cur init k i : ℕ) (ps : List Proc) → SameRuns ps (adopt_from cur init k i ps)
SameRuns-adopt_from cur init zero i ps = SameRuns-refl ps
SameRuns-adopt_from cur init (suc k) i ps =
    SameRuns-trans ps (adopt cur init i ps) _ (SameRuns-adopt cur init i ps)
      (SameRuns-adopt_from cur init k (i + 1) (adopt cur init i ps))

-- An assignment to a place leaves the others as they are.
pub runs-elsewhere :
    (ps : List Proc) (i j : ℕ) (f : Proc → Proc) → j ≢ i → runs (at_slot ps i f) j ≡ runs ps j
runs-elsewhere [] i j f ne = refl
runs-elsewhere (p ∷ ps) zero zero f ne = absurd (ne refl)
runs-elsewhere (p ∷ ps) zero (suc j) f ne = refl
runs-elsewhere (p ∷ ps) (suc i) zero f ne = refl
runs-elsewhere (p ∷ ps) (suc i) (suc j) f ne =
    runs-elsewhere ps i j f (λ (e : j ≡ i). ne (omega (arith, e)))

pub runs-stopped :
    (ps : List Proc) (i : ℕ) (f : Proc → Proc)
    → ((p : Proc) → has_state (f p).state running ≡ false)
    → runs (at_slot ps i f) i ≡ false
runs-stopped [] i f h = refl
runs-stopped (p ∷ ps) zero f h = h p
runs-stopped (p ∷ ps) (suc i) f h = runs-stopped ps i f h

pub runs-started :
    (ps : List Proc) (i : ℕ) (f : Proc → Proc) (p : Proc)
    → get_elem? ps i ≡ some p
    → has_state (f p).state running ≡ true
    → runs (at_slot ps i f) i ≡ true
runs-started [] i f p at h = absurd (cc at)
runs-started (q ∷ ps) zero f p at h =
    ap (λ x. has_state (f x).state running) (some-injective _ _ at) ∙ h
runs-started (q ∷ ps) (suc i) f p at h = runs-started ps i f p at h

pub find_unused-some :
    (ps : List Proc) (i : ℕ) (p : Proc)
    → find_unused ps ≡ some i
    → get_elem? ps i ≡ some p
    → has_state p.state unused ≡ true
find_unused-some [] i p found at = absurd (cc at)
find_unused-some (q ∷ ps) i p found at = elim (Bool-cases (has_state q.state unused)) [
  | inl free ↦
      let first : 0 ≡ i = some-injective _ _ (rw free at found) in
      let here_ : some q ≡ some p = subst (λ k. get_elem? (q ∷ ps) k ≡ some p) (sym first) at in
      ap (λ (x : Proc). has_state x.state unused) (sym (some-injective _ _ here_)) ∙ free
  | inr taken ↦ elim (Option-cases (find_unused ps)) [
    | inl nothing ↦ absurd (cc (rw (taken, nothing) at found))
    | inr (k, later) ↦
        let next_ : suc k ≡ i = some-injective _ _ (rw (taken, later) at found) in
        find_unused-some ps k p later (subst (λ n. get_elem? (q ∷ ps) n ≡ some p) (sym next_) at)
  ]
]

put_back-some :
    (p child : Proc) (r : Option (Proc × List Proc)) (qs : List Proc)
    → put_back p r ≡ some (child, qs)
    → (rs : List Proc) × (r ≡ some (child, rs)) × (p ∷ rs ≡ qs)
put_back-some p child none qs h = absurd (cc h)
put_back-some p child (some (q, rs)) qs h =
    let same : (q, p ∷ rs) ≡ (child, qs) = some-injective _ _ h in
    (rs, ap (λ x. some (x, rs)) (ap (λ x. x.0) same), ap (λ x. x.1) same)

zombie_rests :
    (cur : ℕ) (p : Proc)
    → (is_child cur p && has_state p.state zombie) ≡ true
    → has_state (reap p).state running ≡ has_state p.state running
zombie_rests cur p h = ground (arith, h)

-- The table that `wait` leaves.
pub SameRuns-wait_scan :
    (cur : ℕ) (ps qs : List Proc) (child : Proc)
    → (wait_scan cur ps).1 ≡ some (child, qs)
    → SameRuns ps qs
unfolding wait_scan
SameRuns-wait_scan cur [] qs child h = absurd (cc h)
SameRuns-wait_scan cur (p ∷ ps) qs child h =
    elim (Bool-cases (is_child cur p && has_state p.state zombie)) [
      | inl e ↦
          let found : some (p, reap p ∷ ps) ≡ some (child, qs) = rw e at h in
          let left : reap p ∷ ps ≡ qs = ap (λ x. x.1) (some-injective _ _ found) in
          subst (SameRuns (p ∷ ps)) left
            (SameRuns-cons p (reap p) ps ps (zombie_rests cur p e) (SameRuns-refl ps))
      | inr e ↦
          let later : put_back p (wait_scan cur ps).1 ≡ some (child, qs) = rw e at h in
          let (rs, found, left) = put_back-some p child (wait_scan cur ps).1 qs later in
          subst (SameRuns (p ∷ ps)) left
            (SameRuns-cons p p ps rs refl (SameRuns-wait_scan cur ps rs child found))
    ]
