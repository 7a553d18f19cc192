-- ===== src/Xv6/Log/Overrun.antt =====
-- Three operations on a log of the size that mkfs.c gives it.
use os_codes.Common.{
  ℕ, zero, suc, ◌+◌, ◌*◌, ◌≤◌, ◌<◌, ◌≡◌, ◌≢◌, refl, sym, ap, ◌∙◌, subst, arith, true, false, none,
  some, List, [], ◌∷◌, ltb, ◌==◌, length, get_elem?, set, get_elem?-set_self, get_elem?-set_ne,
}
use os_codes.Xv6.Log.{Log, log_size, max_op_blocks, begin_op, log_write, record_block}
use os_codes.Xv6.Log.Space.{Ops, Reach, here, next, begins, writes, log_write_outcome, get-inside}

abbrev AllBelow : ℕ → List ℕ → Type 0
AllBelow m [] = Unit
AllBelow m (c ∷ cs) = (c < m) × AllBelow m cs

AllBelow-suc : (m : ℕ) (cs : List ℕ) → AllBelow m cs → AllBelow (m + 1) cs
AllBelow-suc m [] all = tt
AllBelow-suc m (c ∷ cs) (low, all) = (omega arith, AllBelow-suc m cs all)

record_block-fresh :
    (m : ℕ) (cs : List ℕ)
    → AllBelow m cs
    → (length (record_block m cs) ≡ length cs + 1) × AllBelow (m + 1) (record_block m cs)
unfolding record_block
record_block-fresh m [] all = (refl, (omega arith, tt))
record_block-fresh m (c ∷ cs) (low, all) =
    let (longer, below) = record_block-fresh m cs all in
    let other : (c == m) ≡ false = ground arith in
    rw other (omega (arith, longer), (omega arith, below))

-- What the writes of one operation leave.
record Filled (i r m : ℕ) (o p : Ops) : Type 0 where
  reach : Reach p
  budget : get_elem? p.budgets i ≡ some r
  others : (j : ℕ) → j ≢ i → get_elem? p.budgets j ≡ get_elem? o.budgets j
  below : AllBelow m p.log.blocks
  size : p.log.size ≡ log_size

-- An operation writes `n` blocks from number `m` on.
fill :
    (n m i r : ℕ) (o : Ops)
    → Reach o
    → get_elem? o.budgets i ≡ some (n + r)
    → AllBelow m o.log.blocks
    → o.log.size ≡ log_size
    → length o.log.blocks + n < log_size
    → (p : Ops) × Filled i r (m + n) o p × (length p.log.blocks ≡ length o.log.blocks + n)
fill zero m i r o reach at below size room =
    let start : 0 + r ≡ r = omega arith in
    let same : m + 0 ≡ m = omega arith in
    (
      o,
      record {
        reach = reach;
        budget = at ∙ ap some start;
        others = λ j ne. refl;
        below = subst (λ k. AllBelow k o.log.blocks) (sym same) below;
        size = size;
      },
      omega arith,
    )
fill (suc n) m i r o reach at below size room =
    let more : suc n + r ≡ suc (n + r) = omega arith in
    let at' : get_elem? o.budgets i ≡ some (suc (n + r)) = at ∙ ap some more in
    let (low, outcome) = log_write_outcome reach i (n + r) m at' in
    let space : ltb (length o.log.blocks + 1) o.log.size ≡ true = ground (arith, size, room) in
    let l : Log = record o.log { blocks = record_block m o.log.blocks } in
    let written : log_write m o.log ≡ some l = outcome ∙ (rw space) in
    let q : Ops = record { log = l; budgets = set o.budgets i (n + r) } in
    let (longer, below') = record_block-fresh m o.log.blocks below in
    let (p, filled, count) =
      fill n (m + 1) i r q (next reach (writes i (n + r) m l at' written))
        (get_elem?-set_self o.budgets i (n + r) (get-inside o.budgets i _ at')) below' size
        (omega (arith, longer)) in
    let end : m + 1 + n ≡ m + suc n = omega arith in
    (
      p,
      record {
        reach = filled.reach;
        budget = filled.budget;
        others = λ j ne. filled.others j ne ∙ get_elem?-set_ne o.budgets (n + r) (λ e. ne (sym e));
        below = subst (λ k. AllBelow k p.log.blocks) end filled.below;
        size = filled.size;
      },
      omega (arith, longer, count),
    )

begin_op-some :
    (l : Log)
    → l.committing ≡ false
    → length l.blocks + (l.outstanding + 1) * max_op_blocks ≤ log_size
    → begin_op l ≡ some (record l { outstanding = l.outstanding + 1 })
unfolding begin_op
begin_op-some l open_ room =
    let test : ltb log_size (length l.blocks + (l.outstanding + 1) * max_op_blocks) ≡ false =
      ground (arith, room) in
    rw (open_, test)

-- On a log of LOGSIZE blocks with the header, as mkfs.c makes it, `begin_op` lets three operations run, and
-- there are calls of `log_write` by them after which the third, with one of its MAXOPBLOCKS blocks left,
-- cannot log any block: `log_write` panics.
pub log_write_overruns :
    (l : Log)
    → l.blocks ≡ []
    → l.outstanding ≡ 0
    → l.committing ≡ false
    → l.size ≡ log_size
    → (o : Ops) × Reach o × (get_elem? o.budgets 2 ≡ some 1) × ((b : ℕ) → log_write b o.log ≡ none)
log_write_overruns l blocks outstanding open_ size =
    let nothing : length l.blocks ≡ 0 = ap length blocks in
    let l1 : Log = record l { outstanding = l.outstanding + 1 } in
    let l2 : Log = record l1 { outstanding = l1.outstanding + 1 } in
    let l3 : Log = record l2 { outstanding = l2.outstanding + 1 } in
    let one =
      next (here blocks outstanding open_)
        (begins l1 (begin_op-some l open_ (omega (arith, nothing, outstanding)))) in
    let two = next one (begins l2 (begin_op-some l1 open_ (omega (arith, nothing, outstanding)))) in
    let three =
      next two (begins l3 (begin_op-some l2 open_ (omega (arith, nothing, outstanding)))) in
    let o : Ops = record { log = l3; budgets = 10 ∷ 10 ∷ 10 ∷ [] } in
    let none_below : AllBelow 0 l3.blocks = subst (AllBelow 0) (sym blocks) tt in
    let (p, first, ten) = fill 10 0 0 0 o three refl none_below size (omega (arith, nothing)) in
    let (q, second, twenty) =
      fill 10 10 1 0 p first.reach (first.others 1 (λ (e : 1 ≡ 0). omega (arith, e))) first.below
        first.size (omega (arith, nothing, ten)) in
    let (r, third, most) =
      fill 9 20 2 1 q second.reach
        (second.others 2 (λ (e : 2 ≡ 1). omega (arith, e))
          ∙ first.others 2 (λ (e : 2 ≡ 0). omega (arith, e)))
        second.below second.size (omega (arith, nothing, ten, twenty)) in
    let full : ltb (length r.log.blocks + 1) r.log.size ≡ false =
      ground (arith, nothing, ten, twenty, most, third.size) in
    (
      r,
      third.reach,
      third.budget,
      λ b.
          let (low, outcome) = log_write_outcome third.reach 2 0 b third.budget in
          outcome ∙ (rw full),
    )
