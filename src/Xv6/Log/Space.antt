-- ===== src/Xv6/Log/Space.antt =====
-- The room that `begin_op` keeps free in the log.
use os_codes.Common.{
  ℕ, zero, suc, ◌+◌, ◌-◌, ◌*◌, ◌≤◌, ◌<◌, ◌≡◌, inl, inr, refl, sym, ap, ◌∙◌, arith, true, false,
  some, none, if◌then◌else◌, leb, List, [], ◌∷◌, ltb, ◌==◌, length, get_elem?, set, Bool-cases,
}
use mathlib.Core.Option.{some-injective}
use os_codes.Xv6.Log.{
  Log, log_size, max_op_blocks, begin_op, end_op, end_commit, commit, log_write, record_block,
  install_trans, write_head, write_log,
}
use os_codes.Xv6.Log.Blocks.{write_log_from-record, install_from-record}

-- The log, and for each operation that runs how many blocks it may still log.
pub record Ops : Type 0 where
  pub log : Log
  pub budgets : List ℕ

abbrev pub remove : List ℕ → ℕ → List ℕ
remove [] i = []
remove (r ∷ rs) zero = rs
remove (r ∷ rs) (suc i) = r ∷ remove rs i

-- Each operation calls `log_write` at most MAXOPBLOCKS times; the last one to end commits.
pub data Step (o : Ops) : Ops → Type 0 where
  begins :
      (l : Log)
      → begin_op o.log ≡ some l
      → Step o (record { log = l; budgets = max_op_blocks ∷ o.budgets })
  writes :
      (i r b : ℕ) (l : Log)
      → get_elem? o.budgets i ≡ some (suc r)
      → log_write b o.log ≡ some l
      → Step o (record { log = l; budgets = set o.budgets i r })
  ends :
      (i r : ℕ) (l : Log)
      → get_elem? o.budgets i ≡ some r
      → end_op o.log ≡ some l
      → Step o (record { log = l; budgets = remove o.budgets i })
  commits : o.log.committing ≡ true → Step o (record o { log = end_commit o.log })

-- From an empty log, whatever the size of its area on the disk.
pub data Reach : Ops → Type 0 where
  here :
      {l : Log}
      → l.blocks ≡ []
      → l.outstanding ≡ 0
      → l.committing ≡ false
      → Reach (record { log = l; budgets = [] })
  next : {o p : Ops} → Reach o → Step o p → Reach p

abbrev sum : List ℕ → ℕ
sum [] = 0
sum (r ∷ rs) = r + sum rs

abbrev Small : List ℕ → Type 0
Small [] = Unit
Small (r ∷ rs) = (r ≤ max_op_blocks) × Small rs

sum-Small : (rs : List ℕ) → Small rs → sum rs ≤ max_op_blocks * length rs
sum-Small [] small = omega arith
sum-Small (r ∷ rs) (low, small) = let rest = sum-Small rs small in omega arith

record Inv (o : Ops) : Type 0 where
  count : length o.budgets ≡ o.log.outstanding
  small : Small o.budgets
  room : length o.log.blocks + sum o.budgets ≤ log_size
  idle : o.log.committing ≡ true → o.log.outstanding ≡ 0

length-record_block : (b : ℕ) (cs : List ℕ) → length (record_block b cs) ≤ length cs + 1
unfolding record_block
length-record_block b [] = omega arith
length-record_block b (c ∷ cs) = let rest = length-record_block b cs in ground arith

sum-set :
    (rs : List ℕ) (i r : ℕ)
    → get_elem? rs i ≡ some (suc r)
    → Small rs
    → (suc (sum (set rs i r)) ≡ sum rs) × (length (set rs i r) ≡ length rs) × Small (set rs i r)
sum-set [] i r at small = absurd (cc at)
sum-set (s ∷ rs) zero r at (low, small) =
    let same : s ≡ suc r = some-injective _ _ at in
    (omega (arith, same), refl, (omega (arith, same), small))
sum-set (s ∷ rs) (suc i) r at (low, small) =
    let (total, size, rest) = sum-set rs i r at small in
    (omega (arith, total), omega (arith, size), (low, rest))

sum-remove :
    (rs : List ℕ) (i r : ℕ)
    → get_elem? rs i ≡ some r
    → Small rs
    → (r + sum (remove rs i) ≡ sum rs)
      × (suc (length (remove rs i)) ≡ length rs)
      × Small (remove rs i)
sum-remove [] i r at small = absurd (cc at)
sum-remove (s ∷ rs) zero r at (low, small) =
    let same : s ≡ r = some-injective _ _ at in (omega (arith, same), refl, small)
sum-remove (s ∷ rs) (suc i) r at (low, small) =
    let (total, size, rest) = sum-remove rs i r at small in
    (omega (arith, total), omega (arith, size), (low, rest))

commit-idle :
    (l : Log)
    → (length (commit l).blocks ≡ 0)
      × ((commit l).outstanding ≡ l.outstanding)
      × ((commit l).size ≡ l.size)
unfolding commit install_trans write_head write_log
commit-idle l = elim (Bool-cases (ltb 0 (length l.blocks))) [
  | inl some_blocks ↦
      let logged = write_log_from-record 0 l.blocks l in
      let m : Log = write_head (write_log l) in
      let same = install_from-record 0 m.blocks m in
      rw some_blocks (
        refl,
        ap (λ (x : Log). x.outstanding) (sym same) ∙ ap (λ (x : Log). x.outstanding) (sym logged),
        ap (λ (x : Log). x.size) (sym same) ∙ ap (λ (x : Log). x.size) (sym logged),
      )
  | inr none_left ↦ rw none_left (ground arith, refl, refl)
]

Step-Inv : {o p : Ops} → Step o p → Inv o → Inv p
unfolding begin_op end_op log_write end_commit
Step-Inv {o} (begins l run) inv = let total = sum-Small o.budgets inv.small in ground arith
Step-Inv {o} (writes i r b l at run) inv =
    let (total, size, small) = sum-set o.budgets i r at inv.small in
    let more = length-record_block b o.log.blocks in ground arith
Step-Inv {o} (ends i r l at run) inv =
    let (total, size, small) = sum-remove o.budgets i r at inv.small in ground arith
Step-Inv {o} (commits h) inv =
    let (blocks, outstanding, size) = commit-idle o.log in
    record {
      count = inv.count ∙ sym outstanding;
      small = inv.small;
      room = let none_run = inv.idle h in omega arith;
      idle = λ k. absurd (cc k);
    }

Reach-Inv : {o : Ops} → Reach o → Inv o
Reach-Inv (here blocks outstanding committing) = ground arith
Reach-Inv (next r st) = Step-Inv st (Reach-Inv r)

get-sum : (rs : List ℕ) (i r : ℕ) → get_elem? rs i ≡ some r → (r ≤ sum rs) × (0 < length rs)
get-sum [] i r at = absurd (cc at)
get-sum (s ∷ rs) zero r at = let same : s ≡ r = some-injective _ _ at in (omega arith, omega arith)
get-sum (s ∷ rs) (suc i) r at =
    let (le, some_there) = get-sum rs i r at in (omega arith, omega arith)

pub get-inside : (rs : List ℕ) (i r : ℕ) → get_elem? rs i ≡ some r → i < length rs
get-inside [] i r at = absurd (cc at)
get-inside (s ∷ rs) zero r at = omega arith
get-inside (s ∷ rs) (suc i) r at = let rest = get-inside rs i r at in omega (arith, rest)

pub log_write_outcome :
    {o : Ops}
    → Reach o
    → (i r b : ℕ) → get_elem? o.budgets i ≡ some (suc r)
    → (length o.log.blocks < log_size)
      × (log_write b o.log ≡ (
          if ltb (length o.log.blocks + 1) o.log.size
          then some (record o.log { blocks = record_block b o.log.blocks })
          else none))
unfolding log_write
log_write_outcome {o} reach i r b at =
    let inv = Reach-Inv reach in
    let room = inv.room in
    let (le, some_there) = get-sum o.budgets i (suc r) at in
    let running = inv.count in
    let low : leb log_size (length o.log.blocks) ≡ false = ground arith in
    let counted : (o.log.outstanding == 0) ≡ false = ground (arith, running, some_there) in
    (
      omega arith,
      elim (Bool-cases (ltb (length o.log.blocks + 1) o.log.size)) [
        | inl space ↦
            let fits : leb (o.log.size - 1) (length o.log.blocks) ≡ false = ground (arith, space) in
            rw (low, fits, counted, space)
        | inr full ↦
            let past : leb (o.log.size - 1) (length o.log.blocks) ≡ true = ground (arith, full) in
            rw (low, past, full)
      ],
    )

idle_log :
    (l : Log) → (l.committing ≡ true → l.outstanding ≡ 0) → 0 < l.outstanding → l.committing ≡ false
idle_log l idle busy = ground arith

-- In every reachable state, an operation that runs can end, without the panic of `end_op`.
pub end_op_total :
    {o : Ops}
    → Reach o
    → (i r : ℕ) → get_elem? o.budgets i ≡ some r
    → (l : Log) × (end_op o.log ≡ some l)
unfolding end_op
end_op_total {o} reach i r at =
    let inv = Reach-Inv reach in
    let (le, some_there) = get-sum o.budgets i r at in
    let running = inv.count in
    let open_log : o.log.committing ≡ false = idle_log o.log inv.idle (omega arith) in
    elim (Bool-cases (o.log.outstanding - 1 == 0)) [
      | inl last ↦ (record o.log { outstanding = 0; committing = true }, rw (open_log, last))
      | inr more ↦ (record o.log { outstanding = o.log.outstanding - 1 }, rw (open_log, more))
    ]
