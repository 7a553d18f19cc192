-- ===== src/Sync/MasterWorker/Invariant.antt =====
-- What holds in every reachable state of the masters and workers.
use mathlib.Core.List.{Perm, perm_middle, append-nil}
use mathlib.Core.List.Perm
use os_codes.Common.{
  ℕ, zero, suc, ◌+◌, ◌≤◌, ◌<◌, ◌≡◌, refl, subst, subst₂, List, [], ◌∷◌, ◌++◌, arith, length, leb,
  ◌==◌, Bool-cases, inl, inr,
}
use os_codes.Sync.MasterWorker.{
  State, master_turn, consume, worker_turn, Step, master, worker, master_wakes, worker_wakes, Reach,
  here, next,
}

-- k - 1, …, 1, 0
abbrev pub countdown : ℕ → List ℕ
countdown zero = []
countdown (suc k) = k ∷ countdown k

-- The numbers and the threads add up, nobody sleeps without a reason, and nobody ends early.
pub record Inv (total max masters workers : ℕ) (s : State) : Type 0 where
  pub produced_in : s.item_to_produce ≤ total
  pub counted : s.item_read + length s.buffer ≡ s.item_to_produce
  pub fits : length s.buffer ≤ max
  pub all_masters : s.masters_awake + s.masters_asleep + s.masters_done ≡ masters
  pub all_workers : s.workers_awake + s.workers_asleep + s.workers_done ≡ workers
  pub masters_reason : 0 < s.masters_asleep → length s.buffer ≡ max
  pub workers_reason : 0 < s.workers_asleep → (length s.buffer ≡ 0) × (s.item_read < total)
  pub masters_end : 0 < s.masters_done → s.item_to_produce ≡ total
  pub workers_end : 0 < s.workers_done → s.item_read ≡ total

module _ {total max masters workers : ℕ} {s : State} (inv : Inv total max masters workers s) where
  master_turn-Inv : 0 < s.masters_awake → Inv total max masters workers (master_turn total max s)
  unfolding master_turn
  master_turn-Inv h = ground arith

  worker_turn-Inv : 0 < s.workers_awake → Inv total max masters workers (worker_turn total max s)
  unfolding worker_turn
  worker_turn-Inv h = ground arith

module _ {total max masters workers : ℕ} where
  Step-Inv :
      {s t : State}
      → Step total max s t
      → Inv total max masters workers s
      → Inv total max masters workers t
  Step-Inv (master h) inv = master_turn-Inv inv h
  Step-Inv (worker h) inv = worker_turn-Inv inv h
  Step-Inv (master_wakes h) inv = ground arith
  Step-Inv (worker_wakes h) inv = ground arith

  -- Every reachable state satisfies the invariant.
  pub Reach-Inv : {s : State} → Reach total max masters workers s → Inv total max masters workers s
  Reach-Inv here = ground arith
  Reach-Inv (next r st) = Step-Inv st (Reach-Inv r)

nil_of_length : (l : List ℕ) → length l ≡ 0 → l ≡ []
nil_of_length [] h = refl
nil_of_length (x ∷ l) h = absurd (omega arith)

-- What was consumed and what lies in the buffer are, in some order, the numbers produced.
abbrev Accounted : State → Type 0
Accounted s = Perm (s.consumed ++ s.buffer) (countdown s.item_to_produce)

module _ (total max : ℕ) (s : State) (acc : Accounted s) where
  produce-Accounted :
      Perm (s.consumed ++ (s.item_to_produce ∷ s.buffer)) (countdown (s.item_to_produce + 1))
  produce-Accounted =
      let more : s.item_to_produce + 1 ≡ suc s.item_to_produce = omega arith in
      rw more (Perm.trans (perm_middle s.consumed s.buffer) (Perm.cons s.item_to_produce acc))

  master_turn-Accounted : Accounted (master_turn total max s)
  unfolding master_turn
  master_turn-Accounted = elim (Bool-cases (leb total s.item_to_produce)) [
    | inl done ↦ rw done acc
    | inr more ↦ elim (Bool-cases (length s.buffer == max)) [
      | inl full ↦ rw (more, full) acc
      | inr room ↦ rw (more, room) produce-Accounted
    ]
  ]

  consume-Accounted :
      (buffer : List ℕ)
      → Perm (s.consumed ++ buffer) (countdown s.item_to_produce)
      → Accounted (consume buffer s)
  unfolding consume
  consume-Accounted [] h = acc
  consume-Accounted (x ∷ rest) h = Perm.trans (Perm.symm (perm_middle s.consumed rest)) h

  worker_turn-Accounted : Accounted (worker_turn total max s)
  unfolding worker_turn
  worker_turn-Accounted = elim (Bool-cases (leb total s.item_read)) [
    | inl done ↦ rw done acc
    | inr more ↦ rw more (consume-Accounted s.buffer acc)
  ]

Step-Accounted : {total max : ℕ} {s t : State} → Step total max s t → Accounted s → Accounted t
Step-Accounted {total} {max} {s} (master h) acc = master_turn-Accounted total max s acc
Step-Accounted {total} {max} {s} (worker h) acc = worker_turn-Accounted total max s acc
Step-Accounted (master_wakes h) acc = acc
Step-Accounted (worker_wakes h) acc = acc

module _ {total max masters workers : ℕ} where
  Reach-Accounted : {s : State} → Reach total max masters workers s → Accounted s
  Reach-Accounted here = Perm.refl []
  Reach-Accounted (next r st) = Step-Accounted st (Reach-Accounted r)

  -- No deadlock: with a buffer of at least one place, at least one master and at least one worker, as
  -- long as some thread has not ended, some thread is awake.
  pub no_deadlock :
      {s : State}
      → Reach total max masters workers s
      → 0 < max
      → 0 < masters
      → 0 < workers
      → s.masters_done + s.workers_done < masters + workers
      → 0 < s.masters_awake + s.workers_awake
  no_deadlock r hmax hm hw unfinished = let inv = Reach-Inv r in ground arith

  -- In every reachable state the buffer holds at most `max_buf_size` items, and the consumed numbers
  -- with those in the buffer are the numbers produced so far, each once.
  pub produced_once :
      {s : State}
      → Reach total max masters workers s
      → (length s.buffer ≤ max)
        × (s.item_to_produce ≤ total)
        × Perm (s.consumed ++ s.buffer) (countdown s.item_to_produce)
  produced_once r = let inv = Reach-Inv r in (inv.fits, inv.produced_in, Reach-Accounted r)

  -- When all workers have ended, and there was one, exactly the numbers below `total_items` were
  -- consumed, each once, and the buffer is empty.
  pub all_consumed :
      {s : State}
      → Reach total max masters workers s
      → 0 < workers
      → s.workers_done ≡ workers
      → (s.buffer ≡ []) × Perm s.consumed (countdown total)
  all_consumed {s} r hw done =
      let inv = Reach-Inv r in
      let read_all : s.item_read ≡ total = inv.workers_end (omega arith) in
      let made_all : s.item_to_produce ≡ total = omega (arith, inv.counted, inv.produced_in) in
      let empty : s.buffer ≡ [] = nil_of_length s.buffer (omega (arith, inv.counted)) in
      (
        empty,
        subst (λ l. Perm l (countdown total)) (append-nil s.consumed)
            (subst₂ (λ b k. Perm (s.consumed ++ b) (countdown k)) empty made_all
              (Reach-Accounted r)),
      )
