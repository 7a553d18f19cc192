-- ===== src/Sync/MasterWorker.antt =====
-- pthreads-sync-code/master-worker/master-worker.c: masters put numbers into a bounded buffer, and
-- workers take them out. The threads of a kind are alike, so the state counts them.
pub mod Invariant
mod Tests
use os_codes.Common.{
  ℕ, zero, suc, ◌+◌, ◌-◌, ◌<◌, Bool, true, false, List, [], ◌∷◌, ◌++◌, leb, ◌==◌, if◌then◌else◌,
  length,
}

-- The globals, the numbers that `print_consumed` showed, and how many masters and workers run (or
-- wait for the mutex), sleep on their condition variable, or have left. The first entry of `buffer`
-- is `buffer[curr_buf_size - 1]`, the next one to be consumed.
pub record State : Type 0 where
  pub item_to_produce : ℕ
  pub item_read : ℕ
  pub buffer : List ℕ
  pub consumed : List ℕ
  pub masters_awake : ℕ
  pub masters_asleep : ℕ
  pub masters_done : ℕ
  pub workers_awake : ℕ
  pub workers_asleep : ℕ
  pub workers_done : ℕ

-- The part of `worker_thread_create` that takes an item.
pub consume : List ℕ → State → State
consume [] s = record s {
  workers_awake = s.workers_awake - 1;
  workers_asleep = s.workers_asleep + 1;
}
consume (x ∷ rest) s = record s {
  buffer = rest;
  consumed = x ∷ s.consumed;
  item_read = s.item_read + 1;
  masters_awake = s.masters_awake + s.masters_asleep;
  masters_asleep = 0;
}

module _ (total_items max_buf_size : ℕ) where
  -- `generate_requests_loop` from taking the mutex, or from waking up, to leaving it: the thread
  -- breaks off and ends, or waits, or produces one item.
  pub master_turn : State → State
  master_turn s =
      if leb total_items s.item_to_produce
      then record s { masters_awake = s.masters_awake - 1; masters_done = s.masters_done + 1 }
      else if length s.buffer == max_buf_size
      then record s { masters_awake = s.masters_awake - 1; masters_asleep = s.masters_asleep + 1 }
      else record s {
        buffer = s.item_to_produce ∷ s.buffer;
        item_to_produce = s.item_to_produce + 1;
        workers_awake = s.workers_awake + s.workers_asleep;
        workers_asleep = 0;
      }

  -- `worker_thread_create` from taking the mutex, or from waking up, to leaving it.
  pub worker_turn : State → State
  unfolding consume
  worker_turn s =
      if leb total_items s.item_read
      then record s { workers_awake = s.workers_awake - 1; workers_done = s.workers_done + 1 }
      else consume s.buffer s

  -- A step of some thread. A sleeper may also wake up with no signal.
  pub data Step (s : State) : State → Type 0 where
    master : 0 < s.masters_awake → Step s (master_turn s)
    worker : 0 < s.workers_awake → Step s (worker_turn s)
    master_wakes :
        0 < s.masters_asleep
        → Step s (record s {
          masters_asleep = s.masters_asleep - 1;
          masters_awake = s.masters_awake + 1;
        })
    worker_wakes :
        0 < s.workers_asleep
        → Step s (record s {
          workers_asleep = s.workers_asleep - 1;
          workers_awake = s.workers_awake + 1;
        })

  -- `main` when it has made its threads.
  abbrev pub start : ℕ → ℕ → State
  start num_masters num_workers = record {
    item_to_produce = 0;
    item_read = 0;
    buffer = [];
    consumed = [];
    masters_awake = num_masters;
    masters_asleep = 0;
    masters_done = 0;
    workers_awake = num_workers;
    workers_asleep = 0;
    workers_done = 0;
  }

  pub data Reach (num_masters num_workers : ℕ) : State → Type 0 where
    here : Reach num_masters num_workers (start num_masters num_workers)
    next :
        {s t : State} → Reach num_masters num_workers s → Step s t → Reach num_masters num_workers t
