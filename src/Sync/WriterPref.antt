-- ===== src/Sync/WriterPref.antt =====
-- pthreads-sync-code/rwlock/rwlock-writer-pref.cpp: readers wait as long as a writer wants the lock.
pub mod Safety
mod Tests
use os_codes.Common.{ℕ, ◌+◌, ◌-◌, ◌<◌, Bool, true, false, ◌||◌, if◌then◌else◌, ltb, ◌==◌}

-- `struct read_write_lock`, with the threads around it. `reading` and `writing` threads hold the lock;
-- the others stand in the `while` of `ReaderLock` or `WriterLock`, asleep or woken.
pub record Lock : Type 0 where
  pub num_readers : ℕ
  pub num_writers_waiting : ℕ
  pub writer_present : Bool
  pub reading : ℕ
  pub writing : ℕ
  pub readers_asleep : ℕ
  pub readers_woken : ℕ
  pub writers_asleep : ℕ
  pub writers_woken : ℕ

-- `InitalizeReadWriteLock`
pub initialize : Lock
initialize = record {
  num_readers = 0;
  num_writers_waiting = 0;
  writer_present = false;
  reading = 0;
  writing = 0;
  readers_asleep = 0;
  readers_woken = 0;
  writers_asleep = 0;
  writers_woken = 0;
}

-- pthread_cond_signal(&(rw->cond_writer))
abbrev pub signal_writer : Lock → Lock
signal_writer s =
    if ltb 0 s.writers_asleep
    then record s { writers_asleep = s.writers_asleep - 1; writers_woken = s.writers_woken + 1 }
    else s

-- pthread_cond_broadcast(&(rw->cond_reader))
abbrev pub broadcast_readers : Lock → Lock
broadcast_readers s = record s {
  readers_woken = s.readers_woken + s.readers_asleep;
  readers_asleep = 0;
}

-- The test of the `while` in `ReaderLock`, and what follows it.
pub reader_lock : Lock → Lock
reader_lock s =
    if s.writer_present || ltb 0 s.num_writers_waiting
    then record s { readers_asleep = s.readers_asleep + 1 }
    else record s { num_readers = s.num_readers + 1; reading = s.reading + 1 }

-- `ReaderUnlock`
pub reader_unlock : Lock → Lock
reader_unlock s =
    let left : Lock = record s { num_readers = s.num_readers - 1 } in
    if left.num_readers == 0 then signal_writer left else left

-- The test of the `while` in `WriterLock`, and what follows it.
pub writer_try : Lock → Lock
writer_try s =
    if ltb 0 s.num_readers || s.writer_present
    then record s { writers_asleep = s.writers_asleep + 1 }
    else record s {
      num_writers_waiting = s.num_writers_waiting - 1;
      writer_present = true;
      writing = s.writing + 1;
    }

-- `WriterLock`
pub writer_lock : Lock → Lock
unfolding writer_try
writer_lock s = writer_try (record s { num_writers_waiting = s.num_writers_waiting + 1 })

-- `WriterUnlock`
pub writer_unlock : Lock → Lock
writer_unlock s =
    let free : Lock = record s { writer_present = false } in
    if s.num_writers_waiting == 0 then broadcast_readers free else signal_writer free

-- A thread calls a function or, woken, makes the test again. A sleeper may wake up with no signal.
pub data Step (s : Lock) : Lock → Type 0 where
  reader_enters : Step s (reader_lock s)
  reader_again :
      0 < s.readers_woken → Step s (reader_lock (record s { readers_woken = s.readers_woken - 1 }))
  reader_leaves : 0 < s.reading → Step s (reader_unlock (record s { reading = s.reading - 1 }))
  writer_enters : Step s (writer_lock s)
  writer_again :
      0 < s.writers_woken → Step s (writer_try (record s { writers_woken = s.writers_woken - 1 }))
  writer_leaves : 0 < s.writing → Step s (writer_unlock (record s { writing = s.writing - 1 }))
  reader_wakes :
      0 < s.readers_asleep
      → Step s
          (record s { readers_asleep = s.readers_asleep - 1; readers_woken = s.readers_woken + 1 })
  writer_wakes :
      0 < s.writers_asleep
      → Step s
          (record s { writers_asleep = s.writers_asleep - 1; writers_woken = s.writers_woken + 1 })

pub data Reach : Lock → Type 0 where
  here : Reach initialize
  next : {s t : Lock} → Reach s → Step s t → Reach t
