-- ===== src/Sync/ReaderPref/Safety.antt =====
-- Who can hold the lock together, and that no sleeper is forgotten.
use os_codes.Common.{◌+◌, ◌≤◌, ◌<◌, ◌≡◌, ◌⊎◌, true, arith, if◌then◌else◌}
use os_codes.Sync.ReaderPref.{
  Lock, initialize, reader_lock, reader_unlock, writer_lock, writer_unlock, Step, reader_enters,
  reader_again, reader_leaves, leaver_again, writer_enters, writer_again, writer_leaves,
  reader_wakes, leaver_wakes, writer_wakes, Reach, here, next,
}

record Inv (s : Lock) : Type 0 where
  readers : s.num_readers ≡ s.reading
  writers : s.writing ≡ (if s.writer_present then 1 else 0)
  exclusive : s.writer_present ≡ true → s.reading ≡ 0
  no_leavers : s.leavers_asleep + s.leavers_woken ≡ 0
  readers_reason : 0 < s.readers_asleep → s.writer_present ≡ true
  writers_reason :
      0 < s.writers_asleep → (0 < s.reading) ⊎ (s.writer_present ≡ true) ⊎ (0 < s.writers_woken)

Step-Inv : {s t : Lock} → Step s t → Inv s → Inv t
unfolding reader_lock reader_unlock writer_lock writer_unlock
Step-Inv reader_enters inv = ground arith
Step-Inv (reader_again h) inv = ground arith
Step-Inv (reader_leaves h) inv = ground arith
Step-Inv (leaver_again h) inv = ground arith
Step-Inv writer_enters inv = ground arith
Step-Inv (writer_again h) inv = ground arith
Step-Inv (writer_leaves h) inv = ground arith
Step-Inv (reader_wakes h) inv = ground arith
Step-Inv (leaver_wakes h) inv = ground arith
Step-Inv (writer_wakes h) inv = ground arith

Reach-Inv : {s : Lock} → Reach s → Inv s
unfolding initialize
Reach-Inv here = ground arith
Reach-Inv (next r st) = Step-Inv st (Reach-Inv r)

-- In every reachable state at most one thread holds the lock as a writer, and then none as a reader;
-- and no reader waits inside `ReaderUnlock`.
pub reader_pref_exclusion :
    {s : Lock}
    → Reach s
    → (s.writing ≤ 1) × (0 < s.writing → s.reading ≡ 0) × (s.leavers_asleep + s.leavers_woken ≡ 0)
reader_pref_exclusion {s} r =
    let inv = Reach-Inv r in (ground arith, (λ h. ground arith), inv.no_leavers)

-- In every reachable state in which no thread holds the lock but some thread sleeps, the sleepers are
-- writers and a writer is awake to take the lock: no wake-up is lost.
pub reader_pref_no_lost_wakeup :
    {s : Lock}
    → Reach s
    → s.reading ≡ 0
    → s.writing ≡ 0
    → 0 < s.readers_asleep + s.writers_asleep
    → (s.readers_asleep ≡ 0) × (0 < s.writers_woken)
reader_pref_no_lost_wakeup {s} r nr nw asleep = let inv = Reach-Inv r in ground arith
