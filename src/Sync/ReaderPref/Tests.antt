-- ===== src/Sync/ReaderPref/Tests.antt =====
-- Runs of the lock that prefers readers.
use os_codes.Common.{◌+◌, ◌≤◌, ◌<◌, ◌≡◌, arith}
use os_codes.Sync.ReaderPref.{
  Lock, initialize, reader_lock, reader_unlock, writer_lock, reader_enters, reader_leaves,
  writer_enters, Reach, here, next,
}
use os_codes.Sync.ReaderPref.Safety.{reader_pref_exclusion}

-- A reader holds the lock and a writer sleeps.
abbrev contended : Lock
contended = writer_lock (reader_lock initialize)

Reach-contended : Reach contended
Reach-contended = next (next here reader_enters) writer_enters

reader_pref_exclusion_example :
    (contended.writing ≤ 1)
    × (0 < contended.writing → contended.reading ≡ 0)
    × (contended.leavers_asleep + contended.leavers_woken ≡ 0)
reader_pref_exclusion_example = reader_pref_exclusion Reach-contended

-- The reader has left: the writer is awake, but another one came and sleeps again.
abbrev released : Lock
released = reader_unlock (record (writer_lock contended) { reading = 0 })

Reach-released : Reach released
unfolding initialize reader_lock writer_lock
Reach-released = next (next Reach-contended writer_enters) (reader_leaves (omega arith))
