-- ===== src/Sync.antt =====
-- pthreads-sync-code. What a thread does under a mutex is one step; `pthread_cond_wait` makes it
-- asleep, `pthread_cond_signal` makes one sleeper awake, and `pthread_cond_broadcast` all of them.
pub mod MasterWorker
pub mod Zemaphore
pub mod ReaderPref
pub mod WriterPref
