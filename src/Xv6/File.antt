-- ===== src/Xv6/File.antt =====
-- xv6-public/file.c: the table of open files, over pipes and the cache of inodes. Counts are natural
-- numbers; the log shows through, as in Fs.
pub mod Write
pub mod Rounds
pub mod Writing
pub mod Table
mod Tests
use os_codes.Common.{
  ℕ, zero, suc, ◌+◌, ◌-◌, ◌%◌, Bool, true, false, not, Option, none, some, List, ltb, ◌==◌,
  if◌then◌else◌,
}
use os_codes.Xv6.Pipe
use os_codes.Xv6.Pipe.{Pipe, pipeclose, piperead}
use os_codes.Xv6.Fs.{Inode, Volume, put, word, readi}
use os_codes.Xv6.Fs
use os_codes.Xv6.Fs.Icache.{Cached, Icache, ilock, iunlock, iput}
use os_codes.Xv6.Fs.Icache

-- NFILE
abbrev pub nfile : ℕ
nfile = 100

pub data FileType : Type 0 where
  fd_none : FileType
  fd_pipe : FileType
  fd_inode : FileType

-- struct file; `pipe` and `ip` are places in the tables of pipes and inodes
pub record File : Type 0 where
  pub type : FileType
  pub ref : ℕ
  pub readable : Bool
  pub writable : Bool
  pub pipe : ℕ
  pub ip : ℕ
  pub off : ℕ

pub record System : Type 0 where
  pub file : ℕ → File
  pub pipe : ℕ → Pipe
  pub cache : Icache

-- The loop of `filealloc`, with `k` rounds to go.
unfoldable pub find_file : (ℕ → File) → ℕ → ℕ → Option ℕ
find_file file zero f = none
find_file file (suc k) f =
    let rest = find_file file k (f + 1) in if (file f).ref == 0 then some f else rest

unfoldable pub find_unused : (ℕ → File) → Option ℕ
find_unused file = find_file file nfile 0

-- `none` is the null pointer.
unfoldable pub filealloc : System → Option (ℕ × System)
filealloc s = elim (find_unused s.file) [
  | none ↦ none
  | some f ↦ some (f, record s { file = put s.file f (record (s.file f) { ref = 1 }) })
]

-- `none` is a panic.
unfoldable pub filedup : ℕ → System → Option System
filedup f s =
    if ltb (s.file f).ref 1
    then none
    else some (record s { file = put s.file f (record (s.file f) { ref = (s.file f).ref + 1 }) })

-- What a call comes to: a panic, sleep on a lock or an empty pipe, sleep on a full pipe with the bytes
-- that are left, -1, or its value.
pub data Outcome : Type 0 where
  panics : Outcome
  sleeps : System → Outcome
  waits : List ℕ → System → Outcome
  fails : System → Outcome
  returns : ℕ → System → Outcome

abbrev pub with_cache : System → Icache.Outcome → Outcome
with_cache s Icache.panics = panics
with_cache s Icache.sleeps = sleeps s
with_cache s (Icache.done c) = returns 0 (record s { cache = c })

-- The end of `fileclose`, for the file as it was.
abbrev pub close_last : File → System → Outcome
close_last ff s = elim ff.type [
  | fd_none ↦ returns 0 s
  | fd_pipe ↦
      returns 0 (record s { pipe = put s.pipe ff.pipe (pipeclose ff.writable (s.pipe ff.pipe)).1 })
  | fd_inode ↦ with_cache s (iput ff.ip s.cache)
]

unfoldable pub fileclose : ℕ → System → Outcome
fileclose f s =
    let ff : File = s.file f in
    if ltb ff.ref 1
    then panics
    else if ltb 0 (ff.ref - 1)
    then returns 0 (record s { file = put s.file f (record ff { ref = ff.ref - 1 }) })
    else close_last ff (record s { file = put s.file f (record ff { ref = 0; type = fd_none }) })

-- The open file `f` with its offset moved by `r`.
abbrev pub advance : ℕ → ℕ → System → System
advance f r s = record s {
  file = put s.file f (record (s.file f) { off = ((s.file f).off + r) % word });
}

-- The inode `i` and its disk after work on them.
abbrev pub store : ℕ → Inode → Volume → Icache → Icache
store i node v c = record c {
  inode = put c.inode i (record (c.inode i) { node = node });
  disk = put c.disk (c.inode i).dev v;
}

-- iunlock(f->ip), and then `k`
abbrev pub unlock_then : ℕ → ℕ → System → (System → Outcome) → Outcome
unlock_then pid i s k = elim (iunlock pid i s.cache) [
  | Icache.panics ↦ panics
  | Icache.sleeps ↦ sleeps s
  | Icache.done c ↦ k (record s { cache = c })
]

-- What a read comes to, with the bytes it leaves in memory.
pub data ReadOutcome : Type 0 where
  stopped : Outcome → ReadOutcome
  got : ℕ → (ℕ → ℕ) → System → ReadOutcome
  got_bytes : List ℕ → System → ReadOutcome

-- fileread of an inode, from the lock on
abbrev pub read_locked : ℕ → ℕ → (ℕ → ℕ) → ℕ → System → ReadOutcome
read_locked pid f dst n s =
    let i : ℕ = (s.file f).ip in
    let c : Cached = s.cache.inode i in
    elim (readi c.node (s.cache.disk c.dev) dst (s.file f).off n) [
      | none ↦ stopped panics
      | some Fs.ReadResult.refused ↦ stopped (unlock_then pid i s fails)
      | some (Fs.ReadResult.returned r jp w d) ↦
          let t : System = advance f r (record s { cache = store i jp w s.cache }) in
          elim (unlock_then pid i t (returns r)) [
            | panics ↦ stopped panics
            | sleeps u ↦ stopped (sleeps u)
            | waits bs u ↦ stopped (waits bs u)
            | fails u ↦ stopped (fails u)
            | returns r u ↦ got r d u
          ]
    ]

unfoldable pub fileread : Bool → ℕ → ℕ → (ℕ → ℕ) → ℕ → System → ReadOutcome
fileread killed pid f dst n s =
    let ff : File = s.file f in
    if not ff.readable then stopped (fails s) else elim ff.type [
      | fd_none ↦ stopped panics
      | fd_pipe ↦ elim (piperead killed n (s.pipe ff.pipe)) [
        | Pipe.got bs p ↦ got_bytes bs (record s { pipe = put s.pipe ff.pipe p })
        | Pipe.read_fails ↦ stopped (fails s)
        | Pipe.read_sleeps ↦ stopped (sleeps s)
      ]
      | fd_inode ↦ elim (ilock pid ff.ip s.cache) [
        | Icache.panics ↦ stopped panics
        | Icache.sleeps ↦ stopped (sleeps s)
        | Icache.done c ↦ read_locked pid f dst n (record s { cache = c })
      ]
    ]
