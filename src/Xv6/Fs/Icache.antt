-- ===== src/Xv6/Fs/Icache.antt =====
-- fs.c: the cache of inodes and the counts of the pointers into it. What runs between two points where
-- a process sleeps is one step; `pid` is the process that calls.
use os_codes.Common.{
  ℕ, zero, suc, ◌+◌, ◌-◌, ◌<◌, ◌≡◌, Bool, true, false, not, ◌&&◌, Option, none, some, ltb, ◌==◌,
  if◌then◌else◌,
}
use os_codes.Xv6.Fs.{Inode, Volume, put, iupdate}
use os_codes.Xv6.Fs.Truncate.{itrunc}

-- NINODE
abbrev pub ninode : ℕ
ninode = 50

-- struct inode: `node` has the number of the inode and what is copied from the disk, `lock` the process
-- that holds the lock.
pub record Cached : Type 0 where
  pub dev : ℕ
  pub ref : ℕ
  pub lock : Option ℕ
  pub valid : Bool
  pub node : Inode

-- The cache, and the disks by their devices.
pub record Icache : Type 0 where
  pub inode : ℕ → Cached
  pub disk : ℕ → Volume

-- ip->ref > 0 && ip->dev == dev && ip->inum == inum
abbrev pub is_cached : ℕ → ℕ → Cached → Bool
is_cached dev inum c = ltb 0 c.ref && ((c.dev == dev) && (c.node.inum == inum))

-- if(empty == 0 && ip->ref == 0) empty = ip;
abbrev pub remember : Option ℕ → ℕ → Cached → Option ℕ
remember none i c = if c.ref == 0 then some i else none
remember (some e) i c = some e

pub data Found : Type 0 where
  hit : ℕ → Found
  room : ℕ → Found
  full : Found

-- The loop of `iget`, with `k` rounds to go.
unfoldable pub scan : (ℕ → Cached) → ℕ → ℕ → ℕ → ℕ → Option ℕ → Found
scan inode dev inum zero i empty = elim empty [ none ↦ full | some e ↦ room e ]
scan inode dev inum (suc k) i empty =
    let rest = scan inode dev inum k (i + 1) (remember empty i (inode i)) in
    if is_cached dev inum (inode i) then hit i else rest

-- ip->ref++
abbrev pub count_up : Cached → Cached
count_up c = record c { ref = c.ref + 1 }

abbrev pub recycle : ℕ → ℕ → Cached → Cached
recycle dev inum c = record c {
  dev = dev;
  ref = 1;
  valid = false;
  node = record (c.node) { inum = inum };
}

-- The whole table is one constant number of rounds.
unfoldable pub lookup : (ℕ → Cached) → ℕ → ℕ → Found
lookup inode dev inum = scan inode dev inum ninode 0 none

-- `none` is a panic.
unfoldable pub iget : ℕ → ℕ → Icache → Option (ℕ × Icache)
iget dev inum s = elim (lookup s.inode dev inum) [
  | hit i ↦ some (i, record s { inode = put s.inode i (count_up (s.inode i)) })
  | room i ↦ some (i, record s { inode = put s.inode i (recycle dev inum (s.inode i)) })
  | full ↦ none
]

unfoldable pub idup : ℕ → Icache → Icache
idup i s = record s { inode = put s.inode i (count_up (s.inode i)) }

-- A call panics, sleeps on the lock of the inode, or is done.
pub data Outcome : Type 0 where
  panics : Outcome
  sleeps : Outcome
  done : Icache → Outcome

-- The inode with its copy of the disk.
abbrev pub load : ℕ → Volume → Cached → Cached
load pid v c = if c.valid then record c { lock = some pid } else record c {
  lock = some pid;
  valid = true;
  node = record (v.inodes c.node.inum) { inum = c.node.inum };
}

unfoldable pub ilock : ℕ → ℕ → Icache → Outcome
ilock pid i s =
    let c : Cached = s.inode i in
    let loaded : Cached = load pid (s.disk c.dev) c in
    if ltb c.ref 1 then panics else elim c.lock [
      | some p ↦ sleeps
      | none ↦
          if not c.valid && (loaded.node.type == 0)
          then panics
          else done (record s { inode = put s.inode i loaded })
    ]

-- holdingsleep(&ip->lock)
abbrev pub holding : ℕ → Cached → Bool
holding pid c = elim c.lock [ none ↦ false | some p ↦ p == pid ]

unfoldable pub iunlock : ℕ → ℕ → Icache → Outcome
iunlock pid i s =
    if not (holding pid (s.inode i))
    then panics
    else if ltb (s.inode i).ref 1
    then panics
    else done (record s { inode = put s.inode i (record (s.inode i) { lock = none }) })

-- itrunc(ip); ip->type = 0; iupdate(ip); ip->valid = 0; and the count after that
abbrev pub delete : ℕ → Icache → Outcome
delete i s =
    let c : Cached = s.inode i in
    elim (itrunc c.node (s.disk c.dev)) [
      | none ↦ panics
      | some (jp, w) ↦ done (record s {
        inode =
            put s.inode i
              (record c { ref = c.ref - 1; valid = false; node = record jp { type = 0 } });
        disk = put s.disk c.dev (iupdate (record jp { type = 0 }) w);
      })
    ]

-- `iput`, in one step from the lock on: the inode that it deletes has no other pointer and no link.
-- A count below 0 counts as a panic.
unfoldable pub iput : ℕ → Icache → Outcome
iput i s =
    let c : Cached = s.inode i in
    elim c.lock [
      | some p ↦ sleeps
      | none ↦
          if ltb c.ref 1
          then panics
          else if c.valid && ((c.node.nlink == 0) && (c.ref == 1))
          then delete i s
          else done (record s { inode = put s.inode i (record c { ref = c.ref - 1 }) })
    ]

-- The calls of the processes; `idup` is called with a pointer in use. The holder of the lock may change what it protects, and the disk.
pub data Step (s : Icache) : Icache → Type 0 where
  gets : (dev inum i : ℕ) (t : Icache) → iget dev inum s ≡ some (i, t) → Step s t
  dups : (i : ℕ) → 0 < (s.inode i).ref → Step s (idup i s)
  locks : (pid i : ℕ) (t : Icache) → ilock pid i s ≡ done t → Step s t
  unlocks : (pid i : ℕ) (t : Icache) → iunlock pid i s ≡ done t → Step s t
  puts : (i : ℕ) (t : Icache) → iput i s ≡ done t → Step s t
  works :
      (i : ℕ) (node : Inode) (v : Volume)
      → node.inum ≡ (s.inode i).node.inum
      → Step s (record s {
        inode = put s.inode i (record (s.inode i) { node = node });
        disk = put s.disk (s.inode i).dev v;
      })

-- From a cache without pointers into it.
pub data Reachable : Icache → Type 0 where
  start : (s : Icache) → ((i : ℕ) → (s.inode i).ref ≡ 0) → Reachable s
  step : {s t : Icache} → Reachable s → Step s t → Reachable t
