-- ===== src/Xv6/Bio.antt =====
-- xv6-public/bio.c over memide.c: the cache of disk blocks. The contents of a block are one number.
pub mod Slots
pub mod Places
pub mod Coherence
pub mod Writes
pub mod Branches
pub mod Calls
pub mod Latest
pub mod Read
mod Tests
use os_codes.Common.{
  ℕ, zero, suc, ◌+◌, ◌-◌, ◌%◌, ◌^◌, Bool, true, false, not, ◌&&◌, ◌||◌, Option, none, some, ◌>>=◌,
  List, [], ◌∷◌, ltb, ◌==◌, if◌then◌else◌,
}

-- struct buf; `slot` is its place in `bcache.buf`.
pub record Buf : Type 0 where
  pub slot : ℕ
  pub dev : ℕ
  pub blockno : ℕ
  pub valid : Bool
  pub dirty : Bool
  pub refcnt : ℕ
  pub contents : ℕ

-- `bufs` is the list from `head.next` on; `disk` and `disk_size` are those of memide.c.
pub record Cache : Type 0 where
  pub bufs : List Buf
  pub disk : ℕ → ℕ
  pub disk_size : ℕ

abbrev pub word : ℕ
word = 2 ^ 32

-- `binit`, with the buffers from `i` on still to come; each goes to the front.
unfoldable pub link_from : ℕ → ℕ → List Buf → List Buf
link_from zero i bs = bs
link_from (suc k) i bs = link_from k (i + 1) (
    record {
      slot = i;
      dev = 0;
      blockno = 0;
      valid = false;
      dirty = false;
      refcnt = 0;
      contents = 0;
    }
    ∷ bs)

-- NBUF
abbrev pub nbuf : ℕ
nbuf = 30

unfoldable pub binit : Cache → Cache
unfolding link_from
binit c = record c { bufs = link_from nbuf 0 [] }

unfoldable pub find_slot : ℕ → List Buf → Option Buf
find_slot i [] = none
find_slot i (b ∷ bs) = let rest = find_slot i bs in if b.slot == i then some b else rest

-- `*b = new` for the buffer in slot `i`
unfoldable pub store : ℕ → Buf → List Buf → List Buf
store i new [] = []
store i new (b ∷ bs) = (if b.slot == i then new else b) ∷ store i new bs

-- Is the block already cached?
unfoldable pub cached : ℕ → ℕ → List Buf → Option Buf
cached dev blockno [] = none
cached dev blockno (b ∷ bs) =
    let rest = cached dev blockno bs in
    if (b.dev == dev) && (b.blockno == blockno) then some b else rest

-- The loop from `head.prev` on: the last buffer that is unused.
unfoldable pub unused : List Buf → Option Buf
unused [] = none
unused (b ∷ bs) =
    let this = if (b.refcnt == 0) && not b.dirty then some b else none in
    elim (unused bs) [ none ↦ this | some u ↦ some u ]

abbrev pub hold : Buf → Buf
hold b = record b { refcnt = (b.refcnt + 1) % word }

abbrev pub recycle : ℕ → ℕ → Buf → Buf
recycle dev blockno b = record b {
  dev = dev;
  blockno = blockno;
  valid = false;
  dirty = false;
  refcnt = 1;
}

-- `bget` up to `acquiresleep`: the slot of the buffer. `none` is a panic.
unfoldable pub bget : ℕ → ℕ → Cache → Option (ℕ × Cache)
unfolding cached unused store
bget dev blockno c = elim (cached dev blockno c.bufs) [
  | some b ↦ some (b.slot, record c { bufs = store b.slot (hold b) c.bufs })
  | none ↦ elim (unused c.bufs) [
    | none ↦ none
    | some b ↦ some (b.slot, record c { bufs = store b.slot (recycle dev blockno b) c.bufs })
  ]
]

-- `iderw` of memide.c under the lock of the buffer: the buffer and the disk after it.
unfoldable pub iderw : Buf → Cache → Option (Buf × (ℕ → ℕ))
iderw b c =
    if b.valid && not b.dirty
    then none
    else if not (b.dev == 1)
    then none
    else if not (ltb b.blockno c.disk_size)
    then none
    else if b.dirty
    then some (
      record b { dirty = false; valid = true },
      λ n. if n == b.blockno then b.contents else c.disk n,
    )
    else some (record b { contents = c.disk b.blockno; valid = true }, c.disk)

unfoldable pub finish : ℕ → Cache → Option (Buf × (ℕ → ℕ)) → Option Cache
finish i c none = none
finish i c (some (b, disk)) = some (record c { bufs = store i b c.bufs; disk = disk })

-- The rest of `bread`, with the lock of the buffer in slot `i`.
unfoldable pub read_in : ℕ → Cache → Option Cache
unfolding find_slot iderw finish
read_in i c = elim (find_slot i c.bufs) [
  | none ↦ none
  | some b ↦ let read = finish i c (iderw b c) in if b.valid then some c else read
]

-- `bread`, when no other process has the lock of the buffer.
unfoldable pub bread : ℕ → ℕ → Cache → Option (ℕ × Cache)
unfolding bget read_in
bread dev blockno c = do (i, held) ← bget dev blockno c; after ← read_in i held; some (i, after)

-- `bwrite`; `holding` is `holdingsleep(&b->lock)`.
unfoldable pub bwrite : Bool → ℕ → Cache → Option Cache
unfolding find_slot iderw finish
bwrite false i c = none
bwrite true i c = elim (find_slot i c.bufs) [
  | none ↦ none
  | some b ↦ finish i c (iderw (record b { dirty = true }) c)
]

-- b->next->prev = b->prev; b->prev->next = b->next;
unfoldable pub unlink : ℕ → List Buf → List Buf
unlink i [] = []
unlink i (b ∷ bs) = let rest = unlink i bs in if b.slot == i then bs else b ∷ rest

abbrev pub drop_ref : Buf → Buf
drop_ref b = record b { refcnt = (b.refcnt + word - 1) % word }

-- `brelse` after `releasesleep`
unfoldable pub brelse : Bool → ℕ → Cache → Option Cache
unfolding find_slot store unlink
brelse false i c = none
brelse true i c = elim (find_slot i c.bufs) [
  | none ↦ none
  | some b ↦
      if (drop_ref b).refcnt == 0
      then some (record c { bufs = drop_ref b ∷ unlink i c.bufs })
      else some (record c { bufs = store i (drop_ref b) c.bufs })
]

-- The holder of a buffer writes to its data and logs it: `log_write` sets B_DIRTY.
unfoldable pub modify : ℕ → ℕ → Cache → Option Cache
unfolding find_slot store
modify i v c = elim (find_slot i c.bufs) [
  | none ↦ none
  | some b ↦ some (record c { bufs = store i (record b { contents = v; dirty = true }) c.bufs })
]
