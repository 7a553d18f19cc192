-- ===== src/Xv6/Fs.antt =====
-- xv6-public/fs.c: the file system above the buffer cache and the log. A block is a function from the
-- places in it to bytes; `bread`, `log_write` and `brelse` show through as plain access to the blocks.
pub mod Words
pub mod Free
pub mod Ownership
pub mod Bmap
pub mod Parts
pub mod Content
pub mod Writing
pub mod Rounds
pub mod Reading
pub mod RoundTrip
pub mod Space
pub mod Truncate
pub mod Entries
pub mod Freeing
pub mod Path
pub mod Links
pub mod Linking
pub mod Dir
pub mod Lookup
pub mod Icache
pub mod Deletion
pub mod Iget
pub mod Unique
mod Tests
mod DirTests
use os_codes.Common.{
  ℕ, zero, suc, ◌+◌, ◌-◌, ◌*◌, ◌/◌, ◌%◌, Bool, true, false, not, ◌&&◌, Option, none, some, ◌>>=◌,
  ltb, leb, ◌==◌, if◌then◌else◌,
}

abbrev pub bsize : ℕ
bsize = 512

-- BPB: bits of the free map in a block
abbrev pub bpb : ℕ
bpb = 4096

abbrev pub ndirect : ℕ
ndirect = 12

abbrev pub nindirect : ℕ
nindirect = 128

-- MAXFILE
abbrev pub max_file : ℕ
max_file = 140

abbrev pub word : ℕ
word = 4294967296

-- An array with one entry changed.
abbrev pub put : {A : Type 0} → (ℕ → A) → ℕ → A → ℕ → A
put f k v n = if n == k then v else f n

-- struct inode, without the counts of the cache. `addrs` is read below NDIRECT + 1 only.
pub record Inode : Type 0 where
  pub inum : ℕ
  pub type : ℕ
  pub nlink : ℕ
  pub size : ℕ
  pub addrs : ℕ → ℕ

-- The disk: sb.size, the bits of the free map, the blocks, and the inodes on the disk.
pub record Volume : Type 0 where
  pub size : ℕ
  pub used : ℕ → Bool
  pub block : ℕ → ℕ → ℕ
  pub inodes : ℕ → Inode

-- `bzero`
abbrev pub bzero : ℕ → Volume → Volume
bzero b v = record v { block = put v.block b (λ i. 0) }

-- The inner loop of `balloc`, with `k` rounds to go.
unfoldable pub scan_bits : Volume → ℕ → ℕ → ℕ → Option ℕ
scan_bits v b zero bi = none
scan_bits v b (suc k) bi =
    let rest = scan_bits v b k (bi + 1) in
    if not (ltb (b + bi) v.size) then none else if v.used (b + bi) then rest else some (b + bi)

unfoldable pub scan_block : Volume → ℕ → Option ℕ
scan_block v b = scan_bits v b bpb 0

-- The outer loop, with `k` rounds to go.
unfoldable pub scan_map : Volume → ℕ → ℕ → Option ℕ
scan_map v zero b = none
scan_map v (suc k) b =
    let rest = scan_map v k (b + bpb) in
    if not (ltb b v.size) then none else elim (scan_block v b) [ none ↦ rest | some x ↦ some x ]

-- `none` is a panic.
unfoldable pub balloc : Volume → Option (ℕ × Volume)
balloc v = elim (scan_map v (v.size / bpb + 1) 0) [
  | none ↦ none
  | some b ↦ some (b, bzero b (record v { used = put v.used b true }))
]

unfoldable pub bfree : ℕ → Volume → Option Volume
bfree b v = if v.used b then some (record v { used = put v.used b false }) else none

unfoldable pub iupdate : Inode → Volume → Volume
iupdate ip v = record v { inodes = put v.inodes ip.inum ip }

-- a[k] and a[k] = n for a block as an array of uints, little-endian
abbrev pub get_word : (ℕ → ℕ) → ℕ → ℕ
get_word a k = a (4 * k) + 256 * a (4 * k + 1) + 65536 * a (4 * k + 2) + 16777216 * a (4 * k + 3)

abbrev pub set_word : (ℕ → ℕ) → ℕ → ℕ → ℕ → ℕ
set_word a k n =
    put
      (put (put (put a (4 * k) (n % 256)) (4 * k + 1) (n / 256 % 256)) (4 * k + 2)
        (n / 65536 % 256))
      (4 * k + 3) (n / 16777216 % 256)

-- if((addr = ip->addrs[bn]) == 0) ip->addrs[bn] = addr = balloc(ip->dev);
unfoldable pub slot : Inode → ℕ → Volume → Option (ℕ × Inode × Volume)
unfolding balloc
slot ip bn v =
    if ip.addrs bn == 0
    then (balloc v >>= λ (a, w). some (a, record ip { addrs = put ip.addrs bn a }, w))
    else some (ip.addrs bn, ip, v)

-- The same for the entry `k` of the indirect block `a`.
unfoldable pub entry : ℕ → ℕ → Inode → Volume → Option (ℕ × Inode × Volume)
unfolding balloc
entry a k ip v =
    if get_word (v.block a) k == 0
    then (balloc v >>= λ (b, w).
        some (b, ip, record w { block = put w.block a (set_word (w.block a) k b) }))
    else some (get_word (v.block a) k, ip, v)

unfoldable pub bmap : Inode → ℕ → Volume → Option (ℕ × Inode × Volume)
unfolding slot entry
bmap ip bn v =
    if ltb bn ndirect
    then slot ip bn v
    else if ltb (bn - ndirect) nindirect
    then (slot ip ndirect v >>= λ (a, jp, w). entry a (bn - ndirect) jp w)
    else none

-- `m` bytes of `from` at `i` copied to `to` at `j`
abbrev pub copy : (ℕ → ℕ) → ℕ → (ℕ → ℕ) → ℕ → ℕ → ℕ → ℕ
copy from i to j m x = if leb j x && ltb x (j + m) then from (i + (x - j)) else to x

abbrev pub min : ℕ → ℕ → ℕ
min a b = if ltb a b then a else b

-- min(n - tot, BSIZE - off%BSIZE), with `left` for n - tot
abbrev pub chunk : ℕ → ℕ → ℕ
chunk left off = min left (bsize - off % bsize)

-- The loop of `readi`, with `left` bytes to go, which are to stand at `dst` from `tot` on; `fuel` bounds
-- the rounds.
unfoldable pub read_from :
    ℕ → Inode → Volume → ℕ → ℕ → ℕ → (ℕ → ℕ) → Option (Inode × Volume × (ℕ → ℕ))
unfolding bmap
read_from fuel ip v off tot zero dst = some (ip, v, dst)
read_from zero ip v off tot (suc left) dst = none
read_from (suc fuel) ip v off tot (suc left) dst = bmap ip (off / bsize) v >>= λ (b, jp, w).
    let m = chunk (suc left) off in
    read_from fuel jp w (off + m) (tot + m) (suc left - m)
      (copy (w.block b) (off % bsize) dst tot m)

-- What `readi` returns: -1, or the count with the bytes.
pub data ReadResult : Type 0 where
  refused : ReadResult
  returned : ℕ → Inode → Volume → (ℕ → ℕ) → ReadResult

-- `readi` of an inode that is no device.
unfoldable pub readi : Inode → Volume → (ℕ → ℕ) → ℕ → ℕ → Option ReadResult
unfolding read_from
readi ip v dst off n =
    if ltb ip.size off
    then some refused
    else if ltb ((off + n) % word) off
    then some refused
    else let count = if ltb ip.size ((off + n) % word) then ip.size - off else n in
      read_from count ip v off 0 count dst >>= λ (jp, w, d). some (returned count jp w d)

-- The loop of `writei`; the bytes still to be written stand at `src` from `tot` on. It gives the last `off`.
unfoldable pub write_from : ℕ → Inode → Volume → ℕ → ℕ → ℕ → (ℕ → ℕ) → Option (ℕ × Inode × Volume)
unfolding bmap
write_from fuel ip v off tot zero src = some (off, ip, v)
write_from zero ip v off tot (suc left) src = none
write_from (suc fuel) ip v off tot (suc left) src = bmap ip (off / bsize) v >>= λ (b, jp, w).
    let m = chunk (suc left) off in
    write_from fuel jp
      (record w { block = put w.block b (copy src tot (w.block b) (off % bsize) m) }) (off + m)
      (tot + m) (suc left - m) src

pub data WriteResult : Type 0 where
  refused : WriteResult
  returned : ℕ → Inode → Volume → WriteResult

-- if(n > 0 && off > ip->size){ ip->size = off; iupdate(ip); }
unfoldable pub grow : ℕ → ℕ → Inode → Volume → WriteResult
unfolding iupdate
grow n off ip v =
    if ltb 0 n && ltb ip.size off
    then returned n (record ip { size = off }) (iupdate (record ip { size = off }) v)
    else returned n ip v

-- `writei` to an inode that is no device.
unfoldable pub writei : Inode → Volume → (ℕ → ℕ) → ℕ → ℕ → Option WriteResult
unfolding write_from grow
writei ip v src off n =
    if ltb ip.size off
    then some refused
    else if ltb ((off + n) % word) off
    then some refused
    else if ltb (max_file * bsize) ((off + n) % word)
    then some refused
    else write_from n ip v off 0 n src >>= λ (end_off, jp, w). some (grow n end_off jp w)
