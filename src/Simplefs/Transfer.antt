-- ===== src/Simplefs/Transfer.antt =====
-- simplefs-code/simplefs-ops.c: `simplefs_read` and `simplefs_write`.
pub mod Size
use os_codes.Common.{
  ℕ, zero, suc, ◌+◌, ◌-◌, ◌*◌, ◌/◌, ◌%◌, Bool, true, false, ◌||◌, Option, none, some, List, [], ◌∷◌,
  ◌++◌, ltb, ◌==◌, ◌>>=◌, if◌then◌else◌, get_elem?, set, take, drop, replicate, length, ℤ, pos,
  negsuc, ◌+ℤ◌, ltb_ℤ,
}
use os_codes.Simplefs.Disk.{
  Fs, Inode, block_size, max_file_size, inode_free, minus_one, read_inode, write_inode,
  alloc_data_block, free_data_block, read_data_block, write_data_block,
}
use os_codes.Simplefs.Ops.{is_minus_one, handle_at}

-- `min` of simplefs-ops.c
unfoldable pub min : ℕ → ℕ → ℕ
min a b = if ltb a b then a else b

-- The bytes that `strncpy(to, from, n)` writes: from the first NUL on they are 0. `none` is a read
-- past the memory that holds `from`.
unfoldable pub strncpy : List ℕ → ℕ → Option (List ℕ)
strncpy from zero = some []
strncpy [] (suc n) = none
strncpy (zero ∷ from) (suc n) = some (replicate (suc n) 0)
strncpy (suc c ∷ from) (suc n) = do copied ← strncpy from n; some (suc c ∷ copied)

-- The memory `xs` with `ys` written at `i`.
abbrev pub overwrite : List ℕ → ℕ → List ℕ → List ℕ
overwrite xs i ys = take i xs ++ (ys ++ drop (i + length ys) xs)

-- The loop of `simplefs_read` over `direct_blocks`, at block `i`.
unfoldable pub load_blocks : List ℤ → ℕ → List ℕ → Fs → Option (List ℕ)
load_blocks [] i temp s = some temp
load_blocks (b ∷ bs) i temp s = do
  temp' ←
      if is_minus_one b
      then some temp
      else (do block ← read_data_block b s; some (overwrite temp (i * block_size) block))
  load_blocks bs (i + 1) temp' s

-- `strncpy(buf, temp + new_offset, nbytes)`
unfoldable pub copy_out : List ℕ → ℤ → ℕ → Option (List ℕ)
copy_out temp (pos o) n = strncpy (drop o temp) n
copy_out temp (negsuc o) n = if n == 0 then some [] else none

unfoldable pub read_bytes : ℤ → ℤ → Inode → List ℕ → Fs → Option (ℤ × List ℕ)
read_bytes offset (negsuc n) inode temp s = some (minus_one, [])
read_bytes offset (pos n) inode temp s =
    if ltb_ℤ inode.file_size (offset +ℤ pos n) then some (minus_one, []) else (do
      temp' ← load_blocks inode.direct_blocks 0 temp s
      copied ← copy_out temp' offset n
      some (pos 0, copied))

-- `simplefs_read`: its result and the bytes written to `buf`. `temp` is what the array of that name
-- holds before it is set.
unfoldable pub read : List ℕ → ℤ → ℤ → Fs → Option (ℤ × List ℕ)
unfolding read_bytes
read temp file_handle nbytes s = do
  h ← handle_at file_handle s
  inode ← read_inode h.inode_number s
  read_bytes h.offset nbytes inode temp s

-- The number of blocks that end behind byte `n`: `n / BLOCKSIZE`, plus 1 if that is not exact. It is
-- `num_curr_block` at the offset, and `num_block_req` at the end of the write.
unfoldable pub blocks_up_to : ℕ → ℕ
blocks_up_to n = if n % block_size == 0 then n / block_size else n / block_size + 1

pub data AllocResult : Type 0 where
  enough : List ℤ → Fs → AllocResult
  full : Fs → AllocResult

-- The loop over `j` when the disk is full. It looks at the block `i`, whatever `j` is.
unfoldable pub roll_back : ℕ → ℕ → List ℤ → Fs → Option Fs
roll_back zero i blocks s = some s
roll_back (suc left) i blocks s = do
  b ← get_elem? blocks i
  elim (is_minus_one b) [
    | true ↦ some s
    | false ↦ do s' ← free_data_block b s; roll_back left i blocks s'
  ]

-- What `simplefs_allocDataBlock` gave for block `i`; `none` is the case of -1.
abbrev pub new_block : ℤ → Option ℤ
new_block (pos b) = some (pos b)
new_block (negsuc b) = none

-- The loop that gives blocks to the file, at block `i`, with `left` rounds to go of `total`.
unfoldable pub alloc_blocks : ℕ → ℕ → ℕ → List ℤ → Fs → Option AllocResult
alloc_blocks total zero i blocks s = some (enough blocks s)
alloc_blocks total (suc left) i blocks s = do
  b ← get_elem? blocks i
  let (num, s') = alloc_data_block s
  elim (is_minus_one b) [
    | false ↦ alloc_blocks total left (i + 1) blocks s
    | true ↦ elim (new_block num) [
      | none ↦ do s'' ← roll_back total i blocks s'; some (full s'')
      | some fresh ↦ alloc_blocks total left (i + 1) (set blocks i fresh) s'
    ]
  ]

-- The partial first block: `bytes_to_add` and the disk after it.
unfoldable pub write_head : ℕ → ℕ → List ℕ → ℕ → List ℤ → Fs → Option (ℕ × Fs)
write_head off index buf n blocks s = do
  b ← get_elem? blocks index
  let k = min (block_size - off) n
  temp ← read_data_block b s
  copied ← strncpy buf k
  s' ← write_data_block b (take off temp ++ (copied ++ replicate (block_size - (off + k)) 0)) s
  some (k, s')

-- The body of the `while`: `k` bytes of `from` to block `index`, and zeros behind them.
unfoldable pub write_round : ℕ → List ℕ → ℕ → List ℤ → Fs → Option Fs
write_round index from k blocks s = do
  b ← get_elem? blocks index
  copied ← strncpy from k
  write_data_block b (copied ++ replicate (block_size - k) 0) s

-- while(mem_copied < nbytes): `m` is `mem_copied`, and each round adds at least 1 to it.
unfoldable pub write_blocks : ℕ → ℕ → ℕ → List ℕ → ℕ → List ℤ → Fs → Option (ℕ × Fs)
write_blocks zero index m buf n blocks s = none
write_blocks (suc fuel) index m buf n blocks s = elim (ltb m n) [
  | false ↦ some (m, s)
  | true ↦ do
    let k = min block_size (n - m)
    s' ← write_round index (drop m buf) k blocks s
    write_blocks fuel (index + 1) (m + k) buf n blocks s'
]

-- From the copying of the first block on. `off` is `offset_at_curr_block`.
unfoldable pub write_data : ℕ → ℕ → List ℕ → ℕ → List ℤ → Fs → Option (ℕ × Fs)
write_data off num_curr buf n blocks s =
    if off == 0 then write_blocks (n + 1) num_curr 0 buf n blocks s else (do
      (m, s') ← write_head off (num_curr - 1) buf n blocks s
      write_blocks (n + 1) num_curr m buf n blocks s')

unfoldable pub write_file : ℕ → ℤ → Inode → List ℕ → ℕ → AllocResult → Option (ℤ × Fs)
write_file o inode_num inode buf n (full s) = some (minus_one, s)
write_file o inode_num inode buf n (enough blocks s) = do
  (m, s₁) ← write_data (o % block_size) (blocks_up_to o) buf n blocks s
  s₂ ←
      write_inode inode_num
        (record inode { file_size = inode.file_size +ℤ pos m; direct_blocks = blocks }) s₁
  some (pos 0, s₂)

-- `simplefs_write` behind its tests. At a negative offset the block numbers are negative, unless
-- there is nothing to write at the start of a block.
unfoldable pub write_bytes : ℤ → ℕ → ℤ → Inode → List ℕ → Fs → Option (ℤ × Fs)
write_bytes (pos o) n inode_num inode buf s = do
  let total = blocks_up_to (o + n) - blocks_up_to o
  r ← alloc_blocks total total (blocks_up_to o) inode.direct_blocks s
  write_file o inode_num inode buf n r
write_bytes (negsuc o) n inode_num inode buf s =
    if n == 0
    then if suc o % block_size == 0
      then (do s' ← write_inode inode_num inode s; some (pos 0, s'))
      else none
    else none

unfoldable pub write_checked : ℤ → ℤ → ℤ → Inode → List ℕ → Fs → Option (ℤ × Fs)
write_checked offset (negsuc n) inode_num inode buf s = some (minus_one, s)
write_checked offset (pos n) inode_num inode buf s =
    if ltb_ℤ (pos (max_file_size * block_size)) (offset +ℤ pos n)
    then some (minus_one, s)
    else write_bytes offset n inode_num inode buf s

-- `buf` is the memory from the pointer of that name on.
unfoldable pub write : ℤ → List ℕ → ℤ → Fs → Option (ℤ × Fs)
write file_handle buf nbytes s = do
  h ← handle_at file_handle s
  inode ← read_inode h.inode_number s
  if inode.status == inode_free
      then some (minus_one, s)
      else write_checked h.offset nbytes h.inode_number inode buf s
