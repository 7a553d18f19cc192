-- ===== src/Simplefs/Disk.antt =====
-- simplefs-code/simplefs-disk.c and its header: the superblock, the inodes and the data blocks of the
-- disk file, and the table of open files. `int` is an unbounded integer; a name is the bytes before
-- its NUL.
use os_codes.Common.{
  ℕ, zero, suc, ◌+◌, Option, none, some, List, [], ◌∷◌, ltb, ◌==◌, ◌>>=◌, ◌>>◌, assert,
  if◌then◌else◌, get_elem?, get_or, set, replicate, ℤ, pos, negsuc,
}

abbrev pub block_size : ℕ
block_size = 64

abbrev pub num_data_blocks : ℕ
num_data_blocks = 30

abbrev pub num_inodes : ℕ
num_inodes = 8

abbrev pub max_file_size : ℕ
max_file_size = 4

abbrev pub max_open_files : ℕ
max_open_files = 20

abbrev pub max_name_strlen : ℕ
max_name_strlen = 8

abbrev pub inode_free : ℕ
inode_free = b'x'

abbrev pub inode_in_use : ℕ
inode_in_use = b'1'

abbrev pub data_block_free : ℕ
data_block_free = b'x'

abbrev pub data_block_used : ℕ
data_block_used = b'1'

-- `struct superblock_t`
pub record Superblock : Type 0 where
  pub name : List ℕ
  pub inode_freelist : List ℕ
  pub datablock_freelist : List ℕ

-- `struct inode_t`
pub record Inode : Type 0 where
  pub status : ℕ
  pub name : List ℕ
  pub file_size : ℤ
  pub direct_blocks : List ℤ

-- `struct filehandle_t`
pub record FileHandle : Type 0 where
  pub offset : ℤ
  pub inode_number : ℤ

-- The disk file, cut into its parts, and `file_handle_array`. The file ends behind the last data
-- block that was written: `data_blocks` holds the blocks up to there.
pub record Fs : Type 0 where
  pub superblock : Superblock
  pub inodes : List Inode
  pub data_blocks : List (List ℕ)
  pub handles : List FileHandle

abbrev pub minus_one : ℤ
minus_one = negsuc 0

-- A write that may extend the file; a gap reads as zero bytes, which is the entry `z`.
unfoldable pub write_at {ℓ} : {A : Type ℓ} → A → List A → ℕ → A → List A
write_at z [] zero v = v ∷ []
write_at z [] (suc i) v = z ∷ write_at z [] i v
write_at z (x ∷ xs) zero v = v ∷ xs
write_at z (x ∷ xs) (suc i) v = x ∷ write_at z xs i v

abbrev pub zero_inode : Inode
zero_inode = record {
  status = 0;
  name = [];
  file_size = pos 0;
  direct_blocks = replicate max_file_size (pos 0);
}

abbrev pub zero_block : List ℕ
zero_block = replicate block_size 0

-- A negative number makes `lseek` go before the inodes, where the bytes are no inode.
unfoldable pub read_inode : ℤ → Fs → Option Inode
read_inode (pos n) s = do assert (ltb n num_inodes); get_elem? s.inodes n
read_inode (negsuc n) s = none

unfoldable pub write_inode : ℤ → Inode → Fs → Option Fs
write_inode (pos n) inode s = do
  assert (ltb n num_inodes)
  some (record s { inodes = write_at zero_inode s.inodes n inode })
write_inode (negsuc n) inode s = none

-- The loops that look for the first entry equal to `c` in a free list, with `k` rounds to go.
unfoldable pub find_entry : ℕ → List ℕ → ℕ → ℕ → Option ℕ
find_entry c xs zero i = none
find_entry c xs (suc k) i =
    let rest = find_entry c xs k (i + 1) in if get_or xs i 0 == c then some i else rest

abbrev pub set_inode_entry : ℕ → ℕ → Fs → Fs
set_inode_entry i c s = record s {
  superblock = record (s.superblock) { inode_freelist = set s.superblock.inode_freelist i c };
}

abbrev pub set_block_entry : ℕ → ℕ → Fs → Fs
set_block_entry b c s = record s {
  superblock = record (s.superblock) {
    datablock_freelist = set s.superblock.datablock_freelist b c;
  };
}

unfoldable pub alloc_inode : Fs → ℤ × Fs
alloc_inode s = elim (find_entry inode_free s.superblock.inode_freelist num_inodes 0) [
  | none ↦ (minus_one, s)
  | some i ↦ (pos i, set_inode_entry i inode_in_use s)
]

unfoldable pub free_inode : ℕ → Fs → Option Fs
unfolding read_inode write_inode
free_inode n s = do
  assert (ltb n num_inodes)
  inode ← read_inode (pos n) s
  assert (get_or s.superblock.inode_freelist n 0 == inode_in_use)
  write_inode (pos n)
      (record inode {
        status = inode_free;
        file_size = pos 0;
        direct_blocks = replicate max_file_size minus_one;
      })
      (set_inode_entry n inode_free s)

unfoldable pub alloc_data_block : Fs → ℤ × Fs
alloc_data_block s =
    elim (find_entry data_block_free s.superblock.datablock_freelist num_data_blocks 0) [
      | none ↦ (minus_one, s)
      | some b ↦ (pos b, set_block_entry b data_block_used s)
    ]

unfoldable pub free_data_block : ℤ → Fs → Option Fs
free_data_block (pos b) s = do
  c ← get_elem? s.superblock.datablock_freelist b
  assert (c == data_block_used)
  some (set_block_entry b data_block_free s)
free_data_block (negsuc b) s = none

-- A block behind the end of the file cannot be read: `assert(ret == BLOCKSIZE)` fails.
-- A negative block is `none`; the code tests the upper bound only, and reads there among the inodes.
unfoldable pub read_data_block : ℤ → Fs → Option (List ℕ)
read_data_block (pos b) s = do assert (ltb b num_data_blocks); get_elem? s.data_blocks b
read_data_block (negsuc b) s = none

-- A negative block is `none`; the code tests the upper bound only, and writes there among the inodes.
unfoldable pub write_data_block : ℤ → List ℕ → Fs → Option Fs
write_data_block (pos b) buf s = do
  assert (ltb b num_data_blocks)
  some (record s { data_blocks = write_at zero_block s.data_blocks b buf })
write_data_block (negsuc b) buf s = none

abbrev pub empty_inode : Inode
empty_inode = record {
  status = inode_free;
  name = [];
  file_size = pos 0;
  direct_blocks = replicate max_file_size minus_one;
}

-- The loop of `simplefs_formatDisk` that writes the inodes, with `k` rounds to go.
unfoldable pub format_inodes : ℕ → ℕ → Fs → Option Fs
unfolding write_inode
format_inodes zero i s = some s
format_inodes (suc k) i s = do s' ← write_inode (pos i) empty_inode s; format_inodes k (i + 1) s'

-- `fopen` with "w+" empties the file. "simplefs" is the name of the disk.
unfoldable pub format_disk : Option Fs
unfolding format_inodes
format_disk = format_inodes num_inodes 0 (record {
  superblock = record {
    name = b's' ∷ b'i' ∷ b'm' ∷ b'p' ∷ b'l' ∷ b'e' ∷ b'f' ∷ b's' ∷ [];
    inode_freelist = replicate num_inodes inode_free;
    datablock_freelist = replicate num_data_blocks data_block_free;
  };
  inodes = [];
  data_blocks = [];
  handles = replicate max_open_files (record { offset = pos 0; inode_number = minus_one });
})
