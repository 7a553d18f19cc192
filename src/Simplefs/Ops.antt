-- ===== src/Simplefs/Ops.antt =====
-- simplefs-code/simplefs-ops.c: the operations on files.
pub mod Names
pub mod Seek
pub mod Create
pub mod Invariant
mod Tests
use os_codes.Common.{
  ℕ, zero, suc, ◌+◌, ◌-◌, ◌*◌, ◌/◌, ◌%◌, Bool, true, false, not, ◌&&◌, ◌||◌, Option, none, some,
  List, [], ◌∷◌, ◌++◌, ltb, leb, ◌==◌, ◌>>=◌, ◌>>◌, assert, if◌then◌else◌, get_elem?, get_or, set,
  take, drop, replicate, length, ℤ, pos, negsuc, ◌+ℤ◌, ◌-ℤ◌, ltb_ℤ,
}
use os_codes.Simplefs.Disk.{
  Fs, Inode, FileHandle, block_size, num_inodes, max_file_size, max_open_files, max_name_strlen,
  inode_free, inode_in_use, minus_one, read_inode, write_inode, alloc_inode, free_inode,
  alloc_data_block, free_data_block, read_data_block, write_data_block,
}

-- `strcmp(a, b) == 0`
unfoldable pub same_name : List ℕ → List ℕ → Bool
same_name [] [] = true
same_name [] (b ∷ bs) = false
same_name (a ∷ xs) [] = false
same_name (a ∷ xs) (b ∷ bs) = a == b && same_name xs bs

-- `x == -1`
unfoldable pub is_minus_one : ℤ → Bool
is_minus_one (pos n) = false
is_minus_one (negsuc zero) = true
is_minus_one (negsuc (suc n)) = false

-- `strcpy(inodeptr.name, filename)`: the name and its NUL have to fit.
unfoldable pub copy_name : List ℕ → Option (List ℕ)
copy_name filename = do assert (ltb (length filename) max_name_strlen); some filename

-- The loop of `simplefs_create`, `simplefs_delete` and `simplefs_open` over the inodes, with `k`
-- rounds to go: the first inode in use with that name.
unfoldable pub find_file : Fs → List ℕ → ℕ → ℕ → Option (Option ℕ)
find_file s filename zero i = some none
find_file s filename (suc k) i = do
  inode ← read_inode (pos i) s
  let rest = find_file s filename k (i + 1)
  if inode.status == inode_in_use && same_name inode.name filename then some (some i) else rest

abbrev pub new_inode : List ℕ → Inode
new_inode name = record {
  status = inode_in_use;
  name = name;
  file_size = pos 0;
  direct_blocks = replicate max_file_size minus_one;
}

-- The part of `simplefs_create` behind `simplefs_allocInode`.
unfoldable pub create_at : List ℕ → ℤ × Fs → Option (ℤ × Fs)
create_at filename (pos i, s) = do
  name ← copy_name filename
  s' ← write_inode (pos i) (new_inode name) s
  some (pos i, s')
create_at filename (negsuc n, s) = some (minus_one, s)

unfoldable pub create : List ℕ → Fs → Option (ℤ × Fs)
create filename s = do
  found ← find_file s filename num_inodes 0
  elim found [ some i ↦ some (minus_one, s) | none ↦ create_at filename (alloc_inode s) ]

-- The inner loop of `simplefs_delete` over `direct_blocks`.
unfoldable pub free_blocks : List ℤ → Fs → Option Fs
free_blocks [] s = some s
free_blocks (b ∷ bs) s = do
  s' ← if is_minus_one b then some s else free_data_block b s
  free_blocks bs s'

-- The body of `simplefs_delete` at inode `i`.
unfoldable pub delete_at : ℕ → Fs → Option Fs
delete_at i s = do
  inode ← read_inode (pos i) s
  s₁ ← free_blocks inode.direct_blocks s
  s₂ ← write_inode (pos i) (record inode { name = [] }) s₁
  free_inode i s₂

unfoldable pub delete : List ℕ → Fs → Option Fs
delete filename s = do
  found ← find_file s filename num_inodes 0
  elim found [ some i ↦ delete_at i s | none ↦ some s ]

-- The loop of `simplefs_open` over `file_handle_array`, with `k` rounds to go.
unfoldable pub find_handle : List FileHandle → ℕ → ℕ → Option ℕ
find_handle [] k i = none
find_handle (h ∷ hs) zero i = none
find_handle (h ∷ hs) (suc k) i =
    let rest = find_handle hs k (i + 1) in if is_minus_one h.inode_number then some i else rest

unfoldable pub open_inode : ℕ → Fs → ℤ × Fs
open_inode inode_num s = elim (find_handle s.handles max_open_files 0) [
  | none ↦ (minus_one, s)
  | some h ↦ (
    pos h,
    record s {
      handles = set s.handles h (record { offset = pos 0; inode_number = pos inode_num });
    },
  )
]

unfoldable pub open_file : List ℕ → Fs → Option (ℤ × Fs)
open_file filename s = do
  found ← find_file s filename num_inodes 0
  elim found [ some i ↦ some (open_inode i s) | none ↦ some (minus_one, s) ]

-- `file_handle_array[file_handle]`
unfoldable pub handle_at : ℤ → Fs → Option FileHandle
handle_at (pos h) s = get_elem? s.handles h
handle_at (negsuc h) s = none

unfoldable pub set_handle : ℤ → FileHandle → Fs → Option Fs
set_handle (pos h) v s = do
  assert (ltb h (length s.handles))
  some (record s { handles = set s.handles h v })
set_handle (negsuc h) v s = none

unfoldable pub close : ℤ → Fs → Option Fs
close file_handle s = set_handle file_handle (record { offset = pos 0; inode_number = minus_one }) s

-- The test asks for a negative and a large offset at once, as the source does.
unfoldable pub seek : ℤ → ℤ → Fs → Option (ℤ × Fs)
seek file_handle nseek s = do
  h ← handle_at file_handle s
  let moved = h.offset +ℤ nseek
  if ltb_ℤ moved (pos 0) && ltb_ℤ (pos (max_file_size * block_size)) moved
      then some (minus_one, s)
      else (do s' ← set_handle file_handle (record h { offset = moved }) s; some (pos 0, s'))
