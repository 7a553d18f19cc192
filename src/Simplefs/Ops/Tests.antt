-- ===== src/Simplefs/Ops/Tests.antt =====
-- Runs of simplefs-code, and its theorems at concrete disks.
use os_codes.Common.{ℕ, ◌≡◌, refl, some, List, [], ◌∷◌, ◌++◌, arith, replicate, set, ℤ, pos, ◌+ℤ◌}
use os_codes.Simplefs.Disk.{
  Fs, FileHandle, num_inodes, num_data_blocks, max_open_files, minus_one, inode_free,
  data_block_free, empty_inode, format_disk, write_at, alloc_inode, find_entry, read_inode,
  write_inode, alloc_data_block, write_data_block, read_data_block,
}
use os_codes.Simplefs.Ops.{
  same_name, copy_name, find_file, create, create_at, open_file, open_inode, find_handle,
  is_minus_one, handle_at, new_inode,
}
use os_codes.Simplefs.Ops.Create.{IsConsistent, Agree-replicate, CreateSpec, create_total, created}
use os_codes.Simplefs.Ops.Invariant.{create-IsConsistent}
use os_codes.Simplefs.Transfer.{
  min, write, write_checked, write_bytes, write_file, write_data, write_blocks, write_round,
  alloc_blocks, strncpy, blocks_up_to, read, read_bytes, load_blocks, copy_out,
}

-- A formatted disk.
abbrev blank : Fs
blank = record {
  superblock = record {
    name = b's' ∷ b'i' ∷ b'm' ∷ b'p' ∷ b'l' ∷ b'e' ∷ b'f' ∷ b's' ∷ [];
    inode_freelist = replicate num_inodes inode_free;
    datablock_freelist = replicate num_data_blocks data_block_free;
  };
  inodes = replicate num_inodes empty_inode;
  data_blocks = [];
  handles = replicate max_open_files (record { offset = pos 0; inode_number = minus_one });
}

format_blank : format_disk ≡ some blank
unfolding format_disk write_inode write_at
format_blank = refl

blank-IsConsistent : IsConsistent blank
blank-IsConsistent = record {
  inodes_size = refl;
  freelist_size = refl;
  agree = Agree-replicate num_inodes inode_free empty_inode refl;
}

abbrev name : List ℕ
name = b'a' ∷ b'b' ∷ []

abbrev with_file : Fs
with_file = created 0 name blank

created_first : create name blank ≡ some (pos 0, with_file)
unfolding create find_file read_inode same_name alloc_inode find_entry create_at copy_name
    write_inode write_at
created_first = refl

create_total_example : (r : ℤ × Fs) × (create name blank ≡ some r) × CreateSpec blank name r
create_total_example = create_total name blank refl (omega arith)

create-IsConsistent_example : IsConsistent with_file
create-IsConsistent_example =
    create-IsConsistent blank blank-IsConsistent name (omega arith) (pos 0, with_file) created_first

-- The file open at handle 0.
abbrev opened : Fs
opened = record with_file {
  handles = set with_file.handles 0 (record { offset = pos 0; inode_number = pos 0 });
}

opened_first : open_file name with_file ≡ some (pos 0, opened)
unfolding open_file open_inode find_handle is_minus_one find_file read_inode same_name
opened_first = refl

abbrev at_start : FileHandle
at_start = record { offset = pos 0; inode_number = pos 0 }

-- The name of the file, and then 70 letters, written at the start.
abbrev letters : List ℕ
letters = replicate 70 b'z'

abbrev written : Fs
written = record opened {
  superblock = record (opened.superblock) {
    datablock_freelist = b'1' ∷ b'1' ∷ replicate 28 data_block_free;
  };
  inodes = set opened.inodes 0 (record (new_inode name) {
    file_size = pos 70;
    direct_blocks = pos 0 ∷ pos 1 ∷ minus_one ∷ minus_one ∷ [];
  });
  data_blocks = replicate 64 b'z' ∷ (replicate 6 b'z' ++ replicate 58 0) ∷ [];
}

write-letters : write (pos 0) letters (pos 70) opened ≡ some (pos 0, written)
unfolding write write_checked write_bytes write_file write_data write_blocks write_round
    alloc_blocks alloc_data_block find_entry strncpy blocks_up_to min handle_at read_inode
    write_inode write_at write_data_block is_minus_one ◌+ℤ◌
write-letters = refl

-- The bytes come back.
read-letters : read (replicate 256 7) (pos 0) (pos 70) written ≡ some (pos 0, letters)
unfolding read read_bytes load_blocks copy_out strncpy handle_at read_inode read_data_block
    is_minus_one ◌+ℤ◌
read-letters = refl
