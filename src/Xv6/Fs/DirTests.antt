-- ===== src/Xv6/Fs/DirTests.antt =====
-- A run of the directories: an entry is added to an empty directory.
use os_codes.Common.{
  ℕ, ◌≡◌, ◌==◌, if◌then◌else◌, refl, true, some, ltb, inl, inr, Bool-cases, arith,
}
use os_codes.Xv6.Fs.{
  Inode, Volume, put, balloc, scan_map, scan_block, scan_bits, slot, bmap, write_from, writei, grow,
  iupdate, copy, ndirect,
}
use os_codes.Xv6.Fs.Ownership.{addr_of, IsValid}
use os_codes.Xv6.Fs.Dir.{
  scan_entries, dirlookup, new_entry, linked, write_entry, add_entry, dirlink,
}
use os_codes.Xv6.Fs.Lookup.{IsDir}
use os_codes.Xv6.Fs.Links.{Linked, dirlookup-dirlink}

abbrev root : Inode
root = record { inum = 1; type = 1; nlink = 1; size = 0; addrs = λ i. 0 }

abbrev disk : Volume
disk = record { size = 20; used = λ b. ltb b 5; block = λ b i. 9; inodes = λ i. root }

root_nowhere : (i : ℕ) → addr_of root disk i ≡ 0
unfolding addr_of
root_nowhere i = elim (Bool-cases (ltb i ndirect)) [ inl low ↦ rw low | inr high ↦ rw high ]

root-IsValid : IsValid root disk
root-IsValid = record {
  reserved = refl;
  small = omega arith;
  parts_used = λ i lt there_. absurd (there_ (root_nowhere i));
  table_used = λ there_. absurd (there_ refl);
  distinct = λ i j lt_i lt_j differ there_. absurd (there_ (root_nowhere i));
  apart = λ i lt there_. absurd (there_ (root_nowhere i));
}

root-IsDir : IsDir root disk 0
root-IsDir = record {
  type = refl;
  size = refl;
  room = omega arith;
  mapped = λ x lt. absurd (omega arith);
}

-- "hi"
abbrev hi : ℕ → ℕ
hi z = if z == 0 then 104 else if z == 1 then 105 else 0

abbrev grown : Inode
grown = record root { size = 16; addrs = put (λ i. 0) 0 5 }

abbrev written : Volume
written = record disk {
  used = put disk.used 5 true;
  block =
      put (put disk.block 5 (λ i. 0)) 5
        (copy (new_entry hi 7) 0 (put disk.block 5 (λ i. 0) 5) 0 16);
  inodes = put disk.inodes 1 grown;
}

dirlink-hi : dirlink root disk hi 7 ≡ some (linked grown written)
unfolding dirlink dirlookup scan_entries add_entry write_entry writei write_from bmap slot balloc
    scan_map scan_block scan_bits grow iupdate
dirlink-hi = refl

dirlookup-dirlink_example : Linked root disk hi 7 0 grown written
dirlookup-dirlink_example =
    dirlookup-dirlink root disk hi 7 0 grown written root-IsValid root-IsDir (λ e. omega (arith, e))
      (omega arith) dirlink-hi
