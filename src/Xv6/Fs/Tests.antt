-- ===== src/Xv6/Fs/Tests.antt =====
-- Runs of the file system: three bytes are written to an empty file, on a disk of 20 blocks.
use os_codes.Common.{
  ℕ, ◌+◌, ◌≤◌, ◌<◌, ◌≡◌, refl, true, false, none, some, ltb, inl, inr, ◌⊎◌, Bool-cases, arith, sym,
  ap, ◌∙◌, ◌≢◌, List, [], ◌∷◌, map, take,
}
use os_codes.Xv6.Fs.{
  Inode, Volume, put, balloc, scan_map, scan_block, scan_bits, slot, bmap, write_from, readi,
  writei, grow, iupdate, copy, ReadResult, WriteResult, ndirect,
}
use os_codes.Xv6.Fs.Ownership.{addr_of, IsValid}
use os_codes.Xv6.Fs.RoundTrip.{Wrote, writei-Wrote, readi-writei}
use os_codes.Xv6.Fs.Path.{dirsiz, names, parts, names-parts}
use os_codes.Xv6.Fs.Truncate.{itrunc}
use os_codes.Xv6.Fs.Icache.{
  Cached, Icache, done, iget, iput, idup, lookup, scan, Reachable, start, step, gets, dups,
}
use os_codes.Xv6.Fs.Unique.{IsUnique, reachable-IsUnique}
use os_codes.Xv6.Fs.Deletion.{Last, Deleted, iput-Deleted}
use os_codes.Xv6.Fs.Freeing.{Emptied, itrunc-Emptied}

abbrev empty : Inode
empty = record { inum = 7; type = 2; nlink = 1; size = 0; addrs = λ i. 0 }

abbrev volume : Volume
volume = record { size = 20; used = λ b. ltb b 5; block = λ b i. 9; inodes = λ i. empty }

empty_nowhere : (i : ℕ) → addr_of empty volume i ≡ 0
unfolding addr_of
empty_nowhere i = elim (Bool-cases (ltb i ndirect)) [ inl low ↦ rw low | inr high ↦ rw high ]

empty-IsValid : IsValid empty volume
empty-IsValid = record {
  reserved = refl;
  small = omega arith;
  parts_used = λ i lt there_. absurd (there_ (empty_nowhere i));
  table_used = λ there_. absurd (there_ refl);
  distinct = λ i j lt_i lt_j differ there_. absurd (there_ (empty_nowhere i));
  apart = λ i lt there_. absurd (there_ (empty_nowhere i));
}

abbrev three : ℕ → ℕ
three z = z + 65

abbrev file : Inode
file = record empty { size = 3; addrs = put (λ i. 0) 0 5 }

abbrev stored : Volume
stored = record volume {
  used = put volume.used 5 true;
  block = put (put volume.block 5 (λ i. 0)) 5 (copy three 0 (put volume.block 5 (λ i. 0) 5) 0 3);
  inodes = put volume.inodes 7 file;
}

writei-three : writei empty volume three 0 3 ≡ some (WriteResult.returned 3 file stored)
unfolding writei write_from bmap slot balloc scan_map scan_block scan_bits grow iupdate
writei-three = refl

readi-writei_example :
    (d : ℕ → ℕ) × (readi file stored (λ z. 0) 0 3 ≡ some (ReadResult.returned 3 file stored d))
    × ((z : ℕ) → z < 3 → d z ≡ three z)
readi-writei_example =
    readi-writei empty volume three (λ z. 0) 0 3 3 file stored empty-IsValid (omega arith)
      (omega arith) writei-three

writei-Wrote_example :
    (◌≡◌ {A = ℕ} 3 3) × (0 + 3 ≤ 71680) × Wrote empty volume file stored three 0 3
writei-Wrote_example =
    writei-Wrote empty volume three 0 3 3 file stored empty-IsValid (omega arith) (omega arith)
      writei-three

-- "/ab//c" in bytes
abbrev path : List ℕ
path = 47 ∷ 97 ∷ 98 ∷ 47 ∷ 47 ∷ 99 ∷ []

names-parts_example : names 6 path ≡ map (take dirsiz) (parts path)
names-parts_example = names-parts 6 path (omega arith)

-- A file with block 4.
abbrev one_block : Inode
one_block = record empty { size = 3; addrs = put (λ i. 0) 0 4 }

one_block_there : (i : ℕ) → addr_of one_block volume i ≢ 0 → i ≡ 0
unfolding addr_of
one_block_there i there_ = ground (arith, there_)

one_block_first : addr_of one_block volume 0 ≡ 4
unfolding addr_of
one_block_first = refl

one_block-IsValid : IsValid one_block volume
one_block-IsValid = record {
  reserved = refl;
  small = omega arith;
  parts_used = λ i lt there_.
      ap volume.used (ap (addr_of one_block volume) (one_block_there i there_) ∙ one_block_first);
  table_used = λ there_. absurd (there_ refl);
  distinct = λ i j lt_i lt_j differ there_ e.
      let i_first = one_block_there i there_ in
      let j_first = one_block_there j (λ z. there_ (e ∙ z)) in differ (i_first ∙ sym j_first);
  apart = λ i lt there_ e. there_ e;
}

itrunc-Emptied_example :
    (jp : Inode) × (w : Volume) × (itrunc one_block volume ≡ some (jp, w))
    × Emptied one_block volume jp w
itrunc-Emptied_example = itrunc-Emptied one_block volume one_block-IsValid

-- Entry 0 of the cache is the last pointer to the file without links.
abbrev unlinked : Cached
unlinked = record {
  dev = 1;
  ref = 1;
  lock = none;
  valid = true;
  node = record one_block { nlink = 0 };
}

abbrev cache : Icache
cache = record { inode = λ i. unlinked; disk = λ d. volume }

unlinked-IsValid : IsValid unlinked.node volume
unfolding addr_of
unlinked-IsValid =
    let inv = one_block-IsValid in
    record {
      reserved = inv.reserved;
      small = inv.small;
      parts_used = inv.parts_used;
      table_used = inv.table_used;
      distinct = inv.distinct;
      apart = inv.apart;
    }

iput-Deleted_example :
    (t : Icache) × (iput 0 cache ≡ done t)
    × ((t.inode 0).ref + 1 ≡ 1)
    × ((Last unlinked × Deleted 0 cache t) ⊎ ((¬ Last unlinked) × (t.disk ≡ cache.disk)))
iput-Deleted_example = iput-Deleted 0 cache refl (omega arith) unlinked-IsValid

abbrev unused : Icache
unused = record { inode = λ i. record unlinked { ref = 0 }; disk = λ d. volume }

abbrev first : Icache
first = record unused { inode = put unused.inode 0 (record unlinked { valid = false }) }

iget-first : iget 1 7 unused ≡ some (0, first)
unfolding iget lookup scan
iget-first = refl

-- Two processes open the same file.
second-Reachable : Reachable (idup 0 first)
unfolding idup
second-Reachable =
    step (step (start unused (λ i. refl)) (gets 1 7 0 first iget-first)) (dups 0 (omega arith))

reachable-IsUnique_example : IsUnique (idup 0 first)
reachable-IsUnique_example = reachable-IsUnique second-Reachable
