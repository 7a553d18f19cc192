-- ===== src/Xv6/Bio/Tests.antt =====
-- Runs of the buffer cache: block 5 is read, modified, and read again.
use os_codes.Common.{ℕ, ◌+◌, ◌≡◌, refl, true, false, some, [], arith}
use os_codes.Xv6.Bio.{
  Buf, Cache, binit, link_from, find_slot, store, cached, unused, bget, iderw, finish, read_in,
  bread, modify, recycle,
}
use os_codes.Xv6.Bio.Latest.{Reach, here, next, gets, reads, modifies}
use os_codes.Xv6.Bio.Writes.{put}
use os_codes.Xv6.Bio.Read.{Holds, bread_latest}

abbrev boot : Cache
boot = record { bufs = []; disk = λ n. n + 100; disk_size = 1000 }

abbrev blank : ℕ → Buf
blank i = record {
  slot = i;
  dev = 0;
  blockno = 0;
  valid = false;
  dirty = false;
  refcnt = 0;
  contents = 0;
}

abbrev found : Cache
found = record (binit boot) { bufs = store 0 (recycle 1 5 (blank 0)) (binit boot).bufs }

abbrev block_5 : Buf
block_5 = record (recycle 1 5 (blank 0)) { valid = true; contents = 105 }

abbrev loaded : Cache
loaded = record found { bufs = store 0 block_5 found.bufs }

abbrev changed : Cache
changed = record loaded {
  bufs = store 0 (record block_5 { contents = 7; dirty = true }) loaded.bufs;
}

Reach-changed : Reach (record { cache = changed; latest = put boot.disk 5 7 })
unfolding bget binit link_from cached unused store read_in find_slot iderw finish modify
Reach-changed =
    next (next (next (here boot) (gets 5 0 found refl)) (reads 0 loaded refl))
      (modifies 0 7 block_5 changed refl refl refl refl)

unused-changed : unused changed.bufs ≡ some (blank 1)
unfolding binit link_from unused store
unused-changed = refl

bread_latest_example :
    (i : ℕ) × (c : Cache) × (b : Buf) × (bread 1 5 changed ≡ some (i, c))
    × Holds i 5 c b
    × (b.valid ≡ true)
    × (b.contents ≡ 7)
unfolding binit
bread_latest_example = bread_latest Reach-changed 5 (blank 1) (omega arith) unused-changed
