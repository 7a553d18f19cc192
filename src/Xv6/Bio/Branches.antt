-- ===== src/Xv6/Bio/Branches.antt =====
-- What each call computes on each branch.
use os_codes.Common.{
  ℕ, ◌<◌, ◌≡◌, sym, ap, ◌∙◌, ◌⊎◌, inl, inr, true, false, none, some, List, [], ◌∷◌, ltb, ◌==◌,
  if◌then◌else◌, Bool-cases, ℕ_discrete, arith,
}
use os_codes.Xv6.Bio.{
  Buf, Cache, hold, recycle, drop_ref, find_slot, store, cached, unused, bget, iderw, finish,
  read_in, bwrite, unlink, brelse, modify,
}
use os_codes.Xv6.Bio.Slots.{In}

module _ (dev n : ℕ) (c : Cache) where
  pub bget-cached :
      (b : Buf)
      → cached dev n c.bufs ≡ some b
      → bget dev n c ≡ some (b.slot, record c { bufs = store b.slot (hold b) c.bufs })
  unfolding bget
  bget-cached b e = rw (e, bget)

  pub bget-full : cached dev n c.bufs ≡ none → unused c.bufs ≡ none → bget dev n c ≡ none
  unfolding bget
  bget-full absent full = rw (absent, full, bget)

  pub bget-recycles :
      (b : Buf)
      → cached dev n c.bufs ≡ none
      → unused c.bufs ≡ some b
      → bget dev n c ≡ some (b.slot, record c { bufs = store b.slot (recycle dev n b) c.bufs })
  unfolding bget
  bget-recycles b absent found = rw (absent, found, bget)

-- A buffer that is neither valid nor dirty is read, one that is dirty is written.
pub iderw-reads :
    (b : Buf) (c : Cache)
    → b.valid ≡ false
    → b.dirty ≡ false
    → (iderw b c ≡ none)
      ⊎ ((b.dev ≡ 1)
          × (iderw b c ≡ some (record b { contents = c.disk b.blockno; valid = true }, c.disk)))
unfolding iderw
iderw-reads b c invalid clean = elim (ℕ_discrete b.dev 1) [
  | no other ↦ inl (let miss : (b.dev == 1) ≡ false = ground arith in rw (invalid, miss))
  | yes same ↦
      let hit : (b.dev == 1) ≡ true = ground arith in
      elim (Bool-cases (ltb b.blockno c.disk_size)) [
        | inr outside ↦ inl (rw (invalid, hit, outside))
        | inl inside ↦ inr (same, rw (invalid, hit, inside, clean))
      ]
]

pub iderw-writes :
    (b : Buf) (c : Cache)
    → b.dirty ≡ true
    → (iderw b c ≡ none)
      ⊎ ((b.dev ≡ 1)
          × (iderw b c
              ≡ some (
                record b { dirty = false; valid = true },
                λ n. if n == b.blockno then b.contents else c.disk n,
              )))
unfolding iderw
iderw-writes b c dirty = elim (ℕ_discrete b.dev 1) [
  | no other ↦
      let miss : (b.dev == 1) ≡ false = ground arith in
      elim (Bool-cases b.valid) [
        | inl valid ↦ inl (rw (valid, dirty, miss))
        | inr invalid ↦ inl (rw (invalid, miss))
      ]
  | yes same ↦
      let hit : (b.dev == 1) ≡ true = ground arith in
      elim (Bool-cases (ltb b.blockno c.disk_size)) [
        | inr outside ↦ elim (Bool-cases b.valid) [
          | inl valid ↦ inl (rw (valid, dirty, hit, outside))
          | inr invalid ↦ inl (rw (invalid, hit, outside))
        ]
        | inl inside ↦ elim (Bool-cases b.valid) [
          | inl valid ↦ inr (same, rw (valid, dirty, hit, inside))
          | inr invalid ↦ inr (same, rw (invalid, dirty, hit, inside))
        ]
      ]
]

pub iderw-reads_inside :
    (b : Buf) (c : Cache)
    → b.valid ≡ false
    → b.dirty ≡ false
    → b.dev ≡ 1
    → b.blockno < c.disk_size
    → iderw b c ≡ some (record b { contents = c.disk b.blockno; valid = true }, c.disk)
unfolding iderw
iderw-reads_inside b c invalid clean same lt =
    let hit : (b.dev == 1) ≡ true = ground arith in
    let inside : ltb b.blockno c.disk_size ≡ true = ground arith in rw (invalid, hit, inside, clean)

module _ (i : ℕ) (c : Cache) where
  pub read_in-absent : find_slot i c.bufs ≡ none → read_in i c ≡ none
  unfolding read_in
  read_in-absent e = rw (e, read_in)

  pub brelse-absent : find_slot i c.bufs ≡ none → brelse true i c ≡ none
  unfolding brelse
  brelse-absent e = rw (e, brelse)

module _ (i : ℕ) (c : Cache) (b : Buf) where
  pub read_in-valid : find_slot i c.bufs ≡ some b → b.valid ≡ true → read_in i c ≡ some c
  unfolding read_in
  read_in-valid found valid = rw (found, valid, read_in)

  pub read_in-fails :
      find_slot i c.bufs ≡ some b → b.valid ≡ false → iderw b c ≡ none → read_in i c ≡ none
  unfolding read_in
  read_in-fails found invalid fails = rw (found, fails, invalid, read_in, finish)

  pub read_in-reads :
      (new : Buf) (disk : ℕ → ℕ)
      → find_slot i c.bufs ≡ some b
      → b.valid ≡ false
      → iderw b c ≡ some (new, disk)
      → read_in i c ≡ some (record c { bufs = store i new c.bufs; disk = disk })
  unfolding read_in
  read_in-reads new disk found invalid works = rw (found, works, invalid, read_in, finish)

  pub bwrite-fails :
      find_slot i c.bufs ≡ some b
      → iderw (record b { dirty = true }) c ≡ none
      → bwrite true i c ≡ none
  unfolding bwrite
  bwrite-fails found fails = rw (found, fails, bwrite, finish)

  pub bwrite-writes :
      (new : Buf) (disk : ℕ → ℕ)
      → find_slot i c.bufs ≡ some b
      → iderw (record b { dirty = true }) c ≡ some (new, disk)
      → bwrite true i c ≡ some (record c { bufs = store i new c.bufs; disk = disk })
  unfolding bwrite
  bwrite-writes new disk found works = rw (found, works, bwrite, finish)

  pub brelse-last :
      find_slot i c.bufs ≡ some b
      → ((drop_ref b).refcnt == 0) ≡ true
      → brelse true i c ≡ some (record c { bufs = drop_ref b ∷ unlink i c.bufs })
  unfolding brelse
  brelse-last found last = rw (found, last, brelse)

  pub brelse-more :
      find_slot i c.bufs ≡ some b
      → ((drop_ref b).refcnt == 0) ≡ false
      → brelse true i c ≡ some (record c { bufs = store i (drop_ref b) c.bufs })
  unfolding brelse
  brelse-more found more = rw (found, more, brelse)

pub modify-found :
    (i v : ℕ) (c : Cache) (b : Buf)
    → find_slot i c.bufs ≡ some b
    → modify i v c
      ≡ some (record c { bufs = store i (record b { contents = v; dirty = true }) c.bufs })
unfolding modify
modify-found i v c b found = rw (found, modify)

-- The buffer in a slot after a store to it.
pub find_slot-store :
    (i : ℕ) (new : Buf) (bs : List Buf) (b : Buf)
    → new.slot ≡ i
    → In b bs
    → b.slot ≡ i
    → find_slot i (store i new bs) ≡ some new
unfolding find_slot store
find_slot-store i new [] b at held at_b = absurd held
find_slot-store i new (x ∷ xs) b at held at_b = elim (Bool-cases (x.slot == i)) [
  | inl hit ↦ let hit_new : (new.slot == i) ≡ true = ground arith in rw (hit, hit_new)
  | inr miss ↦ elim held [
    | inl same ↦
        let x_i : x.slot ≡ i = ap (λ (y : Buf). y.slot) (sym same) ∙ at_b in
        absurd (ground (arith, miss, x_i))
    | inr later ↦ rw (miss, miss) (find_slot-store i new xs b at later at_b)
  ]
]
