-- ===== src/Xv6/Bio/Read.antt =====
-- `bread` returns what was last written to the block.
use os_codes.Common.{
  ℕ, ◌<◌, ◌≡◌, refl, ap, ◌∙◌, inl, inr, true, false, some, Bool-cases, Option-cases, arith,
}
use os_codes.Xv6.Bio.{
  Buf, Cache, hold, recycle, find_slot, store, cached, unused, bget, read_in, bread,
}
use os_codes.Xv6.Bio.Slots.{find_slot-In, cached-In, unused-In}
use os_codes.Xv6.Bio.Coherence.{Inv}
use os_codes.Xv6.Bio.Calls.{bget-Inv, read_in-Inv}
use os_codes.Xv6.Bio.Branches.{
  bget-cached, bget-recycles, iderw-reads_inside, read_in-valid, read_in-reads, find_slot-store,
}
use os_codes.Xv6.Bio.Latest.{System, Reach, Reach-Good}

-- The buffer in slot `i` is the one of block `n` of disk 1.
abbrev pub Holds : ℕ → ℕ → Cache → Buf → Type 0
Holds i n c b = (find_slot i c.bufs ≡ some b) × (b.dev ≡ 1) × (b.blockno ≡ n)

bget_finds :
    (n : ℕ) (c : Cache) (u : Buf)
    → unused c.bufs ≡ some u
    → (i : ℕ) × (d : Cache) × (b : Buf) × (bget 1 n c ≡ some (i, d))
      × Holds i n d b
      × (d.disk_size ≡ c.disk_size)
bget_finds n c u free = elim (Option-cases (cached 1 n c.bufs)) [
  | inr (b, found) ↦
      let (held, dev_b, block_b) = cached-In 1 n c.bufs b found in
      (
        b.slot,
        record c { bufs = store b.slot (hold b) c.bufs },
        hold b,
        bget-cached 1 n c b found,
        (find_slot-store b.slot (hold b) c.bufs b refl held refl, dev_b, block_b),
        refl,
      )
  | inl absent ↦
      let (held, unheld, clean) = unused-In c.bufs u free in
      (
        u.slot,
        record c { bufs = store u.slot (recycle 1 n u) c.bufs },
        recycle 1 n u,
        bget-recycles 1 n c u absent free,
        (find_slot-store u.slot (recycle 1 n u) c.bufs u refl held refl, refl, refl),
        refl,
      )
]

module _ (c : Cache) (latest : ℕ → ℕ) (inv : Inv c latest) (i n : ℕ) (b : Buf)
    (holds : Holds i n c b) (inside : n < c.disk_size) where
  read_in_valid :
      (d : Cache) × (b' : Buf) × (read_in i c ≡ some d) × Holds i n d b' × (b'.valid ≡ true)
  read_in_valid =
      let (found, dev_b, block_b) = holds in
      let (held, at) = find_slot-In i c.bufs b found in
      elim (Bool-cases b.valid) [
        | inl valid ↦ (c, b, read_in-valid i c b found valid, holds, valid)
        | inr invalid ↦
            let clean : b.dirty ≡ false = elim (Bool-cases b.dirty) [
              | inl dirty ↦ absurd (cc (inv.written b held dirty, invalid))
              | inr clean ↦ clean
            ] in
            let works = iderw-reads_inside b c invalid clean dev_b (omega (arith, block_b)) in
            (
              _,
              record b { contents = c.disk b.blockno; valid = true },
              read_in-reads i c b _ _ found invalid works,
              (find_slot-store i _ c.bufs b at held at, dev_b, block_b),
              refl,
            )
      ]

bread_of :
    (n i : ℕ) (c d e : Cache)
    → bget 1 n c ≡ some (i, d)
    → read_in i d ≡ some e
    → bread 1 n c ≡ some (i, e)
unfolding bread
bread_of n i c d e gets reads = rw (gets, reads)

-- After any calls on disk 1 by any processes, who modify and write valid buffers only, `bread` of a
-- block of the disk succeeds if some buffer is unused, and gives the buffer of that block, valid, with
-- what was last written to the block.
pub bread_latest :
    {s : System}
    → Reach s
    → (n : ℕ) (u : Buf) → n < s.cache.disk_size
    → unused s.cache.bufs ≡ some u
    → (i : ℕ) × (c : Cache) × (b : Buf) × (bread 1 n s.cache ≡ some (i, c))
      × Holds i n c b
      × (b.valid ≡ true)
      × (b.contents ≡ s.latest n)
bread_latest {s} reach n u inside free =
    let (i, d, b, gets, holds, same_size) = bget_finds n s.cache u free in
    let inv = bget-Inv s.cache s.latest (Reach-Good reach) n i d gets in
    let (e, b', reads, (found, dev, block), valid) =
      read_in_valid d s.latest inv i n b holds (omega (arith, same_size)) in
    let after = read_in-Inv d s.latest inv i b holds.0 e reads in
    (
      i,
      e,
      b',
      bread_of n i s.cache d e gets reads,
      (found, dev, block),
      valid,
      after.fresh b' (find_slot-In i e.bufs b' found).0 dev valid ∙ ap s.latest block,
    )
