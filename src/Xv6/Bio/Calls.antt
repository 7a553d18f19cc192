-- ===== src/Xv6/Bio/Calls.antt =====
-- Each call on the buffers keeps the invariant.
use os_codes.Common.{
  ℕ, ◌≡◌, refl, subst, inl, inr, true, false, some, ◌∷◌, ◌==◌, Bool-cases, Option-cases,
}
use os_codes.Xv6.Bio.{
  Buf, Cache, hold, recycle, drop_ref, find_slot, store, cached, unused, bget, read_in, bwrite,
  unlink, brelse, modify,
}
use os_codes.Xv6.Bio.Slots.{In, find_slot-In, cached-In, cached-none, unused-In}
use os_codes.Xv6.Bio.Places.{Replaced, Replaced-store, Replaced-unlink}
use os_codes.Xv6.Bio.Coherence.{Inv, counted-Inv, recycled-Inv, read-Inv}
use os_codes.Xv6.Bio.Branches.{
  bget-cached, bget-full, bget-recycles, iderw-reads, iderw-writes, read_in-valid, read_in-fails,
  read_in-reads, bwrite-fails, bwrite-writes, brelse-last, brelse-more, modify-found,
}
use os_codes.Xv6.Bio.Writes.{put, modified-Inv, written-Inv}

module _ (c : Cache) (latest : ℕ → ℕ) (inv : Inv c latest) where
  -- A buffer is stored in the place of `b`.
  placed :
      (b new : Buf)
      → In b c.bufs
      → new.slot ≡ b.slot
      → Replaced c.bufs (store b.slot new c.bufs) b.slot new
  placed b new held at = Replaced-store b.slot b new c.bufs at held refl inv.distinct

  held-Inv : (b : Buf) → In b c.bufs → Inv (record c { bufs = store b.slot (hold b) c.bufs }) latest
  held-Inv b held =
      counted-Inv c latest inv b (hold b) _ held refl (placed b (hold b) held refl) refl refl refl
        refl refl

  pub bget-Inv : (n i : ℕ) (d : Cache) → bget 1 n c ≡ some (i, d) → Inv d latest
  bget-Inv n i d e = elim (Option-cases (cached 1 n c.bufs)) [
    | inr (b, found) ↦
        let (held, same_dev, same_n) = cached-In 1 n c.bufs b found in
        let same : record c { bufs = store b.slot (hold b) c.bufs } ≡ d =
          cc (e, bget-cached 1 n c b found) in
        subst (λ x. Inv x latest) same (held-Inv b held)
    | inl absent ↦ elim (Option-cases (unused c.bufs)) [
      | inl full ↦ absurd (cc (e, bget-full 1 n c absent full))
      | inr (b, found) ↦
          let (held, free, clean) = unused-In c.bufs b found in
          let same : record c { bufs = store b.slot (recycle 1 n b) c.bufs } ≡ d =
            cc (e, bget-recycles 1 n c b absent found) in
          subst (λ x. Inv x latest) same
            (recycled-Inv c latest inv b (recycle 1 n b) _ held refl
              (placed b (recycle 1 n b) held refl) clean refl refl
              (λ x old dev_x. cached-none 1 n c.bufs x absent old dev_x))
    ]
  ]

  module _ (i : ℕ) (b : Buf) (found : find_slot i c.bufs ≡ some b) where
    held_b : In b c.bufs
    held_b = (find_slot-In i c.bufs b found).0

    place_b : b.slot ≡ i
    place_b = (find_slot-In i c.bufs b found).1

    -- The same, with the buffer named by its slot.
    placed_at : (new : Buf) → new.slot ≡ b.slot → Replaced c.bufs (store i new c.bufs) b.slot new
    placed_at new at =
        subst (λ k. Replaced c.bufs (store k new c.bufs) b.slot new) place_b
          (placed b new held_b at)

    pub read_in-Inv : (d : Cache) → read_in i c ≡ some d → Inv d latest
    read_in-Inv d e = elim (Bool-cases b.valid) [
      | inl valid ↦ subst (λ x. Inv x latest) (cc (e, read_in-valid i c b found valid)) inv
      | inr invalid ↦
          let clean : b.dirty ≡ false = elim (Bool-cases b.dirty) [
            | inl dirty ↦ absurd (cc (inv.written b held_b dirty, invalid))
            | inr clean ↦ clean
          ] in
          elim (iderw-reads b c invalid clean) [
            | inl fails ↦ absurd (cc (e, read_in-fails i c b found invalid fails))
            | inr (dev_b, works) ↦
                subst (λ x. Inv x latest) (cc (e, read_in-reads i c b _ _ found invalid works))
                  (read-Inv c latest inv b (record b { contents = c.disk b.blockno; valid = true })
                    _ held_b refl
                    (placed_at (record b { contents = c.disk b.blockno; valid = true }) refl) dev_b
                    clean refl refl refl clean refl)
          ]
    ]

    pub bwrite-Inv : (d : Cache) → b.valid ≡ true → bwrite true i c ≡ some d → Inv d latest
    bwrite-Inv d valid e = elim (iderw-writes (record b { dirty = true }) c refl) [
      | inl fails ↦ absurd (cc (e, bwrite-fails i c b found fails))
      | inr (dev_b, works) ↦
          subst (λ x. Inv x latest) (cc (e, bwrite-writes i c b _ _ found works))
            (written-Inv c latest inv b (record b { dirty = false; valid = true }) _ held_b refl
              (placed_at (record b { dirty = false; valid = true }) refl) dev_b valid refl refl refl
              refl)
    ]

    pub modify-Inv :
        (v : ℕ) (d : Cache)
        → b.dev ≡ 1
        → b.valid ≡ true
        → modify i v c ≡ some d
        → Inv d (put latest b.blockno v)
    modify-Inv v d dev_b valid e =
        subst (λ x. Inv x (put latest b.blockno v)) (cc (e, modify-found i v c b found))
          (modified-Inv c latest inv b (record b { contents = v; dirty = true }) _ held_b refl
            (placed_at (record b { contents = v; dirty = true }) refl) dev_b valid refl refl valid v
            refl refl)

    pub brelse-Inv : (d : Cache) → brelse true i c ≡ some d → Inv d latest
    brelse-Inv d e = elim (Bool-cases ((drop_ref b).refcnt == 0)) [
      | inl last ↦
          subst (λ x. Inv x latest) (cc (e, brelse-last i c b found last))
            (counted-Inv c latest inv b (drop_ref b) _ held_b refl
              (subst (λ k. Replaced c.bufs (drop_ref b ∷ unlink k c.bufs) b.slot (drop_ref b))
                place_b (Replaced-unlink b.slot (drop_ref b) c.bufs refl inv.distinct))
              refl refl refl refl refl)
      | inr more ↦
          subst (λ x. Inv x latest) (cc (e, brelse-more i c b found more))
            (counted-Inv c latest inv b (drop_ref b) _ held_b refl (placed_at (drop_ref b) refl)
              refl refl refl refl refl)
    ]
