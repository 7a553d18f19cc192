-- ===== src/Xv6/Bio/Coherence.antt =====
-- The invariant that ties the buffers and the disk to what was last written to each block.
use os_codes.Common.{
  ℕ, ◌≡◌, ◌≢◌, refl, sym, ap, ◌∙◌, subst, ◌⊎◌, inl, inr, true, false, List, ℕ_discrete,
}
use os_codes.Xv6.Bio.{Buf, Cache}
use os_codes.Xv6.Bio.Slots.{In}
use os_codes.Xv6.Bio.Places.{Distinct, Distinct-same, Replaced}

-- `latest` is what a plain array of the blocks of disk 1 would hold.
pub record Inv (c : Cache) (latest : ℕ → ℕ) : Type 0 where
  pub distinct : Distinct c.bufs
  pub keys :
      (a b : Buf)
      → In a c.bufs
      → In b c.bufs
      → a.dev ≡ 1
      → b.dev ≡ 1
      → a.blockno ≡ b.blockno
      → a.slot ≡ b.slot
  pub fresh : (b : Buf) → In b c.bufs → b.dev ≡ 1 → b.valid ≡ true → b.contents ≡ latest b.blockno
  pub written : (b : Buf) → In b c.bufs → b.dirty ≡ true → b.valid ≡ true
  pub home :
      (n : ℕ)
      → ((b : Buf) → In b c.bufs → b.dev ≡ 1 → b.blockno ≡ n → b.dirty ≡ false)
      → c.disk n ≡ latest n

-- A buffer changes, and with it perhaps the disk and what was last written.
module _ (c : Cache) (latest : ℕ → ℕ) (inv : Inv c latest) (b new : Buf) (cs : List Buf)
    (held : In b c.bufs) (at : new.slot ≡ b.slot) (r : Replaced c.bufs cs b.slot new) where
  module _ (disk : ℕ → ℕ) (after : ℕ → ℕ)
      (key_new : (x : Buf)
        → In x c.bufs
        → x.slot ≢ b.slot
        → new.dev ≡ 1
        → x.dev ≡ 1
        → new.blockno ≢ x.blockno)
      (fresh_new : new.dev ≡ 1 → new.valid ≡ true → new.contents ≡ after new.blockno)
      (written_new : new.dirty ≡ true → new.valid ≡ true)
      (fresh_old : (x : Buf)
        → In x c.bufs
        → x.slot ≢ b.slot
        → x.dev ≡ 1
        → latest x.blockno ≡ after x.blockno)
      (home_now : (n : ℕ)
        → ((x : Buf) → In x cs → x.dev ≡ 1 → x.blockno ≡ n → x.dirty ≡ false)
        → disk n ≡ after n) where
    keys_now :
        (x y : Buf)
        → In x cs
        → In y cs
        → x.dev ≡ 1
        → y.dev ≡ 1
        → x.blockno ≡ y.blockno
        → x.slot ≡ y.slot
    keys_now x y in_x in_y dev_x dev_y same = go (r.from x in_x) (r.from y in_y)
      where
        go :
            (x ≡ new) ⊎ (In x c.bufs × (x.slot ≢ b.slot))
            → (y ≡ new) ⊎ (In y c.bufs × (y.slot ≢ b.slot))
            → x.slot ≡ y.slot
        go (inl x_new) (inl y_new) = ap (λ (z : Buf). z.slot) (x_new ∙ sym y_new)
        go (inl x_new) (inr (old_y, other_y)) = absurd (
            key_new y old_y other_y (ap (λ (z : Buf). z.dev) (sym x_new) ∙ dev_x) dev_y
              (ap (λ (z : Buf). z.blockno) (sym x_new) ∙ same))
        go (inr (old_x, other_x)) (inl y_new) = absurd (
            key_new x old_x other_x (ap (λ (z : Buf). z.dev) (sym y_new) ∙ dev_y) dev_x
              (ap (λ (z : Buf). z.blockno) (sym y_new) ∙ sym same))
        go (inr (old_x, other_x)) (inr (old_y, other_y)) = inv.keys x y old_x old_y dev_x dev_y same

    pub replaced-Inv : Inv (record c { bufs = cs; disk = disk }) after
    replaced-Inv = record {
      distinct = r.distinct;
      keys = keys_now;
      fresh = λ x in_x dev_x valid_x. elim (r.from x in_x) [
        | inl x_new ↦
            subst (λ (z : Buf). z.contents ≡ after z.blockno) (sym x_new)
              (fresh_new (ap (λ (z : Buf). z.dev) (sym x_new) ∙ dev_x)
                (ap (λ (z : Buf). z.valid) (sym x_new) ∙ valid_x))
        | inr (old, other) ↦ inv.fresh x old dev_x valid_x ∙ fresh_old x old other dev_x
      ];
      written = λ x in_x dirty_x. elim (r.from x in_x) [
        | inl x_new ↦
            ap (λ (z : Buf). z.valid) x_new
            ∙ written_new (ap (λ (z : Buf). z.dirty) (sym x_new) ∙ dirty_x)
        | inr (old, other) ↦ inv.written x old dirty_x
      ];
      home = home_now;
    }

  -- The other buffers hold other blocks.
  pub own_key :
      new.dev ≡ b.dev
      → new.blockno ≡ b.blockno
      → (x : Buf) → In x c.bufs
      → x.slot ≢ b.slot
      → new.dev ≡ 1
      → x.dev ≡ 1
      → new.blockno ≢ x.blockno
  own_key same_dev same_block x old other dev_new dev_x e =
      other (sym (inv.keys b x held old (sym same_dev ∙ dev_new) dev_x (sym same_block ∙ e)))

  -- What is clean after the change was clean, if the changed buffer was.
  pub clean_before :
      (n : ℕ)
      → ((x : Buf) → In x cs → x.dev ≡ 1 → x.blockno ≡ n → x.dirty ≡ false)
      → (b.dev ≡ 1 → b.blockno ≡ n → b.dirty ≡ false)
      → (x : Buf) → In x c.bufs
      → x.dev ≡ 1
      → x.blockno ≡ n
      → x.dirty ≡ false
  clean_before n clean clean_b x old dev_x same = elim (ℕ_discrete x.slot b.slot) [
    | yes here_ ↦
        let x_b : x ≡ b = Distinct-same c.bufs x b inv.distinct old held here_ in
        ap (λ (z : Buf). z.dirty) x_b
        ∙ clean_b (ap (λ (z : Buf). z.dev) (sym x_b) ∙ dev_x)
            (ap (λ (z : Buf). z.blockno) (sym x_b) ∙ same)
    | no other ↦ clean x (r.others x old other) dev_x same
  ]

  -- Only the count of references changes.
  pub counted-Inv :
      new.dev ≡ b.dev
      → new.blockno ≡ b.blockno
      → new.valid ≡ b.valid
      → new.dirty ≡ b.dirty
      → new.contents ≡ b.contents
      → Inv (record c { bufs = cs }) latest
  counted-Inv same_dev same_block same_valid same_dirty same_contents =
      replaced-Inv c.disk latest (own_key same_dev same_block)
        (λ dev_new valid_new.
          same_contents
          ∙ inv.fresh b held (sym same_dev ∙ dev_new) (sym same_valid ∙ valid_new)
          ∙ ap latest (sym same_block))
        (λ dirty_new. same_valid ∙ inv.written b held (sym same_dirty ∙ dirty_new))
        (λ x old other dev_x. refl)
        (λ n clean. inv.home n (
          clean_before n clean (λ dev_b block_b.
            sym same_dirty ∙ clean new r.there (same_dev ∙ dev_b) (same_block ∙ block_b))))

  -- A clean buffer is given to a block that no other buffer has.
  pub recycled-Inv :
      b.dirty ≡ false
      → new.valid ≡ false
      → new.dirty ≡ false
      → ((x : Buf) → In x c.bufs → x.dev ≡ new.dev → x.blockno ≢ new.blockno)
      → Inv (record c { bufs = cs }) latest
  recycled-Inv clean_b invalid clean_new absent =
      replaced-Inv c.disk latest
        (λ x old other dev_new dev_x e. absent x old (dev_x ∙ sym dev_new) (sym e))
        (λ dev_new valid_new. absurd (cc (invalid, valid_new)))
        (λ dirty_new. absurd (cc (clean_new, dirty_new))) (λ x old other dev_x. refl)
        (λ n clean. inv.home n (clean_before n clean (λ dev_b block_b. clean_b)))

  -- The buffer is read from the disk.
  pub read-Inv :
      b.dev ≡ 1
      → b.dirty ≡ false
      → new.dev ≡ b.dev
      → new.blockno ≡ b.blockno
      → new.valid ≡ true
      → new.dirty ≡ false
      → new.contents ≡ c.disk b.blockno
      → Inv (record c { bufs = cs }) latest
  read-Inv dev_b clean_b same_dev same_block valid_new clean_new read =
      replaced-Inv c.disk latest (own_key same_dev same_block)
        (λ dev_new also_valid. read ∙ inv.home b.blockno at_home ∙ ap latest (sym same_block))
        (λ dirty_new. valid_new) (λ x old other dev_x. refl)
        (λ n clean. inv.home n (clean_before n clean (λ dev_b' block_b. clean_b)))
    where
      at_home : (x : Buf) → In x c.bufs → x.dev ≡ 1 → x.blockno ≡ b.blockno → x.dirty ≡ false
      at_home x old dev_x same =
          let x_b : x ≡ b =
            Distinct-same c.bufs x b inv.distinct old held
              (inv.keys x b old held dev_x dev_b same) in
          ap (λ (z : Buf). z.dirty) x_b ∙ clean_b
