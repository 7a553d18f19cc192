-- ===== src/Xv6/Bio/Writes.antt =====
-- The invariant of the buffers when a block is modified, and when it is written to the disk.
use os_codes.Common.{
  ℕ, ◌≡◌, ◌≢◌, refl, sym, ap, ◌∙◌, true, false, List, ◌==◌, if◌then◌else◌, ℕ_discrete, arith,
}
use os_codes.Xv6.Bio.{Buf, Cache}
use os_codes.Xv6.Bio.Slots.{In}
use os_codes.Xv6.Bio.Places.{Replaced}
use os_codes.Xv6.Bio.Coherence.{Inv, replaced-Inv, own_key, clean_before}

-- The function with one value changed.
abbrev pub put : (ℕ → ℕ) → ℕ → ℕ → ℕ → ℕ
put f k v n = if n == k then v else f n

put_self : (f : ℕ → ℕ) (k v n : ℕ) → n ≡ k → put f k v n ≡ v
put_self f k v n e = let hit : (n == k) ≡ true = ground arith in rw hit

put_other : (f : ℕ → ℕ) (k v n : ℕ) → n ≢ k → put f k v n ≡ f n
put_other f k v n e = let miss : (n == k) ≡ false = ground arith in rw miss

module _ (c : Cache) (latest : ℕ → ℕ) (inv : Inv c latest) (b new : Buf) (cs : List Buf)
    (held : In b c.bufs) (at : new.slot ≡ b.slot) (r : Replaced c.bufs cs b.slot new)
    (dev_b : b.dev ≡ 1) (valid_b : b.valid ≡ true) (same_dev : new.dev ≡ b.dev)
    (same_block : new.blockno ≡ b.blockno) (valid_new : new.valid ≡ true) where
  own :
      (x : Buf) → In x c.bufs → x.slot ≢ b.slot → new.dev ≡ 1 → x.dev ≡ 1 → new.blockno ≢ x.blockno
  own = own_key c latest inv b new cs held at r same_dev same_block

  -- The changed buffer is the only one with its block, so the home of other blocks is as before.
  elsewhere :
      (n : ℕ)
      → n ≢ b.blockno
      → ((x : Buf) → In x cs → x.dev ≡ 1 → x.blockno ≡ n → x.dirty ≡ false)
      → c.disk n ≡ latest n
  elsewhere n other clean = inv.home n (
      clean_before c latest inv b new cs held at r n clean
        (λ dev block. absurd (other (sym block))))

  pub modified-Inv :
      (v : ℕ)
      → new.dirty ≡ true
      → new.contents ≡ v
      → Inv (record c { bufs = cs }) (put latest b.blockno v)
  modified-Inv v dirty_new contents_new =
      replaced-Inv c latest inv b new cs held at r c.disk (put latest b.blockno v) own
        (λ dev_new also. contents_new ∙ sym (put_self latest b.blockno v new.blockno same_block))
        (λ dirty. valid_new)
        (λ x old other dev_x. sym (
          put_other latest b.blockno v x.blockno
            (λ e. own x old other (same_dev ∙ dev_b) dev_x (same_block ∙ sym e))))
        now
    where
      now :
          (n : ℕ)
          → ((x : Buf) → In x cs → x.dev ≡ 1 → x.blockno ≡ n → x.dirty ≡ false)
          → c.disk n ≡ put latest b.blockno v n
      now n clean = elim (ℕ_discrete n b.blockno) [
        | yes same ↦
            absurd (cc (clean new r.there (same_dev ∙ dev_b) (same_block ∙ sym same), dirty_new))
        | no other ↦ elsewhere n other clean ∙ sym (put_other latest b.blockno v n other)
      ]

  pub written-Inv :
      new.contents ≡ b.contents
      → Inv (record c { bufs = cs; disk = put c.disk b.blockno b.contents }) latest
  written-Inv same_contents =
      replaced-Inv c latest inv b new cs held at r (put c.disk b.blockno b.contents) latest own
        (λ dev_new also. same_contents ∙ current ∙ ap latest (sym same_block)) (λ dirty. valid_new)
        (λ x old other dev_x. refl) now
    where
      current : b.contents ≡ latest b.blockno
      current = inv.fresh b held dev_b valid_b

      now :
          (n : ℕ)
          → ((x : Buf) → In x cs → x.dev ≡ 1 → x.blockno ≡ n → x.dirty ≡ false)
          → put c.disk b.blockno b.contents n ≡ latest n
      now n clean = elim (ℕ_discrete n b.blockno) [
        | yes same ↦ put_self c.disk b.blockno b.contents n same ∙ current ∙ ap latest (sym same)
        | no other ↦ put_other c.disk b.blockno b.contents n other ∙ elsewhere n other clean
      ]
