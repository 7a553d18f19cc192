-- ===== src/Xv6/Fs/Parts.antt =====
-- `bmap` as a whole.
use os_codes.Common.{
  ℕ, ◌+◌, ◌-◌, ◌≤◌, ◌<◌, ◌≡◌, ◌≢◌, sym, ap, ◌∙◌, subst, true, false, some, ◌>>=◌, ltb, ◌==◌, arith,
  ℕ_discrete, dec_lt, inl, inr, >>=-eq-some,
}
use os_codes.Xv6.Fs.{
  Inode, Volume, ndirect, nindirect, max_file, put, get_word, set_word, balloc, slot, entry, bmap,
}
use os_codes.Xv6.Fs.Words.{put_self}
use os_codes.Xv6.Fs.Ownership.{addr_of, IsValid, Grow, Grow-refl, Grow-trans}
use os_codes.Xv6.Fs.Bmap.{
  addr_direct, addr_table, table_some, balloc_result, slot-SlotSpec, Given, new_direct, new_table,
  new_entry,
}

slot_direct :
    (ip : Inode) (v : Volume) (bn b : ℕ) (jp : Inode) (w : Volume)
    → IsValid ip v
    → bn < ndirect
    → slot ip bn v ≡ some (b, jp, w)
    → Given ip v bn b jp w
slot_direct ip v bn b jp w inv lt e = elim (slot-SlotSpec ip bn v b jp w e) [
  | inl (there_, same_b, same_ip, same_v) ↦
      subst (λ x. Given ip v bn b x w) (sym same_ip)
        (subst (λ x. Given ip v bn b ip x) (sym same_v)
          (Grow-refl ip v inv, (λ z. there_ (sym same_b ∙ z)), addr_direct ip v bn lt ∙ sym same_b))
  | inr (vacant, inside, free, same_ip, same_v) ↦
      subst (λ x. Given ip v bn b x w) (sym same_ip)
        (subst (λ x. Given ip v bn b (record ip { addrs = put ip.addrs bn b }) x) (sym same_v)
          (new_direct ip v inv b free bn lt vacant))
]

slot_table :
    (ip : Inode) (v : Volume) (a : ℕ) (jp : Inode) (w : Volume)
    → IsValid ip v
    → slot ip ndirect v ≡ some (a, jp, w)
    → Grow ip v jp w × (jp.addrs ndirect ≡ a) × (a ≢ 0)
slot_table ip v a jp w inv e = elim (slot-SlotSpec ip ndirect v a jp w e) [
  | inl (there_, same_b, same_ip, same_v) ↦ (
    subst (λ x. Grow ip v x w) (sym same_ip)
        (subst (λ x. Grow ip v ip x) (sym same_v) (Grow-refl ip v inv)),
    ap (λ (x : Inode). x.addrs ndirect) same_ip ∙ sym same_b,
    (λ z. there_ (sym same_b ∙ z)),
  )
  | inr (vacant, inside, free, same_ip, same_v) ↦ (
    subst (λ x. Grow ip v x w) (sym same_ip)
        (subst (λ x. Grow ip v (record ip { addrs = put ip.addrs ndirect a }) x) (sym same_v)
          (new_table ip v inv a free vacant)),
    ap (λ (x : Inode). x.addrs ndirect) same_ip ∙ put_self ip.addrs ndirect a,
    (λ z. cc (inv.reserved, free, ap v.used z)),
  )
]

entry-Given :
    (ip : Inode) (v : Volume) (a k b : ℕ) (jp : Inode) (w : Volume)
    → IsValid ip v
    → ip.addrs ndirect ≡ a
    → a ≢ 0
    → k < nindirect
    → entry a k ip v ≡ some (b, jp, w)
    → Given ip v (ndirect + k) b jp w
unfolding entry
entry-Given ip v a k b jp w inv is_table a_pos lt e = elim (ℕ_discrete (get_word (v.block a) k) 0) [
  | no there_ ↦
      let miss : (get_word (v.block a) k == 0) ≡ false = ground arith in
      let same = rw miss at e in
      let same_b : get_word (v.block a) k ≡ b = cc same in
      let index : ndirect + k - ndirect ≡ k = omega arith in
      subst (λ x. Given ip v (ndirect + k) b x w) (cc same)
        (subst (λ x. Given ip v (ndirect + k) b ip x) (cc same)
          (
            Grow-refl ip v inv,
            (λ z. there_ (same_b ∙ z)),
            addr_table ip v (ndirect + k) (omega arith)
                ∙ table_some ip v (ndirect + k - ndirect) a is_table a_pos
                ∙ ap (get_word (v.block a)) index
                ∙ same_b,
          ))
  | yes vacant ↦
      let hit : (get_word (v.block a) k == 0) ≡ true = ground arith in
      let ((x, u), got, rest) =
        >>=-eq-some (balloc v)
          (λ (b, w). some (b, ip, record w { block = put w.block a (set_word (w.block a) k b) }))
          (rw hit at e) in
      let (inside, free, new) = balloc_result v x u got in
      let x_b : x ≡ b = cc rest in
      let made = new_entry ip v inv x free a k is_table a_pos lt inside vacant in
      subst (λ y. Given ip v (ndirect + k) y jp w) x_b
        (subst (λ y. Given ip v (ndirect + k) x y w) (cc rest)
          (subst (λ y. Given ip v (ndirect + k) x ip y)
            (ap (λ (z : Volume). record z { block = put z.block a (set_word (z.block a) k x) })
                (sym new)
              ∙ cc rest)
            made))
]

pub bmap_low : (ip : Inode) (bn : ℕ) (v : Volume) → bn < ndirect → bmap ip bn v ≡ slot ip bn v
unfolding bmap
bmap_low ip bn v lt = let hit : ltb bn ndirect ≡ true = ground arith in rw hit

pub bmap_high :
    (ip : Inode) (bn : ℕ) (v : Volume)
    → ndirect ≤ bn
    → bn < max_file
    → bmap ip bn v ≡ (slot ip ndirect v >>= λ (a, jp, w). entry a (bn - ndirect) jp w)
unfolding bmap
bmap_high ip bn v le lt =
    let miss : ltb bn ndirect ≡ false = ground arith in
    let hit : ltb (bn - ndirect) nindirect ≡ true = ground arith in rw (miss, hit)

-- Where `bmap` does not run out of blocks, it gives the block of the part, which is now the file's; it
-- changes no byte of the file, and no block of another.
pub bmap-Given :
    (ip : Inode) (v : Volume) (bn b : ℕ) (jp : Inode) (w : Volume)
    → IsValid ip v
    → bn < max_file
    → bmap ip bn v ≡ some (b, jp, w)
    → Given ip v bn b jp w
bmap-Given ip v bn b jp w inv lt e = elim (dec_lt bn ndirect) [
  | yes low ↦ slot_direct ip v bn b jp w inv low (sym (bmap_low ip bn v low) ∙ e)
  | no high ↦
      let ((a, kp, u), got, rest) =
        >>=-eq-some (slot ip ndirect v) (λ (a, jp, w). entry a (bn - ndirect) jp w)
          (sym (bmap_high ip bn v (omega arith) lt) ∙ e) in
      let (grow, is_table, a_pos) = slot_table ip v a kp u inv got in
      let (more, b_pos, at) =
        entry-Given kp u a (bn - ndirect) b jp w grow.valid is_table a_pos (omega arith) rest in
      let index : ndirect + (bn - ndirect) ≡ bn = omega arith in
      (Grow-trans grow more, b_pos, ap (addr_of jp w) (sym index) ∙ at)
]
