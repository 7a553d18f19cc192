-- ===== src/Xv6/Fs/Space.antt =====
-- With enough free blocks, `writei` does not stop: neither for want of a block nor for want of rounds.
use os_codes.Common.{
  ℕ, zero, suc, ◌+◌, ◌-◌, ◌*◌, ◌/◌, ◌%◌, ◌≤◌, ◌<◌, ◌≡◌, refl, sym, ap, ◌∙◌, subst, Bool, true,
  false, ◌&&◌, Option, none, some, ◌>>=◌, ltb, ◌==◌, if◌then◌else◌, arith, ℕ_discrete, dec_lt, inl,
  inr, Bool-cases,
}
use os_codes.Xv6.Fs.{
  Inode, Volume, bsize, ndirect, max_file, put, copy, chunk, balloc, slot, entry, bmap, write_from,
  writei, grow, iupdate, WriteResult, word, get_word, set_word,
}
use os_codes.Xv6.Fs.Words.{put_self, put_other}
use os_codes.Xv6.Fs.Free.{Allocated, balloc-Allocated}
use os_codes.Xv6.Fs.Parts.{bmap_low, bmap_high}
use os_codes.Xv6.Fs.Rounds.{chunk_bounds}
use os_codes.Xv6.Fs.Content.{max_bytes}

-- The free blocks below `k`.
abbrev pub free_below : (ℕ → Bool) → ℕ → ℕ
free_below used zero = 0
free_below used (suc k) = if used k then free_below used k else suc (free_below used k)

abbrev pub free_blocks : Volume → ℕ
free_blocks v = free_below v.used v.size

free_below_none :
    (used : ℕ → Bool) (k : ℕ) → ((x : ℕ) → x < k → used x ≡ true) → free_below used k ≡ 0
free_below_none used zero all = refl
free_below_none used (suc k) all =
    rw (all k (omega arith)) (free_below_none used k (λ x lt. all x (omega arith)))

free_below_past :
    (used : ℕ → Bool) (b k : ℕ) → k ≤ b → free_below (put used b true) k ≡ free_below used k
free_below_past used b zero le = refl
free_below_past used b (suc k) le =
    rw (put_other used b true k (λ e. omega (arith, e)), free_below_past used b k (omega arith))

free_below_taken :
    (used : ℕ → Bool) (b k : ℕ)
    → b < k
    → used b ≡ false
    → suc (free_below (put used b true) k) ≡ free_below used k
free_below_taken used b zero lt free = absurd (omega arith)
free_below_taken used b (suc k) lt free = elim (ℕ_discrete k b) [
  | yes here_ ↦
      let now : put used b true k ≡ true = ap (put used b true) here_ ∙ put_self used b true in
      let before : used k ≡ false = ap used here_ ∙ free in
      rw (now, before, free_below_past used b k (omega arith))
  | no other ↦
      let ih = free_below_taken used b k (omega arith) free in
      let old = put_other used b true k other in
      elim (Bool-cases (used k)) [ inl u ↦ rw (old, u) ih | inr f ↦ rw (old, f) (ap suc ih) ]
]

-- A call that takes at most `n` blocks.
abbrev pub Takes : ℕ → Volume → Volume → Type 0
Takes n v w = (w.size ≡ v.size) × (free_blocks v ≤ free_blocks w + n)

balloc_total :
    (v : Volume)
    → 0 < free_blocks v
    → (b : ℕ) × (w : Volume) × (balloc v ≡ some (b, w)) × Takes 1 v w
balloc_total v some_free = go (balloc v) refl (balloc-Allocated v)
  where
    go :
        (r : Option (ℕ × Volume))
        → balloc v ≡ r
        → Allocated v r
        → (b : ℕ) × (w : Volume) × (balloc v ≡ some (b, w)) × Takes 1 v w
    go none e all =
        let full = free_below_none v.used v.size (λ x lt. all x (omega arith) lt lt) in
        absurd (omega (arith, full))
    go (some (b, w)) e (lt, free, before, same) =
        let less = free_below_taken v.used b v.size lt free in
        (
          b,
          w,
          e,
          (
            ap (λ (z : Volume). z.size) same,
            subst (λ (z : Volume). free_blocks v ≤ free_blocks z + 1) (sym same)
                (omega (arith, less)),
          ),
        )

slot_total :
    (ip : Inode) (bn : ℕ) (v : Volume)
    → 0 < free_blocks v
    → (b : ℕ) × (jp : Inode) × (w : Volume) × (slot ip bn v ≡ some (b, jp, w)) × Takes 1 v w
unfolding slot
slot_total ip bn v some_free = elim (Bool-cases (ip.addrs bn == 0)) [
  | inr there_ ↦ (ip.addrs bn, ip, v, rw there_, (refl, omega arith))
  | inl vacant ↦
      let (b, w, got, takes) = balloc_total v some_free in
      (b, record ip { addrs = put ip.addrs bn b }, w, rw (vacant, got), takes)
]

entry_total :
    (a k : ℕ) (ip : Inode) (v : Volume)
    → 0 < free_blocks v
    → (b : ℕ) × (jp : Inode) × (w : Volume) × (entry a k ip v ≡ some (b, jp, w)) × Takes 1 v w
unfolding entry
entry_total a k ip v some_free = elim (Bool-cases (get_word (v.block a) k == 0)) [
  | inr there_ ↦ (get_word (v.block a) k, ip, v, rw there_, (refl, omega arith))
  | inl vacant ↦
      let (b, w, got, takes) = balloc_total v some_free in
      (
        b,
        ip,
        record w { block = put w.block a (set_word (w.block a) k b) },
        rw (vacant, got),
        takes,
      )
]

bmap_total :
    (ip : Inode) (bn : ℕ) (v : Volume)
    → bn < max_file
    → 2 ≤ free_blocks v
    → (b : ℕ) × (jp : Inode) × (w : Volume) × (bmap ip bn v ≡ some (b, jp, w)) × Takes 2 v w
bmap_total ip bn v lt free = elim (dec_lt bn ndirect) [
  | yes low ↦
      let (b, jp, w, got, (same, takes)) = slot_total ip bn v (omega arith) in
      (b, jp, w, bmap_low ip bn v low ∙ got, (same, omega arith))
  | no high ↦
      let (a, jp, w, got, (same, takes)) = slot_total ip ndirect v (omega arith) in
      let (b, kp, u, got', (same', takes')) = entry_total a (bn - ndirect) jp w (omega arith) in
      (
        b,
        kp,
        u,
        bmap_high ip bn v (omega arith) lt
            ∙ ap (λ r. r >>= λ (a, jp, w). entry a (bn - ndirect) jp w) got
            ∙ got',
        (same' ∙ same, omega arith),
      )
]

-- The rounds of `writei`.
write_from_total :
    (fuel : ℕ) (ip : Inode) (v : Volume) (off tot left : ℕ) (src : ℕ → ℕ)
    → left ≤ fuel
    → off + left ≤ max_bytes
    → 2 * left ≤ free_blocks v
    → (jp : Inode) × (w : Volume) × (write_from fuel ip v off tot left src
        ≡ some (off + left, jp, w))
      × Takes (2 * left) v w
unfolding write_from
write_from_total zero ip v off tot zero src enough room free =
    let same : off + 0 ≡ off = omega arith in (ip, v, (rw same), (refl, omega arith))
write_from_total (suc fuel) ip v off tot zero src enough room free =
    let same : off + 0 ≡ off = omega arith in (ip, v, (rw same), (refl, omega arith))
write_from_total zero ip v off tot (suc left) src enough room free = absurd (omega arith)
write_from_total (suc fuel) ip v off tot (suc left) src enough room free =
    let (b, kp, u, mapped, (same, takes)) =
      bmap_total ip (off / bsize) v (omega arith) (omega arith) in
    let (progress, le, fits) = chunk_bounds (suc left) off (omega arith) in
    let m : ℕ = chunk (suc left) off in
    let (jp, w, rest, (same_rest, takes_rest)) =
      write_from_total fuel kp
        (record u { block = put u.block b (copy src tot (u.block b) (off % bsize) m) }) (off + m)
        (tot + m) (suc left - m) src (omega (arith, progress, le)) (omega (arith, progress, le))
        (omega (arith, progress, le, takes)) in
    let end : off + m + (suc left - m) ≡ off + suc left = omega (arith, le) in
    (
      jp,
      w,
      rw mapped (rest ∙ ap (λ (n : ℕ). some (n, jp, w)) end),
      (same_rest ∙ same, omega (arith, progress, le, takes, takes_rest)),
    )

grow_total :
    (n off : ℕ) (ip : Inode) (v : Volume)
    → (jp : Inode) × (w : Volume) × (grow n off ip v ≡ WriteResult.returned n jp w) × Takes 0 v w
unfolding grow iupdate
grow_total n off ip v = elim (Bool-cases (ltb 0 n && ltb ip.size off)) [
  | inl longer ↦ (
    record ip { size = off },
    iupdate (record ip { size = off }) v,
    (rw longer),
    (refl, omega arith),
  )
  | inr same ↦ (ip, v, (rw same), (refl, omega arith))
]

-- `writei` within the largest size, and the free blocks that it leaves.
pub writei-Takes :
    (ip : Inode) (v : Volume) (src : ℕ → ℕ) (off n : ℕ)
    → off ≤ ip.size
    → off + n ≤ max_bytes
    → 2 * n ≤ free_blocks v
    → (jp : Inode) × (w : Volume) × (writei ip v src off n ≡ some (WriteResult.returned n jp w))
      × Takes (2 * n) v w
unfolding writei
writei-Takes ip v src off n inside room free =
    let (jp, w, wrote, (same, takes)) =
      write_from_total n ip v off 0 n src (omega arith) room free in
    let test : ltb ip.size off ≡ false = ground arith in
    let wrap : (off + n) % word ≡ off + n = omega arith in
    let test' : ltb (off + n) off ≡ false = ground arith in
    let test'' : ltb max_bytes (off + n) ≡ false = ground arith in
    let (kp, u, grown, (same', takes')) = grow_total n (off + n) jp w in
    (
      kp,
      u,
      rw (test, wrap, test', test'', wrote) (ap some grown),
      (same' ∙ same, omega (arith, takes, takes')),
    )

-- `writei` returns the count for every write that starts inside the file or at its end and ends within
-- the largest size, if two blocks are free for each byte. Size and count are below 2^32.
pub writei_total :
    (ip : Inode) (v : Volume) (src : ℕ → ℕ) (off n : ℕ)
    → off ≤ ip.size
    → off + n ≤ max_bytes
    → 2 * n ≤ free_blocks v
    → (jp : Inode) × (w : Volume) × (writei ip v src off n ≡ some (WriteResult.returned n jp w))
writei_total ip v src off n inside room free =
    let (jp, w, e, takes) = writei-Takes ip v src off n inside room free in (jp, w, e)
