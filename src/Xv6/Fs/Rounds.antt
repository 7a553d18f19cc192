-- ===== src/Xv6/Fs/Rounds.antt =====
-- The rounds of `writei` together.
use os_codes.Common.{
  ℕ, zero, suc, ◌+◌, ◌-◌, ◌/◌, ◌%◌, ◌≤◌, ◌<◌, ◌≡◌, ◌≢◌, subst, some, arith, >>=-eq-some,
}
use os_codes.Xv6.Fs.{Inode, Volume, bsize, put, copy, chunk, bmap, write_from, grow}
use os_codes.Xv6.Fs.Ownership.{IsValid, Grow-refl}
use os_codes.Xv6.Fs.Bmap.{Given}
use os_codes.Xv6.Fs.Parts.{bmap-Given}
use os_codes.Xv6.Fs.Content.{max_bytes, Written, Grow-Written, Written-trans}
use os_codes.Xv6.Fs.Writing.{store-Written}

-- A round copies at least a byte, no more than is left, and stays inside the block.
pub chunk_bounds :
    (left off : ℕ)
    → 0 < left
    → (0 < chunk left off) × (chunk left off ≤ left) × (off % bsize + chunk left off ≤ bsize)
chunk_bounds left off h = ground arith

-- The volume after a round that stores `m` bytes in block `b`.
abbrev after_round : Volume → ℕ → (ℕ → ℕ) → ℕ → ℕ → ℕ → Volume
after_round u b src tot off m = record u {
  block = put u.block b (copy src tot (u.block b) (off % bsize) m);
}

round-Written :
    (ip : Inode) (v : Volume) (kp : Inode) (u : Volume) (off m tot n b : ℕ) (src : ℕ → ℕ)
    (jp : Inode) (w : Volume)
    → off < max_bytes
    → off + m + n ≤ max_bytes
    → off % bsize + m ≤ bsize
    → Given ip v (off / bsize) b kp u
    → Written kp (after_round u b src tot off m) jp w src (off + m) (tot + m) n
    → Written ip v jp w src off tot (m + n)
round-Written ip v kp u off m tot n b src jp w inside room fits (grow, b_pos, at) rest =
    let stored = store-Written kp u grow.valid off m tot b src inside at b_pos fits in
    let before = Grow-Written ip v kp u src off tot grow in
    let zero_off : off + 0 ≡ off = omega arith in
    let zero_tot : tot + 0 ≡ tot = omega arith in
    let first =
      Written-trans ip v kp u kp (after_round u b src tot off m) src off tot 0 m (omega arith)
        before (rw (zero_off, zero_tot) stored) in
    let zero_m : 0 + m ≡ m = omega arith in
    Written-trans ip v kp (after_round u b src tot off m) jp w src off tot m n room
      (rw zero_m at first) rest

write_done :
    (fuel : ℕ) (ip : Inode) (v : Volume) (off tot : ℕ) (src : ℕ → ℕ) (e : ℕ) (jp : Inode)
    (w : Volume)
    → write_from fuel ip v off tot 0 src ≡ some (e, jp, w)
    → (off ≡ e) × (ip ≡ jp) × (v ≡ w)
unfolding write_from
write_done zero ip v off tot src e jp w result = (cc result, cc result, cc result)
write_done (suc fuel) ip v off tot src e jp w result = (cc result, cc result, cc result)

write_round :
    (fuel : ℕ) (ip : Inode) (v : Volume) (off tot left : ℕ) (src : ℕ → ℕ) (r : ℕ × Inode × Volume)
    → write_from (suc fuel) ip v off tot (suc left) src ≡ some r
    → (b : ℕ) × (kp : Inode) × (u : Volume) × (bmap ip (off / bsize) v ≡ some (b, kp, u))
      × (write_from fuel kp
            (after_round u b src tot off (chunk (suc left) off))
            (off + chunk (suc left) off)
            (tot + chunk (suc left) off)
            (suc left - chunk (suc left) off)
            src
          ≡ some r)
unfolding write_from
write_round fuel ip v off tot left src r e =
    let ((b, kp, u), mapped, rest) =
      >>=-eq-some (bmap ip (off / bsize) v)
        (λ (b, jp, w).
          write_from fuel jp (after_round w b src tot off (chunk (suc left) off))
            (off + chunk (suc left) off) (tot + chunk (suc left) off)
            (suc left - chunk (suc left) off) src)
        e in
    (b, kp, u, mapped, rest)

stopped :
    (ip : Inode) (v : Volume) (off tot left : ℕ) (src : ℕ → ℕ) (r : ℕ × Inode × Volume)
    → write_from 0 ip v off tot (suc left) src ≢ some r
unfolding write_from
stopped ip v off tot left src r e = cc e

-- What `fuel` rounds of `writei` do.
abbrev Writes : ℕ → (ℕ → ℕ) → Type 0
Writes fuel src =
    (ip : Inode) (v : Volume) (off tot left e : ℕ) (jp : Inode) (w : Volume)
    → IsValid ip v
    → off + left ≤ max_bytes
    → write_from fuel ip v off tot left src ≡ some (e, jp, w)
    → Written ip v jp w src off tot left × (e ≡ off + left)

one_more :
    (fuel : ℕ) (src : ℕ → ℕ) (ip : Inode) (v : Volume) (off tot left e : ℕ) (jp : Inode)
    (w : Volume) (b : ℕ) (kp : Inode) (u : Volume) (m : ℕ)
    → Writes fuel src
    → off < max_bytes
    → off + left ≤ max_bytes
    → Given ip v (off / bsize) b kp u
    → m ≤ left
    → off % bsize + m ≤ bsize
    → write_from fuel kp (after_round u b src tot off m) (off + m) (tot + m) (left - m) src
      ≡ some (e, jp, w)
    → Written ip v jp w src off tot left × (e ≡ off + left)
one_more fuel src ip v off tot left e jp w b kp u m ih inside room given le fits more =
    let (grow, b_pos, at) = given in
    let stored = store-Written kp u grow.valid off m tot b src inside at b_pos fits in
    let (rest, end) =
      ih kp (after_round u b src tot off m) (off + m) (tot + m) (left - m) e jp w stored.valid
        (omega arith) more in
    let whole : m + (left - m) ≡ left = omega arith in
    (
      rw whole at (
          round-Written ip v kp u off m tot (left - m) b src jp w inside (omega arith) fits given
            rest),
      omega (arith, end),
    )

-- The rounds of `writei` write what is left.
pub write_from-Written : (fuel : ℕ) (src : ℕ → ℕ) → Writes fuel src
write_from-Written fuel src ip v off tot zero e jp w inv room result =
    let (same_off, same_ip, same_v) = write_done fuel ip v off tot src e jp w result in
    let nothing = Grow-Written ip v ip v src off tot (Grow-refl ip v inv) in
    (
      subst (λ (x : Inode). Written ip v x w src off tot 0) same_ip
          (subst (λ (x : Volume). Written ip v ip x src off tot 0) same_v nothing),
      omega arith,
    )
write_from-Written zero src ip v off tot (suc left) e jp w inv room result =
    absurd (stopped ip v off tot left src (e, jp, w) result)
write_from-Written (suc fuel) src ip v off tot (suc left) e jp w inv room result =
    let (b, kp, u, mapped, more) = write_round fuel ip v off tot left src (e, jp, w) result in
    let (progress, le, fits) = chunk_bounds (suc left) off (omega arith) in
    let given = bmap-Given ip v (off / bsize) b kp u inv (omega arith) mapped in
    one_more fuel src ip v off tot (suc left) e jp w b kp u (chunk (suc left) off)
      (write_from-Written fuel src) (omega arith) room given le fits more
