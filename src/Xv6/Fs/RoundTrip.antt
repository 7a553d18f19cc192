-- ===== src/Xv6/Fs/RoundTrip.antt =====
-- `readi` gives back what `writei` wrote.
use os_codes.Common.{
  ℕ, ◌+◌, ◌-◌, ◌/◌, ◌%◌, ◌≤◌, ◌<◌, ◌≡◌, ◌≢◌, sym, ap, ◌∙◌, subst, true, false, ◌&&◌, some, ◌>>=◌,
  ltb, leb, if◌then◌else◌, arith, inl, inr, >>=-eq-some, Bool-cases, dec_lt,
}
use os_codes.Xv6.Fs.{
  Inode, Volume, bsize, max_file, write_from, read_from, readi, writei, grow, ReadResult,
  WriteResult, word, iupdate,
}
use os_codes.Xv6.Fs.Ownership.{addr_of, IsValid, Foreign}
use os_codes.Xv6.Fs.Content.{max_bytes, content, Written, two_writes}
use os_codes.Xv6.Fs.Rounds.{write_from-Written}
use os_codes.Xv6.Fs.Reading.{read_from-Holds}

-- The file and the disk after a write of `n` bytes at `off` that leaves the size `size`.
pub record Wrote (ip : Inode) (v : Volume) (jp : Inode) (w : Volume) (src : ℕ → ℕ) (off n : ℕ)
    : Type 0 where
  pub valid : IsValid jp w
  pub size : jp.size ≡ (if ltb 0 n && ltb ip.size (off + n) then off + n else ip.size)
  pub bytes :
      (x : ℕ)
      → x < max_bytes
      → content jp w x ≡ (if leb off x && ltb x (off + n) then src (x - off) else content ip v x)
  pub mapped : (x : ℕ) → off ≤ x → x < off + n → addr_of jp w (x / bsize) ≢ 0
  pub kept : (i : ℕ) → i < max_file → addr_of ip v i ≢ 0 → addr_of jp w i ≡ addr_of ip v i
  pub fields : jp ≡ record ip { size = jp.size; addrs = jp.addrs }
  pub foreign : (x : ℕ) → Foreign ip v x → Foreign jp w x × (w.block x ≡ v.block x)

-- The end of `writei` changes the size only.
resized-IsValid :
    (jp : Inode) (w : Volume) (size : ℕ)
    → IsValid jp w
    → IsValid (record jp { size = size }) (iupdate (record jp { size = size }) w)
unfolding addr_of iupdate
resized-IsValid jp w size inv = record {
  reserved = inv.reserved;
  small = inv.small;
  parts_used = inv.parts_used;
  table_used = inv.table_used;
  distinct = inv.distinct;
  apart = inv.apart;
}

Written-Wrote :
    (ip : Inode) (v : Volume) (jp : Inode) (w : Volume) (src : ℕ → ℕ) (off n : ℕ)
    → Written ip v jp w src off 0 n
    → (kp : Inode) × (u : Volume) × (grow n (off + n) jp w ≡ WriteResult.returned n kp u)
      × Wrote ip v kp u src off n
unfolding grow content addr_of iupdate
Written-Wrote ip v jp w src off n h = elim (Bool-cases (ltb 0 n && ltb jp.size (off + n))) [
  | inl longer ↦ (
    record jp { size = off + n },
    iupdate (record jp { size = off + n }) w,
    rw longer,
    record {
      valid = resized-IsValid jp w (off + n) h.valid;
      size = sym (rw (sym same_size, longer));
      bytes = λ x lt. h.bytes x lt ∙ from_start x;
      mapped = h.mapped;
      kept = h.kept;
      fields = ap (λ (z : Inode). record z { size = off + n; addrs = jp.addrs }) h.fields;
      foreign = h.foreign;
    },
  )
  | inr not_longer ↦ (
    jp,
    w,
    rw not_longer,
    record {
      valid = h.valid;
      size = same_size ∙ sym (rw (sym same_size, not_longer));
      bytes = λ x lt. h.bytes x lt ∙ from_start x;
      mapped = h.mapped;
      kept = h.kept;
      fields = ap (λ (z : Inode). record z { size = jp.size; addrs = jp.addrs }) h.fields;
      foreign = h.foreign;
    },
  )
]
  where
    same_size : jp.size ≡ ip.size
    same_size = ap (λ (z : Inode). z.size) h.fields

    from_start :
        (x : ℕ)
        → (if leb off x && ltb x (off + n) then src (0 + (x - off)) else content ip v x)
          ≡ (if leb off x && ltb x (off + n) then src (x - off) else content ip v x)
    from_start x = let start : 0 + (x - off) ≡ x - off = omega arith in rw start

-- A write and one behind it are one write.
pub Wrote-trans :
    (ip : Inode) (v : Volume) (jp : Inode) (w : Volume) (kp : Inode) (u : Volume) (src : ℕ → ℕ)
    (off m n : ℕ)
    → off + m + n ≤ max_bytes
    → Wrote ip v jp w src off m
    → Wrote jp w kp u (λ z. src (m + z)) (off + m) n
    → Wrote ip v kp u src off (m + n)
Wrote-trans ip v jp w kp u src off m n room g h = record {
  valid = h.valid;
  size = ground (arith, g.size, h.size);
  bytes = λ x lt.
      let start : 0 + (x - off) ≡ x - off = omega arith in
      let start' : 0 + m ≡ m = omega arith in
      rw start at (
        two_writes src off 0 m n x (content ip v x) (content jp w x) (content kp u x)
          (rw start (g.bytes x lt)) (rw start' (h.bytes x lt)));
  mapped = λ x le lt e. elim (dec_lt x (off + m)) [
    | yes first ↦
        let there_ = g.mapped x le first in
        there_ (sym (h.kept (x / bsize) (omega arith) there_) ∙ e)
    | no later ↦ h.mapped x (omega arith) (omega arith) e
  ];
  kept =
      λ i lt there_. h.kept i lt (λ e. there_ (sym (g.kept i lt there_) ∙ e)) ∙ g.kept i lt there_;
  fields = h.fields ∙ ap (λ (z : Inode). record z { size = kp.size; addrs = kp.addrs }) g.fields;
  foreign = λ x f. let (f', e) = g.foreign x f in let (f'', e') = h.foreign x f' in (f'', e' ∙ e);
}

-- The tests of `writei`.
accepted :
    (ip : Inode) (v : Volume) (src : ℕ → ℕ) (off n k : ℕ) (jp : Inode) (w : Volume)
    → writei ip v src off n ≡ some (WriteResult.returned k jp w)
    → (ltb ip.size off ≡ false)
      × (ltb ((off + n) % word) off ≡ false)
      × (ltb max_bytes ((off + n) % word) ≡ false)
      × ((write_from n ip v off 0 n src >>= λ (end_off, kp, u). some (grow n end_off kp u))
          ≡ some (WriteResult.returned k jp w))
unfolding writei
accepted ip v src off n k jp w e = elim (Bool-cases (ltb ip.size off)) [
  | inl past ↦ absurd (cc (rw past at e))
  | inr inside ↦ elim (Bool-cases (ltb ((off + n) % word) off)) [
    | inl wraps ↦ absurd (cc (rw (inside, wraps) at e))
    | inr no_wrap ↦ elim (Bool-cases (ltb max_bytes ((off + n) % word))) [
      | inl long ↦ absurd (cc (rw (inside, no_wrap, long) at e))
      | inr fits ↦ (inside, no_wrap, fits, rw (inside, no_wrap, fits) at e)
    ]
  ]
]

-- Where `writei` neither refuses nor runs out of blocks, it returns the count, the bytes of the file from
-- `off` on are those of `src`, the size covers them, and no other byte of the file and no block of
-- another is changed. Size and count are below 2^32.
pub writei-Wrote :
    (ip : Inode) (v : Volume) (src : ℕ → ℕ) (off n k : ℕ) (jp : Inode) (w : Volume)
    → IsValid ip v
    → ip.size < word
    → n < word
    → writei ip v src off n ≡ some (WriteResult.returned k jp w)
    → (k ≡ n) × (off + n ≤ max_bytes) × Wrote ip v jp w src off n
writei-Wrote ip v src off n k jp w inv size_word n_word e =
    let (inside, no_wrap, fits, rest) = accepted ip v src off n k jp w e in
    let room : off + n ≤ max_bytes = ground arith in
    let ((end_off, kp, u), wrote, result) =
      >>=-eq-some (write_from n ip v off 0 n src) (λ (end_off, kp, u). some (grow n end_off kp u))
        rest in
    let (written, same_end) = write_from-Written n src ip v off 0 n end_off kp u inv room wrote in
    let (lp, x, grown, all) = Written-Wrote ip v kp u src off n written in
    let same : some (WriteResult.returned n lp x) ≡ some (WriteResult.returned k jp w) =
      ap some (sym grown ∙ ap (λ o. grow n o kp u) (sym same_end)) ∙ result in
    let same_ip : lp ≡ jp = cc same in
    let same_v : x ≡ w = cc same in
    (
      cc same,
      room,
      subst (λ y. Wrote ip v y w src off n) same_ip
          (subst (λ y. Wrote ip v lp y src off n) same_v all),
    )

pub readi_inside :
    (ip : Inode) (v : Volume) (dst d : ℕ → ℕ) (off n : ℕ)
    → off + n ≤ ip.size
    → off + n < word
    → read_from n ip v off 0 n dst ≡ some (ip, v, d)
    → readi ip v dst off n ≡ some (ReadResult.returned n ip v d)
unfolding readi
readi_inside ip v dst d off n inside room e =
    let test : ltb ip.size off ≡ false = ground arith in
    let wrap : (off + n) % word ≡ off + n = omega arith in
    let test' : ltb (off + n) off ≡ false = ground arith in
    let test'' : ltb ip.size (off + n) ≡ false = ground arith in rw (test, wrap, test', test'', e)

-- What `writei` wrote, `readi` gives back, into any memory. Size and count are below 2^32.
pub readi-writei :
    (ip : Inode) (v : Volume) (src dst : ℕ → ℕ) (off n k : ℕ) (jp : Inode) (w : Volume)
    → IsValid ip v
    → ip.size < word
    → n < word
    → writei ip v src off n ≡ some (WriteResult.returned k jp w)
    → (d : ℕ → ℕ) × (readi jp w dst off n ≡ some (ReadResult.returned n jp w d))
      × ((z : ℕ) → z < n → d z ≡ src z)
readi-writei ip v src dst off n k jp w inv size_word n_word e =
    let (same, room, wrote) = writei-Wrote ip v src off n k jp w inv size_word n_word e in
    let (inside, no_wrap, fits, rest) = accepted ip v src off n k jp w e in
    let (d, result, holds) = read_from-Holds n jp w off 0 n dst (omega arith) room wrote.mapped in
    let covered : off + n ≤ jp.size = ground (arith, wrote.size) in
    (
      d,
      readi_inside jp w dst d off n covered (omega arith) result,
      λ z lt.
          let here_ : (leb 0 z && ltb z (0 + n)) ≡ true = ground arith in
          let there_ : (leb off (off + (z - 0)) && ltb (off + (z - 0)) (off + n)) ≡ true =
            ground arith in
          let place : off + (z - 0) - off ≡ z = omega arith in
          (rw here_ at (holds z))
          ∙ wrote.bytes (off + (z - 0)) (omega arith)
          ∙ (rw (there_, place)),
    )
