-- ===== src/Xv6/Fs/Writing.antt =====
-- `writei`: each round stores a part of a block.
use os_codes.Common.{
  ℕ, ◌+◌, ◌-◌, ◌/◌, ◌%◌, ◌≤◌, ◌<◌, ◌≡◌, ◌≢◌, refl, sym, ap, ◌∙◌, false, ◌&&◌, ltb, leb,
  if◌then◌else◌, arith, ℕ_discrete, dec_lt, inl, inr, Bool-cases,
}
use os_codes.Xv6.Fs.{Inode, Volume, bsize, ndirect, max_file, put, copy}
use os_codes.Xv6.Fs.Words.{put_self, put_other}
use os_codes.Xv6.Fs.Ownership.{addr_of, byte_at, byte_at_none, byte_at_some, IsValid}
use os_codes.Xv6.Fs.Bmap.{table_same, addr_direct, addr_table}
use os_codes.Xv6.Fs.Content.{max_bytes, content, Written}

module _ (jp : Inode) (w : Volume) (inv : IsValid jp w) (off m tot b : ℕ) (src : ℕ → ℕ)
    (room : off < max_bytes) (at : addr_of jp w (off / bsize) ≡ b) (b_pos : b ≢ 0)
    (fits : off % bsize + m ≤ bsize) where
  abbrev stored : Volume
  stored = record w { block = put w.block b (copy src tot (w.block b) (off % bsize) m) }

  part : off / bsize < max_file
  part = omega arith

  stored_block : stored.block b ≡ copy src tot (w.block b) (off % bsize) m
  stored_block = put_self w.block b (copy src tot (w.block b) (off % bsize) m)

  other_block : (x : ℕ) → x ≢ b → stored.block x ≡ w.block x
  other_block x ne = put_other w.block b (copy src tot (w.block b) (off % bsize) m) x ne

  no_table : jp.addrs ndirect ≢ b
  no_table e = inv.apart (off / bsize) part (λ z. b_pos (sym at ∙ z)) (at ∙ sym e)

  parts_stay : (i : ℕ) → addr_of jp stored i ≡ addr_of jp w i
  parts_stay i = elim (dec_lt i ndirect) [
    | yes low ↦ addr_direct jp stored i low ∙ sym (addr_direct jp w i low)
    | no high ↦
        addr_table jp stored i (omega arith)
        ∙ table_same jp w jp stored (i - ndirect) refl
            (λ there_. other_block (jp.addrs ndirect) no_table)
        ∙ sym (addr_table jp w i (omega arith))
  ]

  stored-IsValid : IsValid jp stored
  stored-IsValid = record {
    reserved = inv.reserved;
    small = inv.small;
    parts_used = λ i lt there_.
        ap w.used (parts_stay i) ∙ inv.parts_used i lt (λ e. there_ (parts_stay i ∙ e));
    table_used = inv.table_used;
    distinct = λ i j lt_i lt_j differ there_ e.
        inv.distinct i j lt_i lt_j differ (λ z. there_ (parts_stay i ∙ z))
          (sym (parts_stay i) ∙ e ∙ parts_stay j);
    apart =
        λ i lt there_ e. inv.apart i lt (λ z. there_ (parts_stay i ∙ z)) (sym (parts_stay i) ∙ e);
  }

  -- Bytes of the part that is written, and of the others.
  this_part :
      (y : ℕ) → byte_at jp stored (off / bsize) y ≡ copy src tot (w.block b) (off % bsize) m y
  this_part y =
      byte_at_some jp stored (off / bsize) y b (parts_stay (off / bsize) ∙ at) b_pos
      ∙ ap (λ (f : ℕ → ℕ). f y) stored_block

  other_part : (i y : ℕ) → i < max_file → i ≢ off / bsize → byte_at jp stored i y ≡ byte_at jp w i y
  other_part i y lt ne = elim (ℕ_discrete (addr_of jp w i) 0) [
    | yes none_there ↦
        byte_at_none jp stored i y (parts_stay i ∙ none_there)
        ∙ sym (byte_at_none jp w i y none_there)
    | no there_ ↦
        let differ : addr_of jp w i ≢ b =
          λ e. inv.distinct i (off / bsize) lt part ne there_ (e ∙ sym at) in
        byte_at_some jp stored i y (addr_of jp w i) (parts_stay i) there_
        ∙ ap (λ (f : ℕ → ℕ). f y) (other_block (addr_of jp w i) differ)
        ∙ sym (byte_at_some jp w i y (addr_of jp w i) refl there_)
  ]

  content-stored :
      (x : ℕ)
      → x < max_bytes
      → content jp stored x
        ≡ (if leb off x && ltb x (off + m) then src (tot + (x - off)) else content jp w x)
  unfolding content
  content-stored x lt = elim (ℕ_discrete (x / bsize) (off / bsize)) [
    | no other ↦
        let outside : (leb off x && ltb x (off + m)) ≡ false = ground arith in
        other_part (x / bsize) (x % bsize) (omega arith) other ∙ sym (rw outside)
    | yes here_ ↦
        let test : (leb (off % bsize) (x % bsize) && ltb (x % bsize) (off % bsize + m))
            ≡ (leb off x && ltb x (off + m)) =
          ground arith in
        let old : w.block b (x % bsize) ≡ byte_at jp w (x / bsize) (x % bsize) =
          sym (byte_at_some jp w (x / bsize) (x % bsize) b (ap (addr_of jp w) here_ ∙ at) b_pos) in
        ap (λ i. byte_at jp stored i (x % bsize)) here_
        ∙ this_part (x % bsize)
        ∙ elim (Bool-cases (leb off x && ltb x (off + m))) [
          | inl inside ↦
              let place : x % bsize - off % bsize ≡ x - off = ground (arith, inside) in
              rw (test, inside, place)
          | inr outside ↦ rw (test, outside) old
        ]
  ]

  pub store-Written : Written jp w jp stored src off tot m
  store-Written = record {
    valid = stored-IsValid;
    foreign = λ x f.
        let (used, apart, no_part) = f in
        (
          (used, apart, λ i lt e. no_part i lt (sym (parts_stay i) ∙ e)),
          other_block x (λ e. no_part (off / bsize) part (at ∙ sym e)),
        );
    bytes = content-stored;
    mapped = λ x le lt e.
        let same : x / bsize ≡ off / bsize = omega arith in
        b_pos (sym at ∙ ap (addr_of jp w) (sym same) ∙ sym (parts_stay (x / bsize)) ∙ e);
    kept = λ i lt there_. parts_stay i;
    fields = refl;
    disk_inodes = refl;
    disk_size = refl;
  }
