-- ===== src/Xv6/Fs/Content.antt =====
-- What a file holds, byte by byte, and what the loop of `writei` makes of it.
use os_codes.Common.{
  ℕ, ◌+◌, ◌-◌, ◌/◌, ◌%◌, ◌≤◌, ◌<◌, ◌≡◌, ◌≢◌, sym, ap, ◌∙◌, false, ◌&&◌, ltb, leb, if◌then◌else◌,
  arith, dec_lt,
}
use os_codes.Xv6.Fs.{Inode, Volume, bsize, max_file}
use os_codes.Xv6.Fs.Ownership.{addr_of, byte_at, IsValid, Foreign, Grow}

-- The bytes of the largest file.
abbrev pub max_bytes : ℕ
max_bytes = 71680

-- Byte `x` of a file, which is 0 where the file has no block.
unfoldable pub content : Inode → Volume → ℕ → ℕ
content ip v x = byte_at ip v (x / bsize) (x % bsize)

-- The `len` bytes of `src` from `tot` on stand at `off` in the file, and no other byte of it or of another
-- file is changed.
pub record Written (ip : Inode) (v : Volume) (jp : Inode) (w : Volume) (src : ℕ → ℕ)
    (off tot len : ℕ) : Type 0 where
  pub valid : IsValid jp w
  pub foreign : (x : ℕ) → Foreign ip v x → Foreign jp w x × (w.block x ≡ v.block x)
  pub bytes :
      (x : ℕ)
      → x < max_bytes
      → content jp w x
        ≡ (if leb off x && ltb x (off + len) then src (tot + (x - off)) else content ip v x)
  pub mapped : (x : ℕ) → off ≤ x → x < off + len → addr_of jp w (x / bsize) ≢ 0
  pub kept : (i : ℕ) → i < max_file → addr_of ip v i ≢ 0 → addr_of jp w i ≡ addr_of ip v i
  pub fields : jp ≡ record ip { addrs = jp.addrs }
  pub disk_inodes : w.inodes ≡ v.inodes
  pub disk_size : w.size ≡ v.size

pub Grow-Written :
    (ip : Inode) (v : Volume) (jp : Inode) (w : Volume) (src : ℕ → ℕ) (off tot : ℕ)
    → Grow ip v jp w
    → Written ip v jp w src off tot 0
unfolding content
Grow-Written ip v jp w src off tot grow = record {
  valid = grow.valid;
  foreign = grow.foreign;
  bytes = λ x lt.
      let out : (leb off x && ltb x (off + 0)) ≡ false = ground arith in
      rw out (grow.same (x / bsize) (x % bsize) (omega arith));
  mapped = λ x le lt. absurd (omega arith);
  kept = grow.kept;
  fields = grow.fields;
  disk_inodes = grow.disk_inodes;
  disk_size = grow.disk_size;
}

-- A write followed by one behind it.
pub two_writes :
    (src : ℕ → ℕ) (off tot m n x a b c : ℕ)
    → b ≡ (if leb off x && ltb x (off + m) then src (tot + (x - off)) else a)
    → c ≡ (if leb (off + m) x && ltb x (off + m + n) then src (tot + m + (x - (off + m))) else b)
    → c ≡ (if leb off x && ltb x (off + (m + n)) then src (tot + (x - off)) else a)
two_writes src off tot m n x a b c e f = elim (dec_lt x (off + m)) [
  | yes first ↦
      let second : (leb (off + m) x && ltb x (off + m + n)) ≡ false = ground arith in
      let same : ltb x (off + (m + n)) ≡ ltb x (off + m) = ground arith in
      rw same ((rw second at f) ∙ e)
  | no later ↦
      let not_first : (leb off x && ltb x (off + m)) ≡ false = ground arith in
      let old : b ≡ a = rw not_first at e in
      let test : (leb (off + m) x && ltb x (off + m + n)) ≡ (leb off x && ltb x (off + (m + n))) =
        ground arith in
      let place : tot + m + (x - (off + m)) ≡ tot + (x - off) = omega arith in
      rw (test, place, old) at f
]

pub Written-trans :
    (ip : Inode) (v : Volume) (jp : Inode) (w : Volume) (kp : Inode) (u : Volume) (src : ℕ → ℕ)
    (off tot m n : ℕ)
    → off + m + n ≤ max_bytes
    → Written ip v jp w src off tot m
    → Written jp w kp u src (off + m) (tot + m) n
    → Written ip v kp u src off tot (m + n)
Written-trans ip v jp w kp u src off tot m n room g h = record {
  valid = h.valid;
  foreign = λ x f. let (f', e) = g.foreign x f in let (f'', e') = h.foreign x f' in (f'', e' ∙ e);
  bytes = λ x lt. two_writes src off tot m n x _ _ _ (g.bytes x lt) (h.bytes x lt);
  mapped = λ x le lt e. elim (dec_lt x (off + m)) [
    | yes first ↦
        let there_ = g.mapped x le first in
        there_ (sym (h.kept (x / bsize) (omega arith) there_) ∙ e)
    | no later ↦ h.mapped x (omega arith) (omega arith) e
  ];
  kept =
      λ i lt there_. h.kept i lt (λ e. there_ (sym (g.kept i lt there_) ∙ e)) ∙ g.kept i lt there_;
  fields = h.fields ∙ ap (λ (z : Inode). record z { addrs = kp.addrs }) g.fields;
  disk_inodes = h.disk_inodes ∙ g.disk_inodes;
  disk_size = h.disk_size ∙ g.disk_size;
}
