-- ===== src/Xv6/Fs/Ownership.antt =====
-- Which blocks a file owns, and how it comes to own more.
use os_codes.Common.{
  ℕ, ◌-◌, ◌≤◌, ◌<◌, ◌≡◌, ◌≢◌, refl, sym, ap, ◌∙◌, subst, Bool, true, false, ltb, ◌==◌,
  if◌then◌else◌, arith, ℕ_discrete,
}
use os_codes.Xv6.Fs.{Inode, Volume, ndirect, max_file, word, put, get_word}
use os_codes.Xv6.Fs.Words.{put_self, put_other}

-- The entry `k` of the indirect block, and the block of the file that holds its part `bn`; 0 is none.
abbrev pub table : Inode → Volume → ℕ → ℕ
table ip v k = if ip.addrs ndirect == 0 then 0 else get_word (v.block (ip.addrs ndirect)) k

unfoldable pub addr_of : Inode → Volume → ℕ → ℕ
addr_of ip v bn = if ltb bn ndirect then ip.addrs bn else table ip v (bn - ndirect)

-- Byte `y` of part `i`, which is 0 where the file has no block.
abbrev pub byte_at : Inode → Volume → ℕ → ℕ → ℕ
byte_at ip v i y = if addr_of ip v i == 0 then 0 else v.block (addr_of ip v i) y

pub record IsValid (ip : Inode) (v : Volume) : Type 0 where
  pub reserved : v.used 0 ≡ true
  pub small : v.size ≤ word
  pub parts_used : (i : ℕ) → i < max_file → addr_of ip v i ≢ 0 → v.used (addr_of ip v i) ≡ true
  pub table_used : ip.addrs ndirect ≢ 0 → v.used (ip.addrs ndirect) ≡ true
  pub distinct :
      (i j : ℕ)
      → i < max_file
      → j < max_file
      → i ≢ j
      → addr_of ip v i ≢ 0
      → addr_of ip v i ≢ addr_of ip v j
  pub apart : (i : ℕ) → i < max_file → addr_of ip v i ≢ 0 → addr_of ip v i ≢ ip.addrs ndirect

-- A used block that is not the file's.
abbrev pub Foreign : Inode → Volume → ℕ → Type 0
Foreign ip v x =
    (v.used x ≡ true) × (x ≢ ip.addrs ndirect) × ((i : ℕ) → i < max_file → addr_of ip v i ≢ x)

-- The file may own more blocks, which read as 0; no byte of it or of another file is changed.
pub record Grow (ip : Inode) (v : Volume) (jp : Inode) (w : Volume) : Type 0 where
  pub valid : IsValid jp w
  pub foreign : (x : ℕ) → Foreign ip v x → Foreign jp w x × (w.block x ≡ v.block x)
  pub same : (i y : ℕ) → i < max_file → byte_at jp w i y ≡ byte_at ip v i y
  pub kept : (i : ℕ) → i < max_file → addr_of ip v i ≢ 0 → addr_of jp w i ≡ addr_of ip v i
  pub fields : jp ≡ record ip { addrs = jp.addrs }
  pub disk_inodes : w.inodes ≡ v.inodes
  pub disk_size : w.size ≡ v.size

pub Grow-refl : (ip : Inode) (v : Volume) → IsValid ip v → Grow ip v ip v
Grow-refl ip v inv = record {
  valid = inv;
  foreign = λ x f. (f, refl);
  same = λ i y lt. refl;
  kept = λ i lt there_. refl;
  fields = refl;
  disk_inodes = refl;
  disk_size = refl;
}

pub Grow-trans :
    {ip : Inode} {v : Volume} {jp : Inode} {w : Volume} {kp : Inode} {u : Volume}
    → Grow ip v jp w
    → Grow jp w kp u
    → Grow ip v kp u
Grow-trans {ip} {v} {jp} {w} {kp} {u} g h = record {
  valid = h.valid;
  foreign = λ x f. let (f', e) = g.foreign x f in let (f'', e') = h.foreign x f' in (f'', e' ∙ e);
  same = λ i y lt. h.same i y lt ∙ g.same i y lt;
  kept =
      λ i lt there_. h.kept i lt (λ e. there_ (sym (g.kept i lt there_) ∙ e)) ∙ g.kept i lt there_;
  fields = h.fields ∙ ap (λ (z : Inode). record z { addrs = kp.addrs }) g.fields;
  disk_inodes = h.disk_inodes ∙ g.disk_inodes;
  disk_size = h.disk_size ∙ g.disk_size;
}

-- A part without a block reads as 0, and one with a block as that block.
pub byte_at_none : (ip : Inode) (v : Volume) (i y : ℕ) → addr_of ip v i ≡ 0 → byte_at ip v i y ≡ 0
byte_at_none ip v i y e = let hit : (addr_of ip v i == 0) ≡ true = ground (arith, e) in rw hit

pub byte_at_some :
    (ip : Inode) (v : Volume) (i y b : ℕ)
    → addr_of ip v i ≡ b
    → b ≢ 0
    → byte_at ip v i y ≡ v.block b y
byte_at_some ip v i y b e b_pos =
    let miss : (addr_of ip v i == 0) ≡ false = ground (arith, e) in
    rw miss (ap (λ z. v.block z y) e)

module _ (ip : Inode) (v : Volume) (jp : Inode) (w : Volume) (inv : IsValid ip v) (b : ℕ)
    (free : v.used b ≡ false) (marked : w.used ≡ put v.used b true) (size : w.size ≡ v.size)
    (inodes : w.inodes ≡ v.inodes) (fields : jp ≡ record ip { addrs = jp.addrs }) where
  pub positive : b ≢ 0
  positive e = cc (inv.reserved, free, e)

  keeps : (x : ℕ) → v.used x ≡ true → w.used x ≡ true
  keeps x used =
      ap (λ (f : ℕ → Bool). f x) marked ∙ put_other v.used b true x (λ e. cc (used, free, e)) ∙ used

  marks : w.used b ≡ true
  marks = ap (λ (f : ℕ → Bool). f b) marked ∙ put_self v.used b true

  part_not_new : (i : ℕ) → i < max_file → addr_of ip v i ≢ b
  part_not_new i lt e = elim (ℕ_discrete (addr_of ip v i) 0) [
    | yes none_there ↦ positive (sym e ∙ none_there)
    | no there_ ↦ cc (inv.parts_used i lt there_, free, e)
  ]

  table_not_new : ip.addrs ndirect ≢ b
  table_not_new e = elim (ℕ_discrete (ip.addrs ndirect) 0) [
    | yes none_there ↦ positive (sym e ∙ none_there)
    | no there_ ↦ cc (inv.table_used there_, free, e)
  ]

  -- Block `b` becomes part `k`.
  module _ (k : ℕ) (inside : k < max_file) (vacant : addr_of ip v k ≡ 0) (at : addr_of jp w k ≡ b)
      (others : (i : ℕ) → i < max_file → i ≢ k → addr_of jp w i ≡ addr_of ip v i)
      (same_table : jp.addrs ndirect ≡ ip.addrs ndirect) (zeroed : w.block b ≡ (λ y. 0))
      (blocks : (x : ℕ) → x ≢ b → x ≢ ip.addrs ndirect → w.block x ≡ v.block x) where
    part-IsValid : IsValid jp w
    part-IsValid = record {
      reserved = keeps 0 inv.reserved;
      small = subst (λ n. n ≤ word) (sym size) inv.small;
      parts_used = λ i lt there_. elim (ℕ_discrete i k) [
        | yes i_k ↦ ap w.used (ap (addr_of jp w) i_k ∙ at) ∙ marks
        | no ne ↦
            ap w.used (others i lt ne)
            ∙ keeps (addr_of ip v i) (inv.parts_used i lt (λ e. there_ (others i lt ne ∙ e)))
      ];
      table_used = λ there_.
          ap w.used same_table
          ∙ keeps (ip.addrs ndirect) (inv.table_used (λ e. there_ (same_table ∙ e)));
      distinct = λ i j lt_i lt_j differ there_ e. elim (ℕ_discrete i k) [
        | yes i_k ↦
            let j_old = others j lt_j (λ j_k. differ (i_k ∙ sym j_k)) in
            part_not_new j lt_j (sym j_old ∙ sym e ∙ ap (addr_of jp w) i_k ∙ at)
        | no i_ne ↦ elim (ℕ_discrete j k) [
          | yes j_k ↦
              part_not_new i lt_i (sym (others i lt_i i_ne) ∙ e ∙ ap (addr_of jp w) j_k ∙ at)
          | no j_ne ↦
              inv.distinct i j lt_i lt_j differ (λ z. there_ (others i lt_i i_ne ∙ z))
                (sym (others i lt_i i_ne) ∙ e ∙ others j lt_j j_ne)
        ]
      ];
      apart = λ i lt there_ e. elim (ℕ_discrete i k) [
        | yes i_k ↦ table_not_new (sym (sym at ∙ ap (addr_of jp w) (sym i_k) ∙ e ∙ same_table))
        | no ne ↦
            inv.apart i lt (λ z. there_ (others i lt ne ∙ z))
              (sym (others i lt ne) ∙ e ∙ same_table)
      ];
    }

    part_same : (i y : ℕ) → i < max_file → byte_at jp w i y ≡ byte_at ip v i y
    part_same i y lt = elim (ℕ_discrete i k) [
      | yes i_k ↦
          byte_at_some jp w i y b (ap (addr_of jp w) i_k ∙ at) positive
          ∙ ap (λ (f : ℕ → ℕ). f y) zeroed
          ∙ sym (byte_at_none ip v i y (ap (addr_of ip v) i_k ∙ vacant))
      | no ne ↦ elim (ℕ_discrete (addr_of ip v i) 0) [
        | yes none_there ↦
            byte_at_none jp w i y (others i lt ne ∙ none_there)
            ∙ sym (byte_at_none ip v i y none_there)
        | no there_ ↦
            byte_at_some jp w i y (addr_of ip v i) (others i lt ne) there_
            ∙ ap (λ (f : ℕ → ℕ). f y)
                (blocks (addr_of ip v i) (part_not_new i lt) (inv.apart i lt there_))
            ∙ sym (byte_at_some ip v i y (addr_of ip v i) refl there_)
      ]
    ]

    pub part-Grow : Grow ip v jp w
    part-Grow = record {
      valid = part-IsValid;
      foreign = λ x f.
          let (used, no_table, no_part) = f in
          let old : x ≢ b = λ e. cc (used, free, e) in
          (
            (
              keeps x used,
              (λ e. no_table (e ∙ same_table)),
              λ i lt e. elim (ℕ_discrete i k) [
                | yes i_k ↦ old (sym e ∙ ap (addr_of jp w) i_k ∙ at)
                | no ne ↦ no_part i lt (sym (others i lt ne) ∙ e)
              ],
            ),
            blocks x old no_table,
          );
      same = part_same;
      kept = λ i lt there_. others i lt (λ e. there_ (ap (addr_of ip v) e ∙ vacant));
      fields = fields;
      disk_inodes = inodes;
      disk_size = size;
    }

  -- Block `b` becomes the indirect block.
  module _ (at : jp.addrs ndirect ≡ b)
      (parts : (i : ℕ) → i < max_file → addr_of jp w i ≡ addr_of ip v i)
      (blocks : (x : ℕ) → x ≢ b → w.block x ≡ v.block x) where
    table-IsValid : IsValid jp w
    table-IsValid = record {
      reserved = keeps 0 inv.reserved;
      small = subst (λ n. n ≤ word) (sym size) inv.small;
      parts_used = λ i lt there_.
          ap w.used (parts i lt)
          ∙ keeps (addr_of ip v i) (inv.parts_used i lt (λ e. there_ (parts i lt ∙ e)));
      table_used = λ there_. ap w.used at ∙ marks;
      distinct = λ i j lt_i lt_j differ there_ e.
          inv.distinct i j lt_i lt_j differ (λ z. there_ (parts i lt_i ∙ z))
            (sym (parts i lt_i) ∙ e ∙ parts j lt_j);
      apart = λ i lt there_ e. part_not_new i lt (sym (parts i lt) ∙ e ∙ at);
    }

    pub table-Grow : Grow ip v jp w
    table-Grow = record {
      valid = table-IsValid;
      foreign = λ x f.
          let (used, no_table, no_part) = f in
          let old : x ≢ b = λ e. cc (used, free, e) in
          (
            (keeps x used, (λ e. old (e ∙ at)), λ i lt e. no_part i lt (sym (parts i lt) ∙ e)),
            blocks x old,
          );
      same = λ i y lt. elim (ℕ_discrete (addr_of ip v i) 0) [
        | yes none_there ↦
            byte_at_none jp w i y (parts i lt ∙ none_there) ∙ sym (byte_at_none ip v i y none_there)
        | no there_ ↦
            byte_at_some jp w i y (addr_of ip v i) (parts i lt) there_
            ∙ ap (λ (f : ℕ → ℕ). f y) (blocks (addr_of ip v i) (part_not_new i lt))
            ∙ sym (byte_at_some ip v i y (addr_of ip v i) refl there_)
      ];
      kept = λ i lt there_. parts i lt;
      fields = fields;
      disk_inodes = inodes;
      disk_size = size;
    }
