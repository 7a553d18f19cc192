-- ===== src/Xv6/Fs/Bmap.antt =====
-- `bmap` gives the block of a part of a file, and allocates what is missing.
use os_codes.Common.{
  ℕ, ◌+◌, ◌-◌, ◌≤◌, ◌<◌, ◌≡◌, ◌≢◌, refl, sym, ap, ◌∙◌, subst, true, false, some, ltb, ◌==◌, arith,
  ℕ_discrete, dec_lt, inl, inr, ◌⊎◌, >>=-eq-some,
}
use os_codes.Xv6.Fs.{
  Inode, Volume, ndirect, nindirect, max_file, put, get_word, set_word, balloc, slot,
}
use os_codes.Xv6.Fs.Words.{put_self, put_other, get_word-set_word_self, get_word-set_word_other}
use os_codes.Xv6.Fs.Free.{Allocated, taken, balloc-Allocated}
use os_codes.Xv6.Fs.Ownership.{table, addr_of, IsValid, Grow, positive, part-Grow, table-Grow}

pub addr_direct : (ip : Inode) (v : Volume) (bn : ℕ) → bn < ndirect → addr_of ip v bn ≡ ip.addrs bn
unfolding addr_of
addr_direct ip v bn lt = let hit : ltb bn ndirect ≡ true = ground arith in rw hit

pub addr_table :
    (ip : Inode) (v : Volume) (bn : ℕ) → ndirect ≤ bn → addr_of ip v bn ≡ table ip v (bn - ndirect)
unfolding addr_of
addr_table ip v bn le = let miss : ltb bn ndirect ≡ false = ground arith in rw miss

pub table_none : (ip : Inode) (v : Volume) (k : ℕ) → ip.addrs ndirect ≡ 0 → table ip v k ≡ 0
table_none ip v k e = let hit : (ip.addrs ndirect == 0) ≡ true = ground (arith, e) in rw hit

pub table_some :
    (ip : Inode) (v : Volume) (k a : ℕ)
    → ip.addrs ndirect ≡ a
    → a ≢ 0
    → table ip v k ≡ get_word (v.block a) k
table_some ip v k a e ne =
    let miss : (ip.addrs ndirect == 0) ≡ false = ground (arith, e) in
    rw miss (ap (λ z. get_word (v.block z) k) e)

-- The two ways of `slot`.
abbrev pub SlotSpec : Inode → ℕ → Volume → ℕ → Inode → Volume → Type 0
SlotSpec ip bn v b jp w =
    ((ip.addrs bn ≢ 0) × (b ≡ ip.addrs bn) × (jp ≡ ip) × (w ≡ v))
    ⊎ ((ip.addrs bn ≡ 0)
        × (b < v.size)
        × (v.used b ≡ false)
        × (jp ≡ record ip { addrs = put ip.addrs bn b })
        × (w ≡ taken b v))

pub balloc_result :
    (v : Volume) (b : ℕ) (w : Volume)
    → balloc v ≡ some (b, w)
    → (b < v.size) × (v.used b ≡ false) × (w ≡ taken b v)
balloc_result v b w e =
    let (lt, free, before, same) = subst (Allocated v) e (balloc-Allocated v) in (lt, free, same)

pub slot-SlotSpec :
    (ip : Inode) (bn : ℕ) (v : Volume) (b : ℕ) (jp : Inode) (w : Volume)
    → slot ip bn v ≡ some (b, jp, w)
    → SlotSpec ip bn v b jp w
unfolding slot
slot-SlotSpec ip bn v b jp w e = elim (ℕ_discrete (ip.addrs bn) 0) [
  | no there_ ↦
      let miss : (ip.addrs bn == 0) ≡ false = ground arith in
      let same = rw miss at e in inl (there_, cc same, cc same, cc same)
  | yes vacant ↦
      let hit : (ip.addrs bn == 0) ≡ true = ground arith in
      let ((a, u), got, rest) =
        >>=-eq-some (balloc v) (λ (a, w). some (a, record ip { addrs = put ip.addrs bn a }, w))
          (rw hit at e) in
      let (lt, free, new) = balloc_result v a u got in
      let a_b : a ≡ b = cc rest in
      inr (
        vacant,
        subst (λ x. x < v.size) a_b lt,
        ap v.used (sym a_b) ∙ free,
        subst (λ x. jp ≡ record ip { addrs = put ip.addrs bn x }) a_b (cc rest),
        subst (λ x. w ≡ taken x v) a_b (cc (rest, new)),
      )
]

pub table_same :
    (ip : Inode) (v : Volume) (jp : Inode) (w : Volume) (k : ℕ)
    → jp.addrs ndirect ≡ ip.addrs ndirect
    → (ip.addrs ndirect ≢ 0 → w.block (ip.addrs ndirect) ≡ v.block (ip.addrs ndirect))
    → table jp w k ≡ table ip v k
table_same ip v jp w k same blocks = elim (ℕ_discrete (ip.addrs ndirect) 0) [
  | yes none_there ↦ table_none jp w k (same ∙ none_there) ∙ sym (table_none ip v k none_there)
  | no there_ ↦
      table_some jp w k (ip.addrs ndirect) same there_
      ∙ ap (λ (f : ℕ → ℕ). get_word f k) (blocks there_)
      ∙ sym (table_some ip v k (ip.addrs ndirect) refl there_)
]

-- A block is given for part `bn`.
abbrev pub Given : Inode → Volume → ℕ → ℕ → Inode → Volume → Type 0
Given ip v bn b jp w = Grow ip v jp w × (b ≢ 0) × (addr_of jp w bn ≡ b)

module _ (ip : Inode) (v : Volume) (inv : IsValid ip v) where
  module _ (b : ℕ) (free : v.used b ≡ false) where
    new_block : (x : ℕ) → x ≢ b → (taken b v).block x ≡ v.block x
    new_block x ne = put_other v.block b (λ i. 0) x ne

    table_stays :
        ip.addrs ndirect ≢ 0 → (taken b v).block (ip.addrs ndirect) ≡ v.block (ip.addrs ndirect)
    table_stays there_ =
        new_block (ip.addrs ndirect) (λ e. cc (inv.table_used there_, free, ap v.used e))

    pub new_direct :
        (bn : ℕ)
        → bn < ndirect
        → ip.addrs bn ≡ 0
        → Given ip v bn b (record ip { addrs = put ip.addrs bn b }) (taken b v)
    new_direct bn lt vacant = (
      part-Grow ip v jp w inv b free refl refl refl refl bn (omega arith)
          (addr_direct ip v bn lt ∙ vacant) at others stays (put_self v.block b (λ y. 0))
          (λ x ne no_table. new_block x ne),
      positive ip v jp w inv b free refl refl refl refl,
      at,
    )
      where
        jp : Inode
        jp = record ip { addrs = put ip.addrs bn b }

        w : Volume
        w = taken b v

        at : addr_of jp w bn ≡ b
        at = addr_direct jp w bn lt ∙ put_self ip.addrs bn b

        stays : jp.addrs ndirect ≡ ip.addrs ndirect
        stays = put_other ip.addrs bn b ndirect (λ e. omega (arith, e))

        others : (i : ℕ) → i < max_file → i ≢ bn → addr_of jp w i ≡ addr_of ip v i
        others i lt_i ne = elim (dec_lt i ndirect) [
          | yes low ↦
              addr_direct jp w i low ∙ put_other ip.addrs bn b i ne ∙ sym (addr_direct ip v i low)
          | no high ↦
              addr_table jp w i (omega arith)
              ∙ table_same ip v jp w (i - ndirect) stays table_stays
              ∙ sym (addr_table ip v i (omega arith))
        ]

    pub new_table :
        ip.addrs ndirect ≡ 0 → Grow ip v (record ip { addrs = put ip.addrs ndirect b }) (taken b v)
    new_table vacant = table-Grow ip v jp w inv b free refl refl refl refl at parts new_block
      where
        jp : Inode
        jp = record ip { addrs = put ip.addrs ndirect b }

        w : Volume
        w = taken b v

        at : jp.addrs ndirect ≡ b
        at = put_self ip.addrs ndirect b

        blank : (k : ℕ) → table jp w k ≡ 0
        blank k =
            table_some jp w k b at (positive ip v jp w inv b free refl refl refl refl)
            ∙ ap (λ (f : ℕ → ℕ). get_word f k) (put_self v.block b (λ y. 0))

        parts : (i : ℕ) → i < max_file → addr_of jp w i ≡ addr_of ip v i
        parts i lt = elim (dec_lt i ndirect) [
          | yes low ↦
              addr_direct jp w i low
              ∙ put_other ip.addrs ndirect b i (λ e. omega (arith, e))
              ∙ sym (addr_direct ip v i low)
          | no high ↦
              addr_table jp w i (omega arith)
              ∙ blank (i - ndirect)
              ∙ sym (table_none ip v (i - ndirect) vacant)
              ∙ sym (addr_table ip v i (omega arith))
        ]

    pub new_entry :
        (a k : ℕ)
        → ip.addrs ndirect ≡ a
        → a ≢ 0
        → k < nindirect
        → b < v.size
        → get_word (v.block a) k ≡ 0
        → Given ip v (ndirect + k) b ip (record (taken b v) {
          block = put (taken b v).block a (set_word ((taken b v).block a) k b);
        })
    new_entry a k is_table a_pos lt inside vacant = (
      part-Grow ip v ip w inv b free refl refl refl refl bn (omega arith)
          (addr_table ip v bn (omega arith) ∙ entry_of v ∙ vacant) at others refl
          (put_other (taken b v).block a (set_word ((taken b v).block a) k b) b (λ e. a_old (sym e))
            ∙ put_self v.block b (λ y. 0))
          (λ x ne no_table.
            put_other (taken b v).block a (set_word ((taken b v).block a) k b) x
              (λ e. no_table (e ∙ sym is_table))
            ∙ new_block x ne),
      positive ip v ip w inv b free refl refl refl refl,
      at,
    )
      where
        bn : ℕ
        bn = ndirect + k

        w : Volume
        w = record (taken b v) {
          block = put (taken b v).block a (set_word ((taken b v).block a) k b);
        }

        a_old : a ≢ b
        a_old e =
            cc (inv.table_used (λ z. a_pos (sym is_table ∙ z)), free, ap v.used (is_table ∙ e))

        entry_of : (u : Volume) → table ip u (bn - ndirect) ≡ get_word (u.block a) k
        entry_of u =
            let same : bn - ndirect ≡ k = omega arith in
            table_some ip u (bn - ndirect) a is_table a_pos ∙ ap (get_word (u.block a)) same

        stored : w.block a ≡ set_word ((taken b v).block a) k b
        stored = put_self (taken b v).block a (set_word ((taken b v).block a) k b)

        at : addr_of ip w bn ≡ b
        at =
            addr_table ip w bn (omega arith)
            ∙ entry_of w
            ∙ ap (λ (f : ℕ → ℕ). get_word f k) stored
            ∙ get_word-set_word_self ((taken b v).block a) k b (omega (arith, inv.small))

        others : (i : ℕ) → i < max_file → i ≢ bn → addr_of ip w i ≡ addr_of ip v i
        others i lt_i ne = elim (dec_lt i ndirect) [
          | yes low ↦ addr_direct ip w i low ∙ sym (addr_direct ip v i low)
          | no high ↦
              addr_table ip w i (omega arith)
              ∙ table_some ip w (i - ndirect) a is_table a_pos
              ∙ ap (λ (f : ℕ → ℕ). get_word f (i - ndirect)) stored
              ∙ get_word-set_word_other ((taken b v).block a) k (i - ndirect) b
                  (λ e. ne (omega (arith, e)))
              ∙ ap (λ (f : ℕ → ℕ). get_word f (i - ndirect)) (new_block a a_old)
              ∙ sym (table_some ip v (i - ndirect) a is_table a_pos)
              ∙ sym (addr_table ip v i (omega arith))
        ]
