-- ===== src/Xv6/Fs/Freeing.antt =====
-- The whole of `itrunc`.
use os_codes.Common.{
  ℕ, ◌-◌, ◌≤◌, ◌<◌, ◌≡◌, ◌≢◌, refl, sym, ap, ◌∙◌, true, false, some, ◌==◌, arith, ℕ_discrete, inl,
  inr, ◌⊎◌, dec_lt,
}
use os_codes.Xv6.Fs.{Inode, Volume, ndirect, nindirect, max_file, put, bfree, iupdate}
use os_codes.Xv6.Fs.Words.{put_self, put_other}
use os_codes.Xv6.Fs.Ownership.{addr_of, IsValid}
use os_codes.Xv6.Fs.Bmap.{addr_table, table_none}
use os_codes.Xv6.Fs.Entries.{free_entries-Freed}
use os_codes.Xv6.Fs.Truncate.{
  free_direct, free_entries, free_table, itrunc, Freed, bfree_used, Cleared, free_direct-Freed,
}

-- A block of the file: one of its parts, or its indirect block.
abbrev pub Owns : Inode → Volume → ℕ → Type 0
Owns ip v x = (x ≢ 0) × (((i : ℕ) × (i < max_file) × (addr_of ip v i ≡ x)) ⊎ (ip.addrs ndirect ≡ x))

-- What is left of the file, and of the disk.
pub record Emptied (ip : Inode) (v : Volume) (jp : Inode) (w : Volume) : Type 0 where
  pub size : jp.size ≡ 0
  pub no_blocks : (i : ℕ) → i ≤ ndirect → jp.addrs i ≡ 0
  pub freed : (x : ℕ) → Owns ip v x → w.used x ≡ false
  pub others : (x : ℕ) → ¬ Owns ip v x → w.used x ≡ v.used x
  pub blocks : w.block ≡ v.block
  pub on_disk : w.inodes ≡ put v.inodes ip.inum jp

free_table-none : (ip : Inode) (v : Volume) → ip.addrs ndirect ≡ 0 → free_table ip v ≡ some (ip, v)
unfolding free_table
free_table-none ip v e = let hit : (ip.addrs ndirect == 0) ≡ true = ground (arith, e) in rw hit

free_table-some :
    (ip : Inode) (v w u : Volume)
    → ip.addrs ndirect ≢ 0
    → free_entries nindirect 0 (ip.addrs ndirect) v ≡ some w
    → bfree (ip.addrs ndirect) w ≡ some u
    → free_table ip v ≡ some (record ip { addrs = put ip.addrs ndirect 0 }, u)
unfolding free_table
free_table-some ip v w u ne entries frees =
    let miss : (ip.addrs ndirect == 0) ≡ false = ground arith in rw (miss, entries, frees)

-- The parts of a file without an indirect block are its direct ones.
Freed-direct :
    (ip : Inode) (v w : Volume)
    → ip.addrs ndirect ≡ 0
    → Freed ip v w ndirect
    → Freed ip v w max_file
Freed-direct ip v w no_table freed =
    let nowhere : (j : ℕ) → ndirect ≤ j → addr_of ip v j ≡ 0 =
      λ j le. addr_table ip v j le ∙ table_none ip v (j - ndirect) no_table in
    record {
      gone = λ j lt there_. elim (dec_lt j ndirect) [
        | yes low ↦ freed.gone j low there_
        | no high ↦ absurd (there_ (nowhere j (omega arith)))
      ];
      kept = λ x others. freed.kept x (λ j lt there_. others j (omega arith) there_);
      blocks = freed.blocks;
      disk_inodes = freed.disk_inodes;
    }

module _ (ip : Inode) (v : Volume) (w : Volume) (jp : Inode) (freed : Freed ip v w max_file) where
  -- Without an indirect block nothing is left to be freed.
  Emptied-direct :
      ip.addrs ndirect ≡ 0
      → Cleared ip jp ndirect
      → Emptied ip v (record jp { size = 0 }) (iupdate (record jp { size = 0 }) w)
  unfolding iupdate
  Emptied-direct no_table cleared = record {
    size = refl;
    no_blocks = λ i le. elim (dec_lt i ndirect) [
      | yes low ↦ cleared.zeros i low low
      | no high ↦
          let last : i ≡ ndirect = omega arith in
          cleared.rest i (omega arith) ∙ ap ip.addrs last ∙ no_table
    ];
    freed = λ x (there_, place). elim place [
      | inl (i, lt, e) ↦ ap w.used (sym e) ∙ freed.gone i lt (λ z. there_ (sym e ∙ z))
      | inr e ↦ absurd (there_ (sym e ∙ no_table))
    ];
    others = λ x foreign.
        freed.kept x (λ i lt there_ e. foreign ((λ z. there_ (e ∙ z)), inl (i, lt, e)));
    blocks = freed.blocks;
    on_disk =
        ap (λ f. put f jp.inum (record jp { size = 0 })) freed.disk_inodes
        ∙ ap (λ n. put v.inodes n (record jp { size = 0 })) cleared.inum;
  }

  -- The indirect block is freed last.
  Emptied-table :
      ip.addrs ndirect ≢ 0
      → Cleared ip jp ndirect
      → let kp = record jp { size = 0; addrs = put jp.addrs ndirect 0 } in
        Emptied ip v kp (iupdate kp (record w { used = put w.used (ip.addrs ndirect) false }))
  unfolding iupdate
  Emptied-table has_table cleared = record {
    size = refl;
    no_blocks = λ i le. elim (dec_lt i ndirect) [
      | yes low ↦ put_other jp.addrs ndirect 0 i (λ e. omega (arith, e)) ∙ cleared.zeros i low low
      | no high ↦
          let last : i ≡ ndirect = omega arith in
          ap (put jp.addrs ndirect 0) last ∙ put_self jp.addrs ndirect 0
    ];
    freed = λ x (there_, place). elim (ℕ_discrete x (ip.addrs ndirect)) [
      | yes e ↦
          ap (put w.used (ip.addrs ndirect) false) e ∙ put_self w.used (ip.addrs ndirect) false
      | no ne ↦ put_other w.used (ip.addrs ndirect) false x ne ∙ elim place [
        | inl (i, lt, e) ↦ ap w.used (sym e) ∙ freed.gone i lt (λ z. there_ (sym e ∙ z))
        | inr e ↦ absurd (ne (sym e))
      ]
    ];
    others = λ x foreign.
        put_other w.used (ip.addrs ndirect) false x
          (λ e. foreign ((λ z. has_table (sym e ∙ z)), inr (sym e)))
        ∙ freed.kept x (λ i lt there_ e. foreign ((λ z. there_ (e ∙ z)), inl (i, lt, e)));
    blocks = freed.blocks;
    on_disk =
        ap (λ f. put f jp.inum (record jp { size = 0; addrs = put jp.addrs ndirect 0 }))
          freed.disk_inodes
        ∙ ap (λ n. put v.inodes n (record jp { size = 0; addrs = put jp.addrs ndirect 0 }))
            cleared.inum;
  }

itrunc-some :
    (ip : Inode) (v : Volume) (jp : Inode) (w : Volume) (kp : Inode) (u : Volume)
    → free_direct ndirect 0 ip v ≡ some (jp, w)
    → free_table jp w ≡ some (kp, u)
    → itrunc ip v ≡ some (record kp { size = 0 }, iupdate (record kp { size = 0 }) u)
unfolding itrunc
itrunc-some ip v jp w kp u direct entries = rw (direct, entries)

-- A file that owns its blocks is truncated without a panic: exactly its blocks become free, the indirect
-- block and the blocks it names among them, no block is written, and the inode, in memory and on the
-- disk, has size 0 and no blocks.
pub itrunc-Emptied :
    (ip : Inode) (v : Volume)
    → IsValid ip v
    → (jp : Inode) × (w : Volume) × (itrunc ip v ≡ some (jp, w)) × Emptied ip v jp w
itrunc-Emptied ip v inv =
    let (jp, w, direct, freed, cleared) =
      free_direct-Freed ip v ndirect 0 ip v inv refl
        (record {
          gone = λ j lt. absurd (omega arith);
          kept = λ x others. refl;
          blocks = refl;
          disk_inodes = refl;
        })
        (record { zeros = λ j lt. absurd (omega arith); rest = λ j le. refl; inum = refl }) in
    let same : jp.addrs ndirect ≡ ip.addrs ndirect = cleared.rest ndirect (omega arith) in
    elim (ℕ_discrete (ip.addrs ndirect) 0) [
      | yes no_table ↦ (
        _,
        _,
        itrunc-some ip v jp w _ _ direct (free_table-none jp w (same ∙ no_table)),
        Emptied-direct ip v w jp (Freed-direct ip v w no_table freed) no_table cleared,
      )
      | no has_table ↦
          let (u, entries, freed_all) =
            free_entries-Freed ip v nindirect 0 w inv has_table refl freed in
          let used : u.used (ip.addrs ndirect) ≡ true =
            freed_all.kept (ip.addrs ndirect) (λ j lt there_. inv.apart j lt there_)
            ∙ inv.table_used has_table in
          (
            _,
            _,
            itrunc-some ip v jp w _ _ direct (
                free_table-some jp w u _ (λ e. has_table (sym same ∙ e))
                  (ap (λ a. free_entries nindirect 0 a w) same ∙ entries)
                  (ap (λ a. bfree a u) same ∙ bfree_used (ip.addrs ndirect) u used)),
            Emptied-table ip v u jp freed_all has_table cleared,
          )
    ]
