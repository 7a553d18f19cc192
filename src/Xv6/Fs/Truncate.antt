-- ===== src/Xv6/Fs/Truncate.antt =====
-- `itrunc` of fs.c: its loops, and what they free.
use os_codes.Common.{
  ℕ, zero, suc, ◌+◌, ◌≤◌, ◌<◌, ◌≡◌, ◌≢◌, refl, sym, ap, ◌∙◌, subst, true, false, Option, some,
  ◌>>=◌, ◌==◌, if◌then◌else◌, arith, ℕ_discrete,
}
use os_codes.Xv6.Fs.{Inode, Volume, ndirect, nindirect, max_file, put, get_word, bfree, iupdate}
use os_codes.Xv6.Fs.Words.{put_self, put_other}
use os_codes.Xv6.Fs.Ownership.{addr_of, IsValid}
use os_codes.Xv6.Fs.Bmap.{addr_direct}

-- The loop over `ip->addrs`, with `k` rounds to go.
unfoldable pub free_direct : ℕ → ℕ → Inode → Volume → Option (Inode × Volume)
free_direct zero i ip v = some (ip, v)
free_direct (suc k) i ip v = elim (ip.addrs i == 0) [
  | true ↦ free_direct k (i + 1) ip v
  | false ↦
      bfree (ip.addrs i) v >>= λ w. free_direct k (i + 1) (record ip { addrs = put ip.addrs i 0 }) w
]

-- The loop over the entries of the indirect block `a`.
unfoldable pub free_entries : ℕ → ℕ → ℕ → Volume → Option Volume
free_entries zero j a v = some v
free_entries (suc k) j a v = elim (get_word (v.block a) j == 0) [
  | true ↦ free_entries k (j + 1) a v
  | false ↦ bfree (get_word (v.block a) j) v >>= λ w. free_entries k (j + 1) a w
]

unfoldable pub free_table : Inode → Volume → Option (Inode × Volume)
free_table ip v =
    if ip.addrs ndirect == 0
    then some (ip, v)
    else free_entries nindirect 0 (ip.addrs ndirect) v >>= λ w.
        bfree (ip.addrs ndirect) w >>= λ u. some (record ip { addrs = put ip.addrs ndirect 0 }, u)

unfoldable pub itrunc : Inode → Volume → Option (Inode × Volume)
itrunc ip v = free_direct ndirect 0 ip v >>= λ (jp, w).
    free_table jp w >>= λ (kp, u). some (record kp { size = 0 }, iupdate (record kp { size = 0 }) u)

-- The parts of a file before part `i` are free again, and nothing else has changed.
pub record Freed (ip : Inode) (v w : Volume) (i : ℕ) : Type 0 where
  pub gone : (j : ℕ) → j < i → addr_of ip v j ≢ 0 → w.used (addr_of ip v j) ≡ false
  pub kept :
      (x : ℕ) → ((j : ℕ) → j < i → addr_of ip v j ≢ 0 → addr_of ip v j ≢ x) → w.used x ≡ v.used x
  pub blocks : w.block ≡ v.block
  pub disk_inodes : w.inodes ≡ v.inodes

pub bfree_used :
    (b : ℕ) (v : Volume)
    → v.used b ≡ true
    → bfree b v ≡ some (record v { used = put v.used b false })
unfolding bfree
bfree_used b v e = rw e

module _ (ip : Inode) (v : Volume) (inv : IsValid ip v) (w : Volume) (i : ℕ) (lt : i < max_file)
    (freed : Freed ip v w i) where
  pub Freed-none : addr_of ip v i ≡ 0 → Freed ip v w (i + 1)
  Freed-none nothing = record {
    gone = λ j lt_j there_. elim (ℕ_discrete j i) [
      | yes j_i ↦ absurd (there_ (ap (addr_of ip v) j_i ∙ nothing))
      | no ne ↦ freed.gone j (omega arith) there_
    ];
    kept = λ x others. freed.kept x (λ j lt_j there_. others j (omega arith) there_);
    blocks = freed.blocks;
    disk_inodes = freed.disk_inodes;
  }

  pub still_used : addr_of ip v i ≢ 0 → w.used (addr_of ip v i) ≡ true
  still_used there_ =
      freed.kept (addr_of ip v i)
        (λ j lt_j there_j. inv.distinct j i (omega arith) lt (λ e. omega (arith, e)) there_j)
      ∙ inv.parts_used i lt there_

  pub Freed-part :
      addr_of ip v i ≢ 0
      → Freed ip v (record w { used = put w.used (addr_of ip v i) false }) (i + 1)
  Freed-part there_ = record {
    gone = λ j lt_j there_j. elim (ℕ_discrete j i) [
      | yes j_i ↦
          ap (put w.used (addr_of ip v i) false) (ap (addr_of ip v) j_i)
          ∙ put_self w.used (addr_of ip v i) false
      | no ne ↦
          put_other w.used (addr_of ip v i) false (addr_of ip v j)
            (inv.distinct j i (omega arith) lt ne there_j)
          ∙ freed.gone j (omega arith) there_j
    ];
    kept = λ x others.
        put_other w.used (addr_of ip v i) false x (λ e. others i (omega arith) there_ (sym e))
        ∙ freed.kept x (λ j lt_j there_j. others j (omega arith) there_j);
    blocks = freed.blocks;
    disk_inodes = freed.disk_inodes;
  }

-- The inode after its first `i` parts were cleared.
pub record Cleared (ip jp : Inode) (i : ℕ) : Type 0 where
  pub zeros : (j : ℕ) → j < i → j < ndirect → jp.addrs j ≡ 0
  pub rest : (j : ℕ) → i ≤ j → jp.addrs j ≡ ip.addrs j
  pub inum : jp.inum ≡ ip.inum

free_direct-zero :
    (k i : ℕ) (ip : Inode) (v : Volume)
    → ip.addrs i ≡ 0
    → free_direct (suc k) i ip v ≡ free_direct k (i + 1) ip v
unfolding free_direct
free_direct-zero k i ip v e =
    let hit : (ip.addrs i == 0) ≡ true = ground (arith, e) in rw (free_direct, hit)

free_direct-some :
    (k i : ℕ) (ip : Inode) (v w : Volume)
    → ip.addrs i ≢ 0
    → bfree (ip.addrs i) v ≡ some w
    → free_direct (suc k) i ip v ≡ free_direct k (i + 1) (record ip { addrs = put ip.addrs i 0 }) w
unfolding free_direct
free_direct-some k i ip v w ne e =
    let miss : (ip.addrs i == 0) ≡ false = ground arith in rw (free_direct, miss, e)

pub free_direct-Freed :
    (ip : Inode) (v : Volume) (k i : ℕ) (jp : Inode) (w : Volume)
    → IsValid ip v
    → i + k ≡ ndirect
    → Freed ip v w i
    → Cleared ip jp i
    → (kp : Inode) × (u : Volume) × (free_direct k i jp w ≡ some (kp, u))
      × Freed ip v u ndirect
      × Cleared ip kp ndirect
unfolding free_direct
free_direct-Freed ip v zero i jp w inv all freed cleared =
    let end : i ≡ ndirect = omega arith in
    (jp, w, refl, subst (Freed ip v w) end freed, subst (Cleared ip jp) end cleared)
free_direct-Freed ip v (suc k) i jp w inv all freed cleared =
    let here_ : jp.addrs i ≡ addr_of ip v i =
      cleared.rest i (omega arith) ∙ sym (addr_direct ip v i (omega arith)) in
    elim (ℕ_discrete (jp.addrs i) 0) [
      | yes nothing ↦
          let (kp, u, e, freed_all, cleared_all) =
            free_direct-Freed ip v k (i + 1) jp w inv (omega arith)
              (Freed-none ip v inv w i (omega arith) freed (sym here_ ∙ nothing))
              (record {
                zeros = λ j lt low. elim (ℕ_discrete j i) [
                  | yes same ↦ ap jp.addrs same ∙ nothing
                  | no ne ↦ cleared.zeros j (omega arith) low
                ];
                rest = λ j le. cleared.rest j (omega arith);
                inum = cleared.inum;
              }) in
          (kp, u, free_direct-zero k i jp w nothing ∙ e, freed_all, cleared_all)
      | no there_ ↦
          let part : addr_of ip v i ≢ 0 = λ e. there_ (here_ ∙ e) in
          let used = still_used ip v inv w i (omega arith) freed part in
          let (kp, u, e, freed_all, cleared_all) =
            free_direct-Freed ip v k (i + 1) (record jp { addrs = put jp.addrs i 0 })
              (record w { used = put w.used (addr_of ip v i) false }) inv (omega arith)
              (Freed-part ip v inv w i (omega arith) freed part)
              (record {
                zeros = λ j lt low. elim (ℕ_discrete j i) [
                  | yes same ↦ ap (put jp.addrs i 0) same ∙ put_self jp.addrs i 0
                  | no ne ↦ put_other jp.addrs i 0 j ne ∙ cleared.zeros j (omega arith) low
                ];
                rest = λ j le.
                    put_other jp.addrs i 0 j (λ z. omega (arith, z)) ∙ cleared.rest j (omega arith);
                inum = cleared.inum;
              }) in
          (
            kp,
            u,
            free_direct-some k i jp w _ there_
                  (ap (λ b. bfree b w) here_ ∙ bfree_used (addr_of ip v i) w used)
                ∙ e,
            freed_all,
            cleared_all,
          )
    ]
