-- ===== src/Xv6/Fs/Entries.antt =====
-- The loop of `itrunc` over the entries of the indirect block.
use os_codes.Common.{
  ℕ, zero, suc, ◌+◌, ◌-◌, ◌≡◌, ◌≢◌, refl, sym, ap, ◌∙◌, subst, true, false, some, ◌==◌, arith,
  ℕ_discrete,
}
use os_codes.Xv6.Fs.{Inode, Volume, ndirect, nindirect, max_file, put, get_word, bfree}
use os_codes.Xv6.Fs.Ownership.{addr_of, IsValid}
use os_codes.Xv6.Fs.Bmap.{addr_table, table_some}
use os_codes.Xv6.Fs.Truncate.{free_entries, Freed, Freed-none, Freed-part, still_used, bfree_used}

free_entries_zero :
    (k j a : ℕ) (v : Volume)
    → get_word (v.block a) j ≡ 0
    → free_entries (suc k) j a v ≡ free_entries k (j + 1) a v
unfolding free_entries
free_entries_zero k j a v e =
    let hit : (get_word (v.block a) j == 0) ≡ true = ground (arith, e) in rw (free_entries, hit)

free_entries-some :
    (k j a : ℕ) (v w : Volume)
    → get_word (v.block a) j ≢ 0
    → bfree (get_word (v.block a) j) v ≡ some w
    → free_entries (suc k) j a v ≡ free_entries k (j + 1) a w
unfolding free_entries
free_entries-some k j a v w ne e =
    let miss : (get_word (v.block a) j == 0) ≡ false = ground arith in rw (free_entries, miss, e)

pub free_entries-Freed :
    (ip : Inode) (v : Volume) (k j : ℕ) (w : Volume)
    → IsValid ip v
    → ip.addrs ndirect ≢ 0
    → j + k ≡ nindirect
    → Freed ip v w (ndirect + j)
    → (u : Volume) × (free_entries k j (ip.addrs ndirect) w ≡ some u) × Freed ip v u max_file
unfolding free_entries
free_entries-Freed ip v zero j w inv has_table all freed =
    let end : ndirect + j ≡ max_file = omega arith in (w, refl, subst (Freed ip v w) end freed)
free_entries-Freed ip v (suc k) j w inv has_table all freed =
    let index : ndirect + j - ndirect ≡ j = omega arith in
    let next : ndirect + j + 1 ≡ ndirect + (j + 1) = omega arith in
    let here_ : get_word (w.block (ip.addrs ndirect)) j ≡ addr_of ip v (ndirect + j) =
      ap (λ (f : ℕ → ℕ → ℕ). get_word (f (ip.addrs ndirect)) j) freed.blocks
      ∙ ap (get_word (v.block (ip.addrs ndirect))) (sym index)
      ∙ sym (table_some ip v (ndirect + j - ndirect) (ip.addrs ndirect) refl has_table)
      ∙ sym (addr_table ip v (ndirect + j) (omega arith)) in
    elim (ℕ_discrete (get_word (w.block (ip.addrs ndirect)) j) 0) [
      | yes nothing ↦
          let (u, e, freed_all) = free_entries-Freed ip v k (j + 1) w inv has_table (omega arith) (
            subst (Freed ip v w) next
              (Freed-none ip v inv w (ndirect + j) (omega arith) freed (sym here_ ∙ nothing))) in
          (u, free_entries_zero k j (ip.addrs ndirect) w nothing ∙ e, freed_all)
      | no there_ ↦
          let part : addr_of ip v (ndirect + j) ≢ 0 = λ e. there_ (here_ ∙ e) in
          let used = still_used ip v inv w (ndirect + j) (omega arith) freed part in
          let less : Volume = record w { used = put w.used (addr_of ip v (ndirect + j)) false } in
          let (u, e, freed_all) =
            free_entries-Freed ip v k (j + 1) less inv has_table (omega arith) (
              subst (Freed ip v less) next
                (Freed-part ip v inv w (ndirect + j) (omega arith) freed part)) in
          (
            u,
            free_entries-some k j (ip.addrs ndirect) w less there_
                  (ap (λ b. bfree b w) here_ ∙ bfree_used (addr_of ip v (ndirect + j)) w used)
                ∙ e,
            freed_all,
          )
    ]
