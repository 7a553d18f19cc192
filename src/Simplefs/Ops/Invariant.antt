-- ===== src/Simplefs/Ops/Invariant.antt =====
-- `simplefs_create` keeps the disk consistent, and what a later `simplefs_open` finds.
use os_codes.Common.{
  ℕ, ◌<◌, ◌≡◌, refl, ap, sym, ◌∙◌, subst, Option, none, some, List, arith, length, length-set,
  get_elem?-set_self, get_elem?-set_ne, ℕ_discrete, pos, negsuc, ℤ,
}
use os_codes.Simplefs.Disk.{Fs, num_inodes, max_name_strlen, inode_free, inode_in_use, minus_one}
use os_codes.Simplefs.Ops.{find_file, new_inode, create, open_file, open_inode}
use os_codes.Simplefs.Ops.Names.{Names, FindSpec, find_file-FindSpec}
use os_codes.Simplefs.Ops.Create.{
  IsConsistent, Agree-set, created, CreateSpec, create-found, create_total,
}

module _ (s : Fs) (good : IsConsistent s) (name : List ℕ) (i : ℕ) (t : Fs) where
  module _ (spec : CreateSpec s name (pos i, t)) where
    not_in_use : (other : List ℕ) → ¬ Names s other i
    not_in_use other n =
        let free : n.inode.status ≡ inode_free = sym (good.agree i n.inode n.found) ∙ spec.1 in
        absurd (omega (arith, n.in_use))

    Names-new : Names t name i
    Names-new =
        subst (λ u. Names u name i) (sym spec.3)
          (record {
            inode = new_inode name;
            found =
                get_elem?-set_self s.inodes i (new_inode name) (omega (arith, good.inodes_size));
            in_use = refl;
            named = refl;
          })

    Names-kept : (other : List ℕ) (j : ℕ) → Names s other j → Names t other j
    Names-kept other j n = elim (ℕ_discrete i j) [
      | yes same ↦ absurd (not_in_use other (subst (λ k. Names s other k) (sym same) n))
      | no differ ↦
          subst (λ u. Names u other j) (sym spec.3)
            (record {
              inode = n.inode;
              found = get_elem?-set_ne s.inodes (new_inode name) differ ∙ n.found;
              in_use = n.in_use;
              named = n.named;
            })
    ]

    Names-only : (j : ℕ) → Names t name j → j ≡ i
    Names-only j n = elim (ℕ_discrete i j) [
      | yes same ↦ sym same
      | no differ ↦
          let m : Names (created i name s) name j = subst (λ u. Names u name j) spec.3 n in
          absurd (
            spec.2 (
              j,
              record {
                inode = m.inode;
                found = sym (get_elem?-set_ne s.inodes (new_inode name) differ) ∙ m.found;
                in_use = m.in_use;
                named = m.named;
              },
            ))
    ]

    created-IsConsistent : IsConsistent t
    created-IsConsistent = subst IsConsistent (sym spec.3) (record {
      inodes_size = length-set s.inodes i (new_inode name) ∙ good.inodes_size;
      freelist_size = length-set s.superblock.inode_freelist i inode_in_use ∙ good.freelist_size;
      agree =
          Agree-set _ _ i inode_in_use (new_inode name) refl (omega (arith, good.freelist_size))
            (omega (arith, good.inodes_size)) good.agree;
    })

    found_new : find_file t name num_inodes 0 ≡ some (some i)
    found_new = go (find_file-FindSpec t name created-IsConsistent.inodes_size num_inodes 0 refl)
      where
        go :
            (r : Option ℕ) × (find_file t name num_inodes 0 ≡ some r)
              × FindSpec t name num_inodes 0 r
            → find_file t name num_inodes 0 ≡ some (some i)
        go (some j, e, (lo, hi, n)) = e ∙ ap (λ k. some (some k)) (Names-only j n)
        go (none, e, missing) = absurd (missing i (omega arith) (omega (arith, spec.0)) Names-new)

open_file-found :
    (name : List ℕ) (t : Fs) (i : ℕ)
    → find_file t name num_inodes 0 ≡ some (some i)
    → open_file name t ≡ some (open_inode i t)
unfolding open_file
open_file-found name t i e = rw (e, open_file)

module _ (s : Fs) (good : IsConsistent s) (name : List ℕ)
    (short : length name < max_name_strlen) where
  spec_of : (r : ℤ × Fs) → create name s ≡ some r → CreateSpec s name r
  spec_of r e =
      let (r', e', spec) = create_total name s good.inodes_size short in
      let same : r' ≡ r = cc (e, e') in subst (CreateSpec s name) same spec

  CreateSpec-IsConsistent : (r : ℤ × Fs) → CreateSpec s name r → IsConsistent r.1
  CreateSpec-IsConsistent (pos i, t) spec = created-IsConsistent s good name i t spec
  CreateSpec-IsConsistent (negsuc n, t) spec = subst IsConsistent (sym spec.1) good

  -- On a consistent disk, for a name of at most 7 bytes, `simplefs_create` leaves a consistent disk,
  -- whether it succeeds or not.
  pub create-IsConsistent : (r : ℤ × Fs) → create name s ≡ some r → IsConsistent r.1
  create-IsConsistent r e = CreateSpec-IsConsistent r (spec_of r e)

  -- When `simplefs_create` returns inode `i`, a `simplefs_open` of the name opens inode `i`, and every
  -- file that was there is still there in its inode.
  pub open_file-create :
      (i : ℕ) (t : Fs)
      → create name s ≡ some (pos i, t)
      → (open_file name t ≡ some (open_inode i t))
        × ((other : List ℕ) (j : ℕ) → Names s other j → Names t other j)
  open_file-create i t e =
      let spec = spec_of (pos i, t) e in
      (open_file-found name t i (found_new s good name i t spec), Names-kept s good name i t spec)

  -- A second `simplefs_create` of the name returns -1 and changes nothing.
  pub create_twice :
      (i : ℕ) (t : Fs) → create name s ≡ some (pos i, t) → create name t ≡ some (minus_one, t)
  create_twice i t e = create-found name t i (found_new s good name i t (spec_of (pos i, t) e))
