-- ===== src/Simplefs/Ops/Names.antt =====
-- Files and their names: `simplefs_create`, `simplefs_open` and the search that they share.
use os_codes.Common.{
  ℕ, zero, suc, ◌+◌, ◌≤◌, ◌<◌, ◌≡◌, ◌≢◌, inl, inr, refl, ap, sym, ◌∙◌, subst, Bool, true, false,
  ◌&&◌, Option, none, some, List, [], ◌∷◌, arith, length, get_elem?, get_elem?-inside, get_or,
  Bool-cases, Option-cases, ℕ_discrete, ◌==◌, range_cons, pos, if◌then◌else◌,
}
use os_codes.Simplefs.Disk.{Fs, Inode, num_inodes, inode_in_use, read_inode, find_entry}
use os_codes.Simplefs.Ops.{same_name, find_file, new_inode}

same_name→eq : (a b : List ℕ) → same_name a b ≡ true → a ≡ b
unfolding same_name
same_name→eq [] [] h = refl
same_name→eq [] (y ∷ b) h = absurd (cc h)
same_name→eq (x ∷ a) [] h = absurd (cc h)
same_name→eq (x ∷ a) (y ∷ b) h = ground (arith, same_name→eq a b)

same_name_refl : (a : List ℕ) → same_name a a ≡ true
unfolding same_name
same_name_refl [] = refl
same_name_refl (x ∷ a) = ground (arith, same_name_refl a)

-- Inode `j` is in use under the name.
pub record Names (s : Fs) (name : List ℕ) (j : ℕ) : Type 0 where
  pub inode : Inode
  pub found : get_elem? s.inodes j ≡ some inode
  pub in_use : inode.status ≡ inode_in_use
  pub named : inode.name ≡ name

abbrev pub FindSpec : Fs → List ℕ → ℕ → ℕ → Option ℕ → Type 0
FindSpec s name k i (some j) = (i ≤ j) × (j < i + k) × Names s name j
FindSpec s name k i none = (j : ℕ) → i ≤ j → j < i + k → ¬ Names s name j

is_file : Inode → List ℕ → Bool
is_file inode name = inode.status == inode_in_use && same_name inode.name name

module _ (s : Fs) (name : List ℕ) (size : length s.inodes ≡ num_inodes) where
  pub read_inode-inside :
      (i : ℕ)
      → i < num_inodes
      → (inode : Inode) × (get_elem? s.inodes i ≡ some inode) × (read_inode (pos i) s ≡ some inode)
  unfolding read_inode
  read_inode-inside i lt = elim (Option-cases (get_elem? s.inodes i)) [
    | inl out ↦ absurd (cc (out, get_elem?-inside s.inodes i (new_inode []) (omega arith)))
    | inr (inode, e) ↦ (inode, e, ground arith)
  ]

  find_file-step :
      (k i : ℕ) (inode : Inode)
      → read_inode (pos i) s ≡ some inode
      → find_file s name (suc k) i
        ≡ (if is_file inode name then some (some i) else find_file s name k (i + 1))
  unfolding find_file is_file
  find_file-step k i inode e = rw (e, find_file)

  is_file-Names :
      (i : ℕ) (inode : Inode)
      → get_elem? s.inodes i ≡ some inode
      → is_file inode name ≡ true
      → Names s name i
  unfolding is_file
  is_file-Names i inode e h = record {
    inode = inode;
    found = e;
    in_use = ground arith;
    named = same_name→eq inode.name name (ground arith);
  }

  not-Names_of_test :
      (i : ℕ) (inode : Inode)
      → get_elem? s.inodes i ≡ some inode
      → is_file inode name ≡ false
      → ¬ Names s name i
  unfolding is_file
  not-Names_of_test i inode e h n =
      let same : n.inode ≡ inode = cc (n.found, e) in
      let equal : same_name inode.name name ≡ true =
        subst (λ x. same_name inode.name x ≡ true) (ap (λ (x : Inode). x.name) (sym same) ∙ n.named)
          (same_name_refl inode.name) in
      let used : inode.status ≡ inode_in_use = ap (λ (x : Inode). x.status) (sym same) ∙ n.in_use in
      ground arith

  FindSpec-step :
      (k i : ℕ)
      → ¬ Names s name i
      → (r : Option ℕ) → FindSpec s name k (i + 1) r
      → FindSpec s name (suc k) i r
  FindSpec-step k i miss (some j) (lo, hi, n) = (omega arith, omega arith, n)
  FindSpec-step k i miss none rest =
      range_cons (λ j. ¬ Names s name j) i (i + suc k) miss (λ j lo hi. rest j lo (omega arith))

  -- The search reads only the inodes that are there, and finds the first file of that name.
  pub find_file-FindSpec :
      (k i : ℕ)
      → i + k ≡ num_inodes
      → (r : Option ℕ) × (find_file s name k i ≡ some r) × FindSpec s name k i r
  find_file-FindSpec zero i e = (none, unfold find_file in refl, λ j lo hi. absurd (omega arith))
  find_file-FindSpec (suc k) i e =
      go (read_inode-inside i (omega arith)) (find_file-FindSpec k (i + 1) (omega arith))
    where
      go :
          (inode : Inode) × (get_elem? s.inodes i ≡ some inode)
            × (read_inode (pos i) s ≡ some inode)
          → (r : Option ℕ) × (find_file s name k (i + 1) ≡ some r) × FindSpec s name k (i + 1) r
          → (r : Option ℕ) × (find_file s name (suc k) i ≡ some r) × FindSpec s name (suc k) i r
      go (inode, at, reads) (r, rest, spec) = elim (Bool-cases (is_file inode name)) [
        | inl hit ↦ (
          some i,
          rw (find_file-step k i inode reads, hit),
          (omega arith, omega arith, is_file-Names i inode at hit),
        )
        | inr miss ↦ (
          r,
          rw (find_file-step k i inode reads, miss) rest,
          FindSpec-step k i (not-Names_of_test i inode at miss) r spec,
        )
      ]

-- What a search for a free entry finds.
pub find_entry-some :
    (c : ℕ) (xs : List ℕ) (k i j : ℕ)
    → find_entry c xs k i ≡ some j
    → (i ≤ j) × (j < i + k) × (get_or xs j 0 ≡ c)
unfolding find_entry
find_entry-some c xs zero i j e = absurd (cc e)
find_entry-some c xs (suc k) i j e = elim (ℕ_discrete (get_or xs i 0) c) [
  | yes hit ↦
      let same : i ≡ j = ground arith in
      (omega arith, omega arith, ap (λ m. get_or xs m 0) (sym same) ∙ hit)
  | no miss ↦ ground (arith, find_entry-some c xs k (i + 1) j)
]

pub find_entry-none :
    (c : ℕ) (xs : List ℕ) (k i j : ℕ)
    → find_entry c xs k i ≡ none
    → i ≤ j
    → j < i + k
    → get_or xs j 0 ≢ c
unfolding find_entry
find_entry-none c xs zero i j e lo hi = absurd (omega arith)
find_entry-none c xs (suc k) i j e lo hi = elim (ℕ_discrete i j) [
  | yes same ↦ ground arith
  | no other ↦ ground (arith, find_entry-none c xs k (i + 1) j)
]
