-- ===== src/Simplefs/Ops/Create.antt =====
-- `simplefs_create`: its outcomes.
use os_codes.Common.{
  ℕ, zero, suc, ◌<◌, ◌≡◌, ◌≢◌, ◌⊎◌, inl, inr, refl, ap, sym, ◌∙◌, subst, Option, none, some, List,
  [], ◌∷◌, arith, length, get_elem?, get_elem?-outside, get_elem?-set_self, get_elem?-set_ne,
  get_or, replicate, get_or-set_self, get_or-set_ne, set, ℕ_discrete, dec_lt, pos, negsuc, ℤ,
  lt→ltb,
}
use mathlib.Core.Option.{some-injective}
use os_codes.Simplefs.Disk.{
  Fs, Inode, num_inodes, max_name_strlen, inode_free, inode_in_use, minus_one, write_inode,
  alloc_inode, find_entry, write_at, set_inode_entry, zero_inode,
}
use os_codes.Simplefs.Ops.{copy_name, find_file, new_inode, create, create_at}
use os_codes.Simplefs.Ops.Names.{
  Names, FindSpec, find_file-FindSpec, find_entry-some, find_entry-none,
}

-- The free list `fl` agrees with the inodes.
abbrev pub Agree : List ℕ → List Inode → Type 0
Agree fl inodes =
    (i : ℕ) (inode : Inode) → get_elem? inodes i ≡ some inode → get_or fl i 0 ≡ inode.status

pub Agree-set :
    (fl : List ℕ) (inodes : List Inode) (i c : ℕ) (v : Inode)
    → v.status ≡ c
    → i < length fl
    → i < length inodes
    → Agree fl inodes
    → Agree (set fl i c) (set inodes i v)
Agree-set fl inodes i c v status lf li agree j inode e = elim (ℕ_discrete i j) [
  | yes same ↦
      let at : get_elem? (set inodes i v) i ≡ some inode =
        subst (λ k. get_elem? (set inodes i v) k ≡ some inode) (sym same) e in
      let inode_v : v ≡ inode = cc (at, get_elem?-set_self inodes i v li) in
      subst (λ k. get_or (set fl i c) k 0 ≡ inode.status) same
        (get_or-set_self fl i c 0 lf ∙ sym status ∙ ap (λ (x : Inode). x.status) inode_v)
  | no differ ↦
      get_or-set_ne fl i j c 0 differ ∙ agree j inode (sym (get_elem?-set_ne inodes v differ) ∙ e)
]

pub Agree-replicate : (n c : ℕ) (v : Inode) → v.status ≡ c → Agree (replicate n c) (replicate n v)
Agree-replicate zero c v h i inode e = absurd (cc e)
Agree-replicate (suc n) c v h zero inode e =
    sym h ∙ ap (λ (x : Inode). x.status) (some-injective _ _ e)
Agree-replicate (suc n) c v h (suc i) inode e = Agree-replicate n c v h i inode e

-- The inodes and their free list are whole, and agree.
pub record IsConsistent (s : Fs) : Type 0 where
  pub inodes_size : length s.inodes ≡ num_inodes
  pub freelist_size : length s.superblock.inode_freelist ≡ num_inodes
  pub agree : Agree s.superblock.inode_freelist s.inodes

-- The disk after a file was created in inode `i`.
abbrev pub created : ℕ → List ℕ → Fs → Fs
created i name s = record (set_inode_entry i inode_in_use s) {
  inodes = set s.inodes i (new_inode name);
}

abbrev pub Exists : Fs → List ℕ → Type 0
Exists s name = (j : ℕ) × Names s name j

abbrev pub CreateSpec : Fs → List ℕ → ℤ × Fs → Type 0
CreateSpec s name (pos i, t) =
    (i < num_inodes)
    × (get_or s.superblock.inode_freelist i 0 ≡ inode_free)
    × (¬ Exists s name)
    × (t ≡ created i name s)
CreateSpec s name (negsuc n, t) =
    (n ≡ 0)
    × (t ≡ s)
    × (Exists s name
        ⊎ ((i : ℕ) → i < num_inodes → get_or s.superblock.inode_freelist i 0 ≢ inode_free))

pub write_at-eq-set :
    {A : Type 0} (z : A) (xs : List A) (i : ℕ) (v : A)
    → i < length xs
    → write_at z xs i v ≡ set xs i v
unfolding write_at
write_at-eq-set z [] i v h = absurd (omega arith)
write_at-eq-set z (x ∷ xs) zero v h = refl
write_at-eq-set z (x ∷ xs) (suc i) v h = ap (λ l. x ∷ l) (write_at-eq-set z xs i v (omega arith))

pub write_inode-inside :
    (i : ℕ) (inode : Inode) (s : Fs)
    → i < num_inodes
    → length s.inodes ≡ num_inodes
    → write_inode (pos i) inode s ≡ some (record s { inodes = set s.inodes i inode })
unfolding write_inode
write_inode-inside i inode s lt size =
    rw (lt→ltb i num_inodes lt, write_at-eq-set zero_inode s.inodes i inode (omega arith))

pub Names-inside :
    (s : Fs) (name : List ℕ) (j : ℕ)
    → length s.inodes ≡ num_inodes
    → Names s name j
    → j < num_inodes
Names-inside s name j size n = elim (dec_lt j num_inodes) [
  | yes h ↦ h
  | no h ↦ absurd (cc (n.found, get_elem?-outside s.inodes j (omega arith)))
]

module _ (name : List ℕ) (s : Fs) where
  pub create-found :
      (j : ℕ) → find_file s name num_inodes 0 ≡ some (some j) → create name s ≡ some (minus_one, s)
  unfolding create
  create-found j e = rw (e, create)

  create-none :
      find_file s name num_inodes 0 ≡ some none → create name s ≡ create_at name (alloc_inode s)
  unfolding create
  create-none e = rw (e, create)

  alloc_inode-full :
      find_entry inode_free s.superblock.inode_freelist num_inodes 0 ≡ none
      → alloc_inode s ≡ (minus_one, s)
  unfolding alloc_inode
  alloc_inode-full e = rw (e, alloc_inode)

  alloc_inode-some :
      (i : ℕ)
      → find_entry inode_free s.superblock.inode_freelist num_inodes 0 ≡ some i
      → alloc_inode s ≡ (pos i, set_inode_entry i inode_in_use s)
  unfolding alloc_inode
  alloc_inode-some i e = rw (e, alloc_inode)

  create_at-inside :
      (i : ℕ)
      → length name < max_name_strlen
      → i < num_inodes
      → length s.inodes ≡ num_inodes
      → create_at name (pos i, set_inode_entry i inode_in_use s) ≡ some (pos i, created i name s)
  unfolding create_at copy_name
  create_at-inside i short lt size = rw (
    lt→ltb (length name) max_name_strlen short,
    write_inode-inside i (new_inode name) (set_inode_entry i inode_in_use s) lt size,
  )

  create_absent :
      length s.inodes ≡ num_inodes
      → length name < max_name_strlen
      → ¬ Exists s name
      → (f : Option ℕ) → find_entry inode_free s.superblock.inode_freelist num_inodes 0 ≡ f
      → (r : ℤ × Fs) × (create_at name (alloc_inode s) ≡ some r) × CreateSpec s name r
  create_absent size short absent none e = (
    (minus_one, s),
    rw (alloc_inode-full e) (unfold create_at in refl),
    (refl, refl, inr λ i lt. find_entry-none _ _ num_inodes 0 i e (omega arith) (omega arith)),
  )
  create_absent size short absent (some i) e =
      let (lo, hi, free) = find_entry-some _ _ num_inodes 0 i e in
      (
        (pos i, created i name s),
        rw (alloc_inode-some i e) (create_at-inside i short (omega arith) size),
        (omega arith, free, absent, refl),
      )

  create_outcome :
      length s.inodes ≡ num_inodes
      → length name < max_name_strlen
      → (r : Option ℕ) × (find_file s name num_inodes 0 ≡ some r) × FindSpec s name num_inodes 0 r
      → (r : ℤ × Fs) × (create name s ≡ some r) × CreateSpec s name r
  create_outcome size short (some j, e, (lo, hi, n)) =
      ((minus_one, s), create-found j e, (refl, refl, inl (j, n)))
  create_outcome size short (none, e, missing) =
      rw (create-none e) (create_absent size short absent _ refl)
    where
      absent : ¬ Exists s name
      absent (j, n) = missing j (omega arith) (Names-inside s name j size n) n

-- On a disk of 8 inodes, for a name of at most 7 bytes, `simplefs_create` stops at no assertion. It
-- returns an inode that was free, on a disk with no file of that name, and that inode becomes the empty
-- file of that name; or it returns -1 and changes nothing, because a file has that name or because
-- no inode is free.
pub create_total :
    (name : List ℕ) (s : Fs)
    → length s.inodes ≡ num_inodes
    → length name < max_name_strlen
    → (r : ℤ × Fs) × (create name s ≡ some r) × CreateSpec s name r
create_total name s size short =
    create_outcome name s size short (find_file-FindSpec s name size num_inodes 0 refl)
