-- ===== src/Xv6/Fs/Unique.antt =====
-- The entries of the cache of inodes, through all the calls of fs.c on it.
use os_codes.Common.{
  ℕ, ◌-◌, ◌<◌, ◌≡◌, ◌≢◌, refl, sym, ap, ◌∙◌, subst, true, not, ◌&&◌, none, some, ltb, ◌==◌, arith,
  ℕ_discrete, inl, inr, Bool-cases, Option-cases,
}
use os_codes.Xv6.Fs.{Volume, put}
use os_codes.Xv6.Fs.Words.{put_self, put_other}
use os_codes.Xv6.Fs.Truncate.{itrunc}
use os_codes.Xv6.Fs.Icache.{
  Cached, Icache, ninode, is_cached, count_up, idup, done, load, ilock, holding, iunlock, delete,
  iput, Step, Reachable, gets, dups, locks, unlocks, puts, works, start, step,
}
use os_codes.Xv6.Fs.Iget.{Got, iget-Got, cached_fields, not_cached}

pub IsUnique : Icache → Type 0
IsUnique s =
    (i j : ℕ)
    → i < ninode
    → j < ninode
    → i ≢ j
    → 0 < (s.inode i).ref
    → 0 < (s.inode j).ref
    → (s.inode i).dev ≡ (s.inode j).dev
    → (s.inode i).node.inum ≢ (s.inode j).node.inum

-- An entry that is in use after a call was in use before it, for the same inode.
abbrev Same : Cached → Cached → Type 0
Same c d = 0 < d.ref → (0 < c.ref) × (d.dev ≡ c.dev) × (d.node.inum ≡ c.node.inum)

Same-IsUnique : (s t : Icache) → ((i : ℕ) → Same (s.inode i) (t.inode i)) → IsUnique s → IsUnique t
unfolding IsUnique
Same-IsUnique s t same unique i j lt_i lt_j ne used_i used_j dev inum =
    let (before_i, dev_i, inum_i) = same i used_i in
    let (before_j, dev_j, inum_j) = same j used_j in
    unique i j lt_i lt_j ne before_i before_j (sym dev_i ∙ dev ∙ dev_j) (sym inum_i ∙ inum ∙ inum_j)

put-Same :
    (inode : ℕ → Cached) (i : ℕ) (c : Cached)
    → Same (inode i) c
    → (j : ℕ) → Same (inode j) (put inode i c j)
put-Same inode i c same j = elim (ℕ_discrete j i) [
  | yes e ↦
      let now : put inode i c j ≡ c = ap (put inode i c) e ∙ put_self inode i c in rw (now, e) same
  | no ne ↦
      let old : put inode i c j ≡ inode j = put_other inode i c j ne in
      rw old (λ used. (used, refl, refl))
]

-- An entry with one pointer more is for the same inode.
hit-Same :
    (dev inum : ℕ) (s : Icache) (i : ℕ) (t : Icache)
    → is_cached dev inum (s.inode i) ≡ true
    → t.inode i ≡ count_up (s.inode i)
    → ((j : ℕ) → j ≢ i → t.inode j ≡ s.inode j)
    → (j : ℕ) → Same (s.inode j) (t.inode j)
hit-Same dev inum s i t found counted others j = elim (ℕ_discrete j i) [
  | yes e ↦
      let before = cached_fields dev inum (s.inode i) found in
      subst (λ k. Same (s.inode k) (t.inode k)) (sym e)
        (subst (Same (s.inode i)) (sym counted) (λ used. (before.0, refl, refl)))
  | no ne ↦ subst (Same (s.inode j)) (sym (others j ne)) (λ used. (used, refl, refl))
]

-- `iget` takes a free entry only if no entry in use is that of the inode.
Got-IsUnique :
    (dev inum : ℕ) (s : Icache) (i : ℕ) (t : Icache)
    → Got dev inum s (some (i, t))
    → IsUnique s
    → IsUnique t
unfolding IsUnique
Got-IsUnique dev inum s i t (lt, now, inl (found, counted), others, disk) unique =
    Same-IsUnique s t (hit-Same dev inum s i t found counted others) unique
Got-IsUnique dev inum s i t (lt, now, inr (absent, clear, one, unread), others, disk) unique =
    λ j k lt_j lt_k ne used_j used_k same_dev same_inum.
      let (used, dev_i, inum_i) = cached_fields dev inum (t.inode i) now in
      elim (ℕ_discrete j i) [
        | yes j_i ↦
            let k_old = others k (λ k_i. ne (j_i ∙ sym k_i)) in
            new_only k lt_k k_old used_k (sym same_dev ∙ ap (λ m. (t.inode m).dev) j_i ∙ dev_i)
              (sym same_inum ∙ ap (λ m. (t.inode m).node.inum) j_i ∙ inum_i)
        | no j_ne ↦ elim (ℕ_discrete k i) [
          | yes k_i ↦
              new_only j lt_j (others j j_ne) used_j
                (same_dev ∙ ap (λ m. (t.inode m).dev) k_i ∙ dev_i)
                (same_inum ∙ ap (λ m. (t.inode m).node.inum) k_i ∙ inum_i)
          | no k_ne ↦
              let j_old = others j j_ne in
              let k_old = others k k_ne in
              unique j k lt_j lt_k ne (subst (λ (c : Cached). 0 < c.ref) j_old used_j)
                (subst (λ (c : Cached). 0 < c.ref) k_old used_k)
                (ap (λ (c : Cached). c.dev) (sym j_old)
                  ∙ same_dev
                  ∙ ap (λ (c : Cached). c.dev) k_old)
                (ap (λ (c : Cached). c.node.inum) (sym j_old)
                  ∙ same_inum
                  ∙ ap (λ (c : Cached). c.node.inum) k_old)
        ]
      ]
  where
    new_only :
        (m : ℕ)
        → m < ninode
        → t.inode m ≡ s.inode m
        → 0 < (t.inode m).ref
        → (t.inode m).dev ≡ dev
        → (t.inode m).node.inum ≢ inum
    new_only m lt_m old used_m dev_m inum_m =
        not_cached dev inum (s.inode m) (absent m lt_m)
          (subst (λ (c : Cached). 0 < c.ref) old used_m)
          (ap (λ (c : Cached). c.dev) (sym old) ∙ dev_m)
          (ap (λ (c : Cached). c.node.inum) (sym old) ∙ inum_m)

load-Same : (pid : ℕ) (v : Volume) (c : Cached) → Same c (load pid v c)
load-Same pid v c = elim (Bool-cases c.valid) [
  | inl read ↦ rw read (λ used. (used, refl, refl))
  | inr unread ↦ rw unread (λ used. (used, refl, refl))
]

after :
    (s t : Icache) (inode : ℕ → Cached) (disk : ℕ → Volume)
    → done (record s { inode = inode; disk = disk }) ≡ done t
    → ((j : ℕ) → Same (s.inode j) (inode j))
    → (j : ℕ) → Same (s.inode j) (t.inode j)
after s t inode disk e same =
    let new : record s { inode = inode; disk = disk } ≡ t = cc e in
    subst (λ (u : Icache). (j : ℕ) → Same (s.inode j) (u.inode j)) new same

ilock-Same :
    (pid i : ℕ) (s t : Icache) → ilock pid i s ≡ done t → (j : ℕ) → Same (s.inode j) (t.inode j)
unfolding ilock
ilock-Same pid i s t e = elim (Bool-cases (ltb (s.inode i).ref 1)) [
  | inl none_left ↦ absurd (cc (rw none_left at e))
  | inr used ↦ elim (Option-cases (s.inode i).lock) [
    | inr (p, held) ↦ absurd (cc (rw (used, held) at e))
    | inl open_ ↦
        elim (Bool-cases (
          not (s.inode i).valid
          && ((load pid (s.disk (s.inode i).dev) (s.inode i)).node.type == 0))) [
            | inl untyped ↦ absurd (cc (rw (used, open_, untyped) at e))
            | inr typed ↦
                after s t (put s.inode i (load pid (s.disk (s.inode i).dev) (s.inode i))) s.disk
                  (rw (used, open_, typed) at e)
                  (put-Same s.inode i _ (load-Same pid (s.disk (s.inode i).dev) (s.inode i)))
          ]
  ]
]

iunlock-Same :
    (pid i : ℕ) (s t : Icache) → iunlock pid i s ≡ done t → (j : ℕ) → Same (s.inode j) (t.inode j)
unfolding iunlock
iunlock-Same pid i s t e = elim (Bool-cases (holding pid (s.inode i))) [
  | inr other ↦ absurd (cc (rw other at e))
  | inl held ↦ elim (Bool-cases (ltb (s.inode i).ref 1)) [
    | inl none_left ↦ absurd (cc (rw (held, none_left) at e))
    | inr used ↦
        after s t _ s.disk (rw (held, used) at e)
          (put-Same s.inode i (record (s.inode i) { lock = none }) (λ u. (u, refl, refl)))
  ]
]

delete-Same :
    (i : ℕ) (s t : Icache)
    → (s.inode i).ref ≡ 1
    → delete i s ≡ done t
    → (j : ℕ) → Same (s.inode j) (t.inode j)
delete-Same i s t one e = elim (Option-cases (itrunc (s.inode i).node (s.disk (s.inode i).dev))) [
  | inl panicked ↦ absurd (cc (rw (panicked, delete) at e))
  | inr ((jp, w), truncated) ↦
      after s t _ _ (rw (truncated, delete) at e)
        (put-Same s.inode i _ (λ used. absurd (omega (arith, one))))
]

iput-Same : (i : ℕ) (s t : Icache) → iput i s ≡ done t → (j : ℕ) → Same (s.inode j) (t.inode j)
unfolding iput
iput-Same i s t e = elim (Option-cases (s.inode i).lock) [
  | inr (p, held) ↦ absurd (cc (rw (held, iput) at e))
  | inl open_ ↦ elim (Bool-cases (ltb (s.inode i).ref 1)) [
    | inl none_left ↦ absurd (cc (rw (open_, iput, none_left) at e))
    | inr used ↦
        elim (Bool-cases
          ((s.inode i).valid && (((s.inode i).node.nlink == 0) && ((s.inode i).ref == 1)))) [
            | inr kept ↦ after s t _ s.disk (rw (open_, iput, used, kept) at e) (
                put-Same s.inode i (record (s.inode i) { ref = (s.inode i).ref - 1 })
                  (λ u. (omega arith, refl, refl)))
            | inl last ↦
                let one : (s.inode i).ref ≡ 1 = ground (arith, last) in
                delete-Same i s t one (rw (open_, iput, used, last) at e)
          ]
  ]
]

step-IsUnique : {s t : Icache} → Step s t → IsUnique s → IsUnique t
unfolding idup
step-IsUnique {s} (gets dev inum i t e) unique =
    Got-IsUnique dev inum s i t (subst (Got dev inum s) e (iget-Got dev inum s)) unique
step-IsUnique {s} (dups i used) unique =
    Same-IsUnique s _ (put-Same s.inode i _ (λ after. (used, refl, refl))) unique
step-IsUnique {s} (locks pid i t e) unique = Same-IsUnique s t (ilock-Same pid i s t e) unique
step-IsUnique {s} (unlocks pid i t e) unique = Same-IsUnique s t (iunlock-Same pid i s t e) unique
step-IsUnique {s} (puts i t e) unique = Same-IsUnique s t (iput-Same i s t e) unique
step-IsUnique {s} (works i node v same) unique =
    Same-IsUnique s _ (put-Same s.inode i _ (λ used. (used, refl, same))) unique

-- Whatever the processes call, no two entries in use are for the same inode of the same device.
pub reachable-IsUnique : {s : Icache} → Reachable s → IsUnique s
unfolding IsUnique
reachable-IsUnique (start s clear) = λ i j lt_i lt_j ne used_i. absurd (omega (arith, clear i))
reachable-IsUnique (step before taken) = step-IsUnique taken (reachable-IsUnique before)
