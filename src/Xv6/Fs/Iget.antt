-- ===== src/Xv6/Fs/Iget.antt =====
-- `iget` of fs.c: what its loop finds.
use os_codes.Common.{
  ℕ, zero, suc, ◌+◌, ◌≤◌, ◌<◌, ◌≡◌, ◌≢◌, refl, ap, subst, true, false, Option, none, some, ◌==◌,
  arith, inl, inr, ◌⊎◌, Bool-cases, range_cons,
}
use os_codes.Xv6.Fs.{put}
use os_codes.Xv6.Fs.Words.{put_self, put_other}
use os_codes.Xv6.Fs.Icache.{
  Cached, Icache, ninode, is_cached, remember, Found, hit, room, full, scan, lookup, count_up,
  recycle, iget,
}

-- No entry from `lo` on is that of the inode.
abbrev Absent : (ℕ → Cached) → ℕ → ℕ → ℕ → Type 0
Absent inode dev inum lo = (j : ℕ) → lo ≤ j → j < ninode → is_cached dev inum (inode j) ≡ false

-- What is remembered is a free entry.
abbrev IsFree : (ℕ → Cached) → Option ℕ → Type 0
IsFree inode empty = (e : ℕ) → empty ≡ some e → (e < ninode) × ((inode e).ref ≡ 0)

abbrev Scanned : (ℕ → Cached) → ℕ → ℕ → ℕ → Option ℕ → Found → Type 0
Scanned inode dev inum lo empty (hit i) = (i < ninode) × (is_cached dev inum (inode i) ≡ true)
Scanned inode dev inum lo empty (room e) =
    (e < ninode) × ((inode e).ref ≡ 0) × Absent inode dev inum lo
Scanned inode dev inum lo empty full =
    (empty ≡ none) × Absent inode dev inum lo × ((j : ℕ) → lo ≤ j → j < ninode → (inode j).ref ≢ 0)

module _ (inode : ℕ → Cached) (dev inum : ℕ) where
  remember-IsFree :
      (empty : Option ℕ) (i : ℕ)
      → i < ninode
      → IsFree inode empty
      → IsFree inode (remember empty i (inode i))
  remember-IsFree none i lt free = elim (Bool-cases ((inode i).ref == 0)) [
    | inl clear ↦ rw clear (λ e same.
        let e_i : i ≡ e = cc same in
        subst (λ x. (x < ninode) × ((inode x).ref ≡ 0)) e_i (lt, ground (arith, clear)))
    | inr other ↦ rw other (λ e same. absurd (cc same))
  ]
  remember-IsFree (some x) i lt free = free

  remember-none :
      (empty : Option ℕ) (i : ℕ)
      → remember empty i (inode i) ≡ none
      → (empty ≡ none) × ((inode i).ref ≢ 0)
  remember-none none i e = elim (Bool-cases ((inode i).ref == 0)) [
    | inl clear ↦ absurd (cc (rw clear at e))
    | inr other ↦ (refl, ground (arith, other))
  ]
  remember-none (some x) i e = absurd (cc e)

  Scanned-next :
      (lo : ℕ) (empty : Option ℕ) (r : Found)
      → is_cached dev inum (inode lo) ≡ false
      → Scanned inode dev inum (lo + 1) (remember empty lo (inode lo)) r
      → Scanned inode dev inum lo empty r
  Scanned-next lo empty (hit i) miss h = h
  Scanned-next lo empty (room e) miss (lt, clear, rest) =
      (lt, clear, range_cons (λ j. is_cached dev inum (inode j) ≡ false) lo ninode miss rest)
  Scanned-next lo empty full miss (nothing, rest, used) =
      let (before, here_) = remember-none empty lo nothing in
      (
        before,
        range_cons (λ j. is_cached dev inum (inode j) ≡ false) lo ninode miss rest,
        range_cons (λ j. (inode j).ref ≢ 0) lo ninode here_ used,
      )

  scan-Scanned :
      (k i : ℕ) (empty : Option ℕ)
      → i + k ≡ ninode
      → IsFree inode empty
      → Scanned inode dev inum i empty (scan inode dev inum k i empty)
  unfolding scan
  scan-Scanned zero i none all free =
      (refl, (λ j le lt. absurd (omega arith)), λ j le lt. absurd (omega arith))
  scan-Scanned zero i (some e) all free =
      let (lt, clear) = free e refl in (lt, clear, λ j le lt'. absurd (omega arith))
  scan-Scanned (suc k) i empty all free = elim (Bool-cases (is_cached dev inum (inode i))) [
    | inl found ↦ rw found (omega arith, found)
    | inr miss ↦ rw miss (
        Scanned-next i empty _ miss (
          scan-Scanned k (i + 1) (remember empty i (inode i)) (omega arith)
            (remember-IsFree empty i (omega arith) free)))
  ]

  lookup-Scanned : Scanned inode dev inum 0 none (lookup inode dev inum)
  unfolding lookup
  lookup-Scanned = scan-Scanned ninode 0 none refl (λ e same. absurd (cc same))

-- An entry in use is that of the inode exactly if the test says so.
pub cached_fields :
    (dev inum : ℕ) (c : Cached)
    → is_cached dev inum c ≡ true
    → (0 < c.ref) × (c.dev ≡ dev) × (c.node.inum ≡ inum)
cached_fields dev inum c e = (ground (arith, e), ground (arith, e), ground (arith, e))

pub not_cached :
    (dev inum : ℕ) (c : Cached)
    → is_cached dev inum c ≡ false
    → 0 < c.ref
    → c.dev ≡ dev
    → c.node.inum ≢ inum
not_cached dev inum c e used same_dev same_inum =
    let test : is_cached dev inum c ≡ true = ground (arith, used, same_dev, same_inum) in
    cc (e, test)

-- What `iget` returns: the one entry in use for the inode, with one pointer more; without such an entry
-- a free one, with one pointer; and a panic if there is neither.
abbrev pub Got : ℕ → ℕ → Icache → Option (ℕ × Icache) → Type 0
Got dev inum s none =
    (j : ℕ) → j < ninode → ((s.inode j).ref ≢ 0) × (is_cached dev inum (s.inode j) ≡ false)
Got dev inum s (some (i, t)) =
    (i < ninode)
    × (is_cached dev inum (t.inode i) ≡ true)
    × (((is_cached dev inum (s.inode i) ≡ true) × (t.inode i ≡ count_up (s.inode i)))
        ⊎ (((j : ℕ) → j < ninode → is_cached dev inum (s.inode j) ≡ false)
            × ((s.inode i).ref ≡ 0)
            × ((t.inode i).ref ≡ 1)
            × ((t.inode i).valid ≡ false)))
    × ((j : ℕ) → j ≢ i → t.inode j ≡ s.inode j)
    × (t.disk ≡ s.disk)

iget_found :
    (dev inum : ℕ) (s : Icache) (r : Found)
    → lookup s.inode dev inum ≡ r
    → Scanned s.inode dev inum 0 none r
    → Got dev inum s (iget dev inum s)
unfolding iget
iget_found dev inum s (hit i) e (lt, found) =
    let (used, same_dev, same_inum) = cached_fields dev inum (s.inode i) found in
    let now : put s.inode i (count_up (s.inode i)) i ≡ count_up (s.inode i) =
      put_self s.inode i _ in
    rw (iget, e)
      (
        lt,
        rw now (ground (arith, same_dev, same_inum)),
        inl (found, now),
        (λ j ne. put_other s.inode i _ j ne),
        refl,
      )
iget_found dev inum s (room i) e (lt, clear, absent) =
    let now : put s.inode i (recycle dev inum (s.inode i)) i ≡ recycle dev inum (s.inode i) =
      put_self s.inode i _ in
    rw (iget, e)
      (
        lt,
        rw now (ground arith),
        inr (
          (λ j lt_j. absent j (omega arith) lt_j),
          clear,
          ap (λ (c : Cached). c.ref) now,
          ap (λ (c : Cached). c.valid) now,
        ),
        (λ j ne. put_other s.inode i _ j ne),
        refl,
      )
iget_found dev inum s full e (nothing, absent, used) =
    rw (iget, e) (λ j lt. (used j (omega arith) lt, absent j (omega arith) lt))

pub iget-Got : (dev inum : ℕ) (s : Icache) → Got dev inum s (iget dev inum s)
iget-Got dev inum s = iget_found dev inum s _ refl (lookup-Scanned s.inode dev inum)
