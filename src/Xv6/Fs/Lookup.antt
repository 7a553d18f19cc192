-- ===== src/Xv6/Fs/Lookup.antt =====
-- What the loops over the entries of a directory find.
use os_codes.Common.{
  ℕ, zero, suc, ◌+◌, ◌-◌, ◌*◌, ◌/◌, ◌≤◌, ◌<◌, ◌≡◌, ◌≢◌, refl, sym, ap, ◌∙◌, Bool, true, false, not,
  ◌&&◌, Option, none, some, ltb, leb, ◌==◌, arith, inl, inr, Bool-cases, dec_lt, range_cons,
}
use os_codes.Xv6.Fs.{Inode, Volume, bsize}
use os_codes.Xv6.Fs.Ownership.{addr_of}
use os_codes.Xv6.Fs.Content.{max_bytes, content}
use os_codes.Xv6.Fs.Reading.{read_from-Holds}
use os_codes.Xv6.Fs.RoundTrip.{readi_inside}
use os_codes.Xv6.Fs.Dir.{
  dirent_size, t_dir, inum_of, name_of, same_from, equal_names, read_entry, is_named, is_empty,
  scan_entries, rounds, dirlookup,
}

-- A directory of `n` entries: each byte of it has a block.
pub record IsDir (dp : Inode) (v : Volume) (n : ℕ) : Type 0 where
  pub type : dp.type ≡ t_dir
  pub size : dp.size ≡ dirent_size * n
  pub room : dirent_size * n ≤ max_bytes
  pub mapped : (x : ℕ) → x < dirent_size * n → addr_of dp v (x / bsize) ≢ 0

-- Entry `k`
abbrev pub entry_at : Inode → Volume → ℕ → ℕ → ℕ
entry_at dp v k z = content dp v (dirent_size * k + z)

-- The same bytes in an entry.
abbrev pub Same : (ℕ → ℕ) → (ℕ → ℕ) → Type 0
Same d e = (z : ℕ) → z < dirent_size → d z ≡ e z

pub read_entry-Same :
    (dp : Inode) (v : Volume) (n k : ℕ)
    → IsDir dp v n
    → k < n
    → (de : ℕ → ℕ) × (read_entry dp v (dirent_size * k) ≡ some (dp, v, de))
      × Same de (entry_at dp v k)
unfolding read_entry
read_entry-Same dp v n k dir lt =
    let (d, result, holds) =
      read_from-Holds dirent_size dp v (dirent_size * k) 0 dirent_size (λ z. 0) (omega arith)
        (omega (arith, dir.room)) (λ x le lt'. dir.mapped x (omega arith)) in
    let read =
      readi_inside dp v (λ z. 0) d (dirent_size * k) dirent_size (omega (arith, dir.size))
        (omega (arith, dir.room)) result in
    (
      d,
      rw (read, read_entry),
      λ z lt'.
          let here_ : (leb 0 z && ltb z (0 + dirent_size)) ≡ true = ground arith in
          let start : z - 0 ≡ z = omega arith in
          (rw here_ at (holds z)) ∙ ap (λ y. content dp v (dirent_size * k + y)) start,
    )

-- A test that reads the bytes of the entry only.
abbrev pub Respects : ((ℕ → ℕ) → Bool) → Type 0
Respects stop = (d e : ℕ → ℕ) → Same d e → stop d ≡ stop e

-- The entries from `k` on and before `m` do not pass the test.
abbrev pub Passes : ((ℕ → ℕ) → Bool) → Inode → Volume → ℕ → ℕ → Type 0
Passes stop dp v k m = (j : ℕ) → k ≤ j → j < m → stop (entry_at dp v j) ≡ false

-- The first entry from `k` on that passes, or the end of the directory.
abbrev pub First : ((ℕ → ℕ) → Bool) → Inode → Volume → ℕ → ℕ → Option (ℕ → ℕ) → ℕ → Type 0
First stop dp v n k none j = (j ≡ n) × Passes stop dp v k n
First stop dp v n k (some de) j =
    (k ≤ j)
    × (j < n)
    × (stop (entry_at dp v j) ≡ true)
    × Same de (entry_at dp v j)
    × Passes stop dp v k j

scan_entries-end :
    (stop : (ℕ → ℕ) → Bool) (fuel : ℕ) (dp : Inode) (v : Volume) (off : ℕ)
    → dp.size ≤ off
    → scan_entries stop (suc fuel) dp v off ≡ some (none, off, dp, v)
unfolding scan_entries
scan_entries-end stop fuel dp v off le =
    let test : ltb off dp.size ≡ false = ground arith in rw (scan_entries, test)

scan_entries-stop :
    (stop : (ℕ → ℕ) → Bool) (fuel : ℕ) (dp : Inode) (v : Volume) (off : ℕ) (de : ℕ → ℕ)
    → off < dp.size
    → read_entry dp v off ≡ some (dp, v, de)
    → stop de ≡ true
    → scan_entries stop (suc fuel) dp v off ≡ some (some de, off, dp, v)
unfolding scan_entries
scan_entries-stop stop fuel dp v off de lt read stops =
    let test : ltb off dp.size ≡ true = ground arith in rw (scan_entries, test, read, stops)

scan_entries_goes :
    (stop : (ℕ → ℕ) → Bool) (fuel : ℕ) (dp : Inode) (v : Volume) (off : ℕ) (de : ℕ → ℕ)
    → off < dp.size
    → read_entry dp v off ≡ some (dp, v, de)
    → stop de ≡ false
    → scan_entries stop (suc fuel) dp v off ≡ scan_entries stop fuel dp v (off + dirent_size)
unfolding scan_entries
scan_entries_goes stop fuel dp v off de lt read goes =
    let test : ltb off dp.size ≡ true = ground arith in rw (scan_entries, test, read, goes)

module _ (stop : (ℕ → ℕ) → Bool) (respects : Respects stop) (dp : Inode) (v : Volume) (n : ℕ)
    (dir : IsDir dp v n) where
  First-next :
      (k : ℕ) (r : Option (ℕ → ℕ)) (j : ℕ)
      → stop (entry_at dp v k) ≡ false
      → First stop dp v n (k + 1) r j
      → First stop dp v n k r j
  First-next k none j miss (e, rest) =
      (e, range_cons (λ i. stop (entry_at dp v i) ≡ false) k n miss rest)
  First-next k (some de) j miss (le, lt, passes, same, rest) = (
    omega arith,
    lt,
    passes,
    same,
    range_cons (λ i. stop (entry_at dp v i) ≡ false) k j miss rest,
  )

  pub scan_entries-First :
      (fuel k : ℕ)
      → k ≤ n
      → n < fuel + k
      → (r : Option (ℕ → ℕ)) × (j : ℕ) × (scan_entries stop fuel dp v (dirent_size * k)
          ≡ some (r, dirent_size * j, dp, v))
        × First stop dp v n k r j
  scan_entries-First zero k le enough = absurd (omega arith)
  scan_entries-First (suc fuel) k le enough = elim (dec_lt k n) [
    | no past ↦
        let end : k ≡ n = omega arith in
        (
          none,
          k,
          scan_entries-end stop fuel dp v (dirent_size * k) (omega (arith, dir.size)),
          (end, λ j le_j lt_j. absurd (omega arith)),
        )
    | yes inside ↦
        let (de, read, same) = read_entry-Same dp v n k dir inside in
        let lt : dirent_size * k < dp.size = omega (arith, dir.size) in
        elim (Bool-cases (stop de)) [
          | inl stops ↦ (
            some de,
            k,
            scan_entries-stop stop fuel dp v (dirent_size * k) de lt read stops,
            (
              omega arith,
              inside,
              sym (respects de _ same) ∙ stops,
              same,
              λ j le_j lt_j. absurd (omega arith),
            ),
          )
          | inr goes ↦
              let (r, j, found, first) =
                scan_entries-First fuel (k + 1) (omega arith) (omega arith) in
              let next_off : dirent_size * k + dirent_size ≡ dirent_size * (k + 1) = omega arith in
              (
                r,
                j,
                scan_entries_goes stop fuel dp v (dirent_size * k) de lt read goes
                    ∙ ap (scan_entries stop fuel dp v) next_off
                    ∙ found,
                First-next k r j (sym (respects de _ same) ∙ goes) first,
              )
        ]
  ]

pub inum_of-Same : (d e : ℕ → ℕ) → Same d e → inum_of d ≡ inum_of e
inum_of-Same d e same = omega (arith, same 0 (omega arith), same 1 (omega arith))

pub same_from-Same :
    (n : ℕ) (s t u : ℕ → ℕ) (i : ℕ)
    → ((z : ℕ) → i ≤ z → z < i + n → t z ≡ u z)
    → same_from n s t i ≡ same_from n s u i
unfolding same_from
same_from-Same zero s t u i same = refl
same_from-Same (suc n) s t u i same =
    let here_ = same i (omega arith) (omega arith) in
    let rest = same_from-Same n s t u (i + 1) (λ z le lt. same z (omega arith) (omega arith)) in
    rw (here_, rest)

pub is_named-Respects : (name : ℕ → ℕ) → Respects (is_named name)
unfolding equal_names
is_named-Respects name d e same =
    let number = inum_of-Same d e same in
    let names_same =
      same_from-Same 14 name (name_of d) (name_of e) 0 (λ z le lt. same (2 + z) (omega arith)) in
    ap (λ b. not (inum_of d == 0) && b) names_same
    ∙ ap (λ k. not (k == 0) && same_from 14 name (name_of e) 0) number

pub is_empty-Respects : Respects is_empty
is_empty-Respects d e same = ap (λ k. k == 0) (inum_of-Same d e same)

-- What `dirlookup` comes to in a directory of `n` entries.
abbrev pub Looked : Inode → Volume → (ℕ → ℕ) → ℕ → Option (ℕ × ℕ) → Type 0
Looked dp v name n none = Passes (is_named name) dp v 0 n
Looked dp v name n (some (inum, off)) =
    (j : ℕ) × (j < n)
    × (off ≡ dirent_size * j)
    × (is_named name (entry_at dp v j) ≡ true)
    × (inum ≡ inum_of (entry_at dp v j))
    × Passes (is_named name) dp v 0 j

dirlookup_found :
    (dp : Inode) (v : Volume) (name : ℕ → ℕ) (n j : ℕ) (r : Option (ℕ → ℕ))
    → dp.type ≡ t_dir
    → scan_entries (is_named name) (rounds dp) dp v 0 ≡ some (r, dirent_size * j, dp, v)
    → First (is_named name) dp v n 0 r j
    → (o : Option (ℕ × ℕ)) × (dirlookup dp v name ≡ some (o, dp, v)) × Looked dp v name n o
unfolding dirlookup
dirlookup_found dp v name n j none type found (e, rest) =
    let test : (dp.type == t_dir) ≡ true = ground (arith, type) in
    (none, rw (dirlookup, test, found), rest)
dirlookup_found dp v name n j (some de) type found (le, lt, passes, same, rest) =
    let test : (dp.type == t_dir) ≡ true = ground (arith, type) in
    (
      some (inum_of de, dirent_size * j),
      rw (dirlookup, test, found),
      (j, lt, refl, passes, inum_of-Same de _ same, rest),
    )

-- `dirlookup` of a directory whose bytes all have blocks returns, without a panic and without a change of
-- the disk, the number and the offset of the first entry in use with the name, or nothing if no entry in
-- use has it.
pub dirlookup-Looked :
    (dp : Inode) (v : Volume) (name : ℕ → ℕ) (n : ℕ)
    → IsDir dp v n
    → (o : Option (ℕ × ℕ)) × (dirlookup dp v name ≡ some (o, dp, v)) × Looked dp v name n o
dirlookup-Looked dp v name n dir =
    let (r, j, found, first) =
      scan_entries-First (is_named name) (is_named-Respects name) dp v n dir (rounds dp) 0
        (omega arith) (omega (arith, dir.size)) in
    let start : dirent_size * 0 ≡ 0 = omega arith in
    dirlookup_found dp v name n j r dir.type
      (ap (scan_entries (is_named name) (rounds dp) dp v) (sym start) ∙ found) first
