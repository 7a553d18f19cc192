-- ===== src/Xv6/Fs/Links.antt =====
-- `dirlookup` after `dirlink`.
use os_codes.Common.{
  ℕ, ◌+◌, ◌-◌, ◌*◌, ◌/◌, ◌≤◌, ◌<◌, ◌≡◌, ◌≢◌, refl, sym, ap, ◌∙◌, true, false, ◌&&◌, Option, none,
  some, ltb, leb, ◌==◌, if◌then◌else◌, arith, inl, inr, ◌⊎◌, Bool-cases, dec_lt, ℕ_discrete,
}
use os_codes.Xv6.Fs.{Inode, Volume, bsize, writei, WriteResult}
use os_codes.Xv6.Fs.Ownership.{addr_of, IsValid}
use os_codes.Xv6.Fs.Content.{max_bytes}
use os_codes.Xv6.Fs.RoundTrip.{Wrote, writei-Wrote}
use os_codes.Xv6.Fs.Dir.{
  dirent_size, inum_of, is_named, is_empty, scan_entries, rounds, dirlookup, new_entry, linked,
  write_entry, add_entry, dirlink,
}
use os_codes.Xv6.Fs.Lookup.{
  IsDir, Same, entry_at, First, Passes, Looked, scan_entries-First, is_named-Respects,
  is_empty-Respects, dirlookup-Looked, inum_of-Same,
}
use os_codes.Xv6.Fs.Linking.{inum_of-new_entry, is_named-new_entry}

write_entry-linked :
    (dp : Inode) (v : Volume) (de : ℕ → ℕ) (off : ℕ) (jp : Inode) (w : Volume)
    → write_entry dp v de off ≡ some (linked jp w)
    → (k : ℕ) × (writei dp v de off dirent_size ≡ some (WriteResult.returned k jp w))
unfolding write_entry
write_entry-linked dp v de off jp w e = go (writei dp v de off dirent_size) refl
  where
    go :
        (r : Option WriteResult)
        → writei dp v de off dirent_size ≡ r
        → (k : ℕ) × (writei dp v de off dirent_size ≡ some (WriteResult.returned k jp w))
    go none f = absurd (cc (rw (write_entry, f) at e))
    go (some WriteResult.refused) f = absurd (cc (rw (write_entry, f) at e))
    go (some (WriteResult.returned n kp u)) f = elim (Bool-cases (n == dirent_size)) [
      | inr short ↦ absurd (cc (rw (write_entry, f, short) at e))
      | inl full ↦
          let same : some (linked kp u) ≡ some (linked jp w) = rw (write_entry, f, full) at e in
          let same_ip : kp ≡ jp = cc same in
          let same_v : u ≡ w = cc same in
          (
            n,
            f
                ∙ ap (λ x. some (WriteResult.returned n x u)) same_ip
                ∙ ap (λ x. some (WriteResult.returned n jp x)) same_v,
          )
    ]

-- Entry `j` is the end of the directory, or an entry that is not in use.
abbrev pub Vacant : Inode → Volume → ℕ → ℕ → Type 0
Vacant dp v n j = (j ≡ n) ⊎ ((j < n) × (inum_of (entry_at dp v j) ≡ 0))

-- Where `dirlink` succeeds the name was not there, and the entry is written at the first empty one.
dirlink-linked :
    (dp : Inode) (v : Volume) (name : ℕ → ℕ) (inum n : ℕ) (jp : Inode) (w : Volume)
    → IsDir dp v n
    → dirlink dp v name inum ≡ some (linked jp w)
    → Passes (is_named name) dp v 0 n
      × ((j : ℕ) × (k : ℕ) × (j ≤ n)
          × Vacant dp v n j
          × (writei dp v (new_entry name inum) (dirent_size * j) dirent_size
              ≡ some (WriteResult.returned k jp w)))
unfolding dirlink add_entry
dirlink-linked dp v name inum n jp w dir e = go (dirlookup-Looked dp v name n dir)
  where
    place : (r : Option (ℕ → ℕ)) (j : ℕ) → First is_empty dp v n 0 r j → j ≤ n
    place none j (same, rest) = omega (arith, same)
    place (some de) j (le, lt, empty, same, rest) = omega arith

    vacant : (r : Option (ℕ → ℕ)) (j : ℕ) → First is_empty dp v n 0 r j → Vacant dp v n j
    vacant none j (same, rest) = inl same
    vacant (some de) j (le, lt, empty, same, rest) = inr (lt, ground (arith, empty))

    go :
        ((o : Option (ℕ × ℕ)) × (dirlookup dp v name ≡ some (o, dp, v)) × Looked dp v name n o)
        → Passes (is_named name) dp v 0 n
          × ((j : ℕ) × (k : ℕ) × (j ≤ n)
              × Vacant dp v n j
              × (writei dp v (new_entry name inum) (dirent_size * j) dirent_size
                  ≡ some (WriteResult.returned k jp w)))
    go (some x, found, rest) = absurd (cc (rw (dirlink, found) at e))
    go (none, found, absent) =
        let (r, j, empty, first) =
          scan_entries-First is_empty is_empty-Respects dp v n dir (rounds dp) 0 (omega arith)
            (omega (arith, dir.size)) in
        let start : dirent_size * 0 ≡ 0 = omega arith in
        let empty' : scan_entries is_empty (rounds dp) dp v 0 ≡ some (r, dirent_size * j, dp, v) =
          ap (scan_entries is_empty (rounds dp) dp v) (sym start) ∙ empty in
        let adds : add_entry dp v name inum ≡ some (linked jp w) = rw (dirlink, found) at e in
        let writes : write_entry dp v (new_entry name inum) (dirent_size * j) ≡ some (linked jp w) =
          rw (add_entry, empty') at adds in
        let (k, written) =
          write_entry-linked dp v (new_entry name inum) (dirent_size * j) jp w writes in
        (absent, (j, k, place r j first, vacant r j first, written))

-- A directory of `n` entries after a write of entry `j`.
abbrev after_write : ℕ → ℕ → ℕ
after_write n j = if j == n then n + 1 else n

module _ (dp : Inode) (v : Volume) (de : ℕ → ℕ) (n j : ℕ) (jp : Inode) (w : Volume)
    (dir : IsDir dp v n) (le : j ≤ n) (room : dirent_size * j + dirent_size ≤ max_bytes)
    (wrote : Wrote dp v jp w de (dirent_size * j) dirent_size) where
  pub entry-new : Same (entry_at jp w j) de
  entry-new z lt =
      let here_ : (leb (dirent_size * j) (dirent_size * j + z)
            && ltb (dirent_size * j + z) (dirent_size * j + dirent_size))
          ≡ true =
        ground arith in
      let place : dirent_size * j + z - dirent_size * j ≡ z = omega arith in
      wrote.bytes (dirent_size * j + z) (omega arith) ∙ (rw (here_, place))

  pub entry-old : (k : ℕ) → k < n → k ≢ j → Same (entry_at jp w k) (entry_at dp v k)
  entry-old k lt ne z lt_z =
      let out : (leb (dirent_size * j) (dirent_size * k + z)
            && ltb (dirent_size * k + z) (dirent_size * j + dirent_size))
          ≡ false =
        ground arith in
      wrote.bytes (dirent_size * k + z) (omega (arith, dir.room)) ∙ (rw out)

  entries :
      (n ≤ after_write n j)
      × (j < after_write n j)
      × ((k : ℕ) → k < after_write n j → k ≢ j → k < n)
      × (dirent_size * after_write n j ≤ max_bytes)
  entries = elim (Bool-cases (j == n)) [
    | inl end ↦
        let e : j ≡ n = ground (arith, end) in
        rw end
          (omega arith, omega arith, (λ k lt ne. ground (arith, lt, ne, e)), omega (arith, room, e))
    | inr inside ↦
        let e : j ≢ n = ground (arith, inside) in
        rw inside (omega arith, ground arith, (λ k lt ne. lt), dir.room)
  ]

  pub IsDir-write : IsDir jp w (after_write n j)
  IsDir-write = record {
    type = ap (λ (z : Inode). z.type) wrote.fields ∙ dir.type;
    size = elim (Bool-cases (j == n)) [
      | inl end ↦
          let e : j ≡ n = ground (arith, end) in rw end (ground (arith, wrote.size, dir.size, e))
      | inr inside ↦
          let e : j ≢ n = ground (arith, inside) in
          rw inside (ground (arith, wrote.size, dir.size, e))
    ];
    room = entries.3;
    mapped = λ x lt. elim (dec_lt x (dirent_size * j)) [
      | yes below ↦ old x (omega arith)
      | no above ↦ elim (dec_lt x (dirent_size * j + dirent_size)) [
        | yes new ↦ wrote.mapped x (omega arith) new
        | no past ↦ old x (elim (Bool-cases (j == n)) [
          | inl end ↦
              let e : j ≡ n = ground (arith, end) in
              let lt' = rw end at lt in absurd (omega (arith, lt', e))
          | inr inside ↦ rw inside at lt
        ])
      ]
    ];
  }
    where
      old : (x : ℕ) → x < dirent_size * n → addr_of jp w (x / bsize) ≢ 0
      old x lt e =
          let there_ = dir.mapped x lt in
          there_ (sym (wrote.kept (x / bsize) (omega (arith, dir.room)) there_) ∙ e)

-- After the write `dirlookup` finds the new entry, and no other.
dirlookup-new :
    (dp : Inode) (v : Volume) (name : ℕ → ℕ) (inum n j : ℕ) (jp : Inode) (w : Volume)
    → Passes (is_named name) dp v 0 n
    → inum_of (entry_at jp w j) ≡ inum
    → is_named name (entry_at jp w j) ≡ true
    → (m : ℕ) → j < m
    → ((k : ℕ) → k < m → k ≢ j → (k < n) × Same (entry_at jp w k) (entry_at dp v k))
    → (o : Option (ℕ × ℕ)) → Looked jp w name m o
    → o ≡ some (inum, dirent_size * j)
dirlookup-new dp v name inum n j jp w absent number named m lt old none looked =
    absurd (cc (looked j (omega arith) lt, named))
dirlookup-new dp v name inum n j jp w absent number named m lt old (some (found, off))
      (i, lt_i, at, named_i, number_i, before) =
    elim (ℕ_discrete i j) [
      | yes i_j ↦
          let number_j : found ≡ inum =
            number_i ∙ ap (λ k. inum_of (entry_at jp w k)) i_j ∙ number in
          let off_j : off ≡ dirent_size * j = omega (arith, at, i_j) in
          ap (λ k. some (k, off)) number_j ∙ ap (λ k. some (inum, k)) off_j
      | no ne ↦
          let (lt_n, same) = old i lt_i ne in
          let kept = is_named-Respects name _ _ same in
          absurd (cc (absent i (omega arith) lt_n, kept, named_i))
    ]

-- What `dirlink` leaves: a directory with the entry, whose other entries are as they were.
pub record Linked (dp : Inode) (v : Volume) (name : ℕ → ℕ) (inum n : ℕ) (jp : Inode) (w : Volume)
    : Type 0 where
  pub place : ℕ
  pub count : ℕ
  pub vacant : Vacant dp v n place
  pub valid : IsValid jp w
  pub dir : IsDir jp w count
  pub found : dirlookup jp w name ≡ some (some (inum, dirent_size * place), jp, w)
  pub others : (k : ℕ) → k < n → k ≢ place → Same (entry_at jp w k) (entry_at dp v k)

-- After `dirlink` of a name and a number, `dirlookup` of the name finds the number, at an entry that was
-- not in use or behind the last one; the directory is one again, and its other entries are as they were.
-- The number is not 0 and has 16 bits, and the bytes of the directory all have blocks.
pub dirlookup-dirlink :
    (dp : Inode) (v : Volume) (name : ℕ → ℕ) (inum n : ℕ) (jp : Inode) (w : Volume)
    → IsValid dp v
    → IsDir dp v n
    → inum ≢ 0
    → inum < 65536
    → dirlink dp v name inum ≡ some (linked jp w)
    → Linked dp v name inum n jp w
dirlookup-dirlink dp v name inum n jp w inv dir in_use small e =
    let (absent, (j, k, le, vacant, written)) = dirlink-linked dp v name inum n jp w dir e in
    let (same, room, wrote) =
      writei-Wrote dp v (new_entry name inum) (dirent_size * j) dirent_size k jp w inv
        (omega (arith, dir.size, dir.room)) (omega arith) written in
    let de : ℕ → ℕ = new_entry name inum in
    let m : ℕ = after_write n j in
    let new = entry-new dp v de n j jp w dir le room wrote in
    let old = entry-old dp v de n j jp w dir le room wrote in
    let (more, inside, below, top) = entries dp v de n j jp w dir le room wrote in
    let dir' = IsDir-write dp v de n j jp w dir le room wrote in
    let (o, found, looked) = dirlookup-Looked jp w name m dir' in
    let is_new =
      dirlookup-new dp v name inum n j jp w absent
        (inum_of-Same _ _ new ∙ inum_of-new_entry name inum small)
        (is_named-Respects name _ _ new ∙ is_named-new_entry name inum in_use small) m inside
        (λ i lt ne. (below i lt ne, old i (below i lt ne) ne)) o looked in
    record {
      place = j;
      count = m;
      vacant = vacant;
      valid = wrote.valid;
      dir = dir';
      found = found ∙ ap (λ x. some (x, jp, w)) is_new;
      others = old;
    }
