-- ===== src/Xv6/File/Table.antt =====
-- The counts of the table of open files of file.c.
use os_codes.Common.{
  ℕ, zero, suc, ◌+◌, ◌-◌, ◌≤◌, ◌<◌, ◌≡◌, ◌≢◌, refl, sym, ap, ◌∙◌, subst, true, false, Option, none,
  some, ltb, ◌==◌, arith, inl, inr, Bool-cases, ℕ_discrete, range_cons,
}
use os_codes.Xv6.Fs.{put}
use os_codes.Xv6.Fs.Words.{put_self, put_other}
use os_codes.Xv6.File.{
  File, System, returns, nfile, find_file, find_unused, filealloc, filedup, fileclose,
}

-- A copy of a pointer that is closed again leaves every open file, pipe and inode as it was.
pub fileclose-filedup :
    (f : ℕ) (s t : System)
    → filedup f s ≡ some t
    → (u : System) × (fileclose f t ≡ returns 0 u)
      × ((g : ℕ) → u.file g ≡ s.file g)
      × (u.pipe ≡ s.pipe)
      × (u.cache ≡ s.cache)
unfolding filedup fileclose
fileclose-filedup f s t e = elim (Bool-cases (ltb (s.file f).ref 1)) [
  | inl unused ↦ absurd (cc (rw (filedup, unused) at e))
  | inr used ↦
      let more : File = record (s.file f) { ref = (s.file f).ref + 1 } in
      let v : System = record s { file = put s.file f more } in
      let same : v ≡ t = cc (rw (filedup, used) at e) in
      subst
        (λ (x : System).
          (u : System) × (fileclose f x ≡ returns 0 u)
          × ((g : ℕ) → u.file g ≡ s.file g)
          × (u.pipe ≡ s.pipe)
          × (u.cache ≡ s.cache))
        same
        (let entry : v.file f ≡ more = put_self s.file f more in
          let counted : ltb (v.file f).ref 1 ≡ false = rw entry (ground arith) in
          let shared : ltb 0 ((v.file f).ref - 1) ≡ true = rw entry (ground (arith, used)) in
          let less : File = record (v.file f) { ref = (v.file f).ref - 1 } in
          (
            record v { file = put v.file f less },
            rw (fileclose, counted, shared),
            (λ g. elim (ℕ_discrete g f) [
              | yes e' ↦
                  let count : (s.file f).ref + 1 - 1 ≡ (s.file f).ref = omega arith in
                  ap (put v.file f less) e'
                  ∙ put_self v.file f less
                  ∙ ap (λ (x : File). record x { ref = x.ref - 1 }) entry
                  ∙ ap (λ n. record (s.file f) { ref = n }) count
                  ∙ ap s.file (sym e')
              | no ne ↦ put_other v.file f less g ne ∙ put_other s.file f more g ne
            ]),
            refl,
            refl,
          ))
]

-- `filealloc` takes the first entry that is not in use, if there is one.
abbrev pub Allocated : System → Option (ℕ × System) → Type 0
Allocated s none = (g : ℕ) → g < nfile → (s.file g).ref ≢ 0
Allocated s (some (f, t)) =
    (f < nfile)
    × ((s.file f).ref ≡ 0)
    × ((g : ℕ) → g < f → (s.file g).ref ≢ 0)
    × ((t.file f).ref ≡ 1)
    × ((g : ℕ) → g ≢ f → t.file g ≡ s.file g)

abbrev Searched : (ℕ → File) → ℕ → Option ℕ → Type 0
Searched file lo none = (g : ℕ) → lo ≤ g → g < nfile → (file g).ref ≢ 0
Searched file lo (some f) =
    (lo ≤ f) × (f < nfile) × ((file f).ref ≡ 0) × ((g : ℕ) → lo ≤ g → g < f → (file g).ref ≢ 0)

Searched-next :
    (file : ℕ → File) (lo : ℕ) (r : Option ℕ)
    → (file lo).ref ≢ 0
    → Searched file (lo + 1) r
    → Searched file lo r
Searched-next file lo none used rest = range_cons (λ g. (file g).ref ≢ 0) lo nfile used rest
Searched-next file lo (some f) used (le, lt, clear, rest) =
    (omega arith, lt, clear, range_cons (λ g. (file g).ref ≢ 0) lo f used rest)

find_file-Searched :
    (file : ℕ → File) (k lo : ℕ) → lo + k ≡ nfile → Searched file lo (find_file file k lo)
unfolding find_file
find_file-Searched file zero lo all = λ g le lt. absurd (omega arith)
find_file-Searched file (suc k) lo all = elim (Bool-cases ((file lo).ref == 0)) [
  | inl clear ↦
      rw clear (omega arith, omega arith, ground (arith, clear), λ g le lt. absurd (omega arith))
  | inr used ↦ rw used (
      Searched-next file lo (find_file file k (lo + 1)) (ground (arith, used))
        (find_file-Searched file k (lo + 1) (omega arith)))
]

find_unused-Searched : (file : ℕ → File) → Searched file 0 (find_unused file)
unfolding find_unused
find_unused-Searched file = find_file-Searched file nfile 0 refl

filealloc_found :
    (s : System) (r : Option ℕ)
    → find_unused s.file ≡ r
    → Searched s.file 0 r
    → Allocated s (filealloc s)
unfolding filealloc
filealloc_found s none e used = rw (e, filealloc) (λ g lt. used g (omega arith) lt)
filealloc_found s (some f) e (le, lt, clear, before) =
    rw (e, filealloc)
      (
        lt,
        clear,
        (λ g lt'. before g (omega arith) lt'),
        ap (λ (x : File). x.ref) (put_self s.file f _),
        λ g ne. put_other s.file f _ g ne,
      )

-- `filealloc` takes the first entry of the table that is not in use and changes no other one; it returns
-- the null pointer exactly if all are in use.
pub filealloc-Allocated : (s : System) → Allocated s (filealloc s)
filealloc-Allocated s = filealloc_found s _ refl (find_unused-Searched s.file)
