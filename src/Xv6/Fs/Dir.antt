-- ===== src/Xv6/Fs/Dir.antt =====
-- fs.c: directories, which are files of entries of 16 bytes. A name is a function from places to bytes.
use os_codes.Common.{
  ℕ, zero, suc, ◌+◌, ◌-◌, ◌*◌, ◌/◌, ◌%◌, Bool, true, false, not, ◌&&◌, Option, none, some, ◌>>=◌,
  ltb, ◌==◌, if◌then◌else◌,
}
use os_codes.Xv6.Fs.{Inode, Volume, put, readi, writei, ReadResult, WriteResult}
use os_codes.Xv6.Fs.Path.{dirsiz}

-- sizeof(struct dirent)
abbrev pub dirent_size : ℕ
dirent_size = 16

-- T_DIR
abbrev pub t_dir : ℕ
t_dir = 1

-- de.inum and de.name
abbrev pub inum_of : (ℕ → ℕ) → ℕ
inum_of de = de 0 + 256 * de 1

abbrev pub name_of : (ℕ → ℕ) → ℕ → ℕ
name_of de z = de (2 + z)

-- strncmp(s, t, n) == 0, from the place `i` on
unfoldable pub same_from : ℕ → (ℕ → ℕ) → (ℕ → ℕ) → ℕ → Bool
same_from zero s t i = true
same_from (suc n) s t i =
    let rest = same_from n s t (i + 1) in
    if not (s i == 0) && (s i == t i) then rest else s i == t i

-- namecmp(s, t) == 0
unfoldable pub equal_names : (ℕ → ℕ) → (ℕ → ℕ) → Bool
equal_names s t = same_from dirsiz s t 0

-- readi(dp, (char*)&de, off, sizeof(de)) != sizeof(de) is a panic.
unfoldable pub read_entry : Inode → Volume → ℕ → Option (Inode × Volume × (ℕ → ℕ))
read_entry dp v off = elim (readi dp v (λ z. 0) off dirent_size) [
  | none ↦ none
  | some ReadResult.refused ↦ none
  | some (ReadResult.returned n jp w de) ↦ if n == dirent_size then some (jp, w, de) else none
]

-- Whether a loop over the entries stops at one.
abbrev pub is_named : (ℕ → ℕ) → (ℕ → ℕ) → Bool
is_named name de = not (inum_of de == 0) && equal_names name (name_of de)

abbrev pub is_empty : (ℕ → ℕ) → Bool
is_empty de = inum_of de == 0

-- The loops over the entries from `off` on, to the first one that `stop` accepts, or to the end of the
-- directory; `fuel` bounds the rounds.
unfoldable pub scan_entries :
    ((ℕ → ℕ) → Bool) → ℕ → Inode → Volume → ℕ → Option (Option (ℕ → ℕ) × ℕ × Inode × Volume)
unfolding read_entry
scan_entries stop zero dp v off = none
scan_entries stop (suc fuel) dp v off =
    if not (ltb off dp.size)
    then some (none, off, dp, v)
    else read_entry dp v off >>= λ (jp, w, de). elim (stop de) [
      | true ↦ some (some de, off, jp, w)
      | false ↦ scan_entries stop fuel jp w (off + dirent_size)
    ]

abbrev pub rounds : Inode → ℕ
rounds dp = dp.size / dirent_size + 2

-- `dirlookup` up to the `iget`: the number of the inode and the offset of the entry. `none` is a panic.
unfoldable pub dirlookup : Inode → Volume → (ℕ → ℕ) → Option (Option (ℕ × ℕ) × Inode × Volume)
unfolding scan_entries
dirlookup dp v name =
    if not (dp.type == t_dir)
    then none
    else scan_entries (is_named name) (rounds dp) dp v 0 >>= λ (found, off, jp, w). elim found [
      | none ↦ some (none, jp, w)
      | some de ↦ some (some (inum_of de, off), jp, w)
    ]

-- while(n-- > 0) *s++ = 0; from the place `i` on
unfoldable pub zeros : ℕ → (ℕ → ℕ) → ℕ → ℕ → ℕ
zeros zero s i = s
zeros (suc n) s i = zeros n (put s i 0) (i + 1)

-- strncpy(s, t, n) from the place `i` on
unfoldable pub pad_from : ℕ → (ℕ → ℕ) → (ℕ → ℕ) → ℕ → ℕ → ℕ
unfolding zeros
pad_from zero s t i = s
pad_from (suc n) s t i =
    let rest = pad_from n (put s i (t i)) t (i + 1) in
    if t i == 0 then zeros n (put s i (t i)) (i + 1) else rest

-- strncpy(de.name, name, DIRSIZ), which stores all the bytes of de.name
unfoldable pub padded : (ℕ → ℕ) → ℕ → ℕ
padded name = pad_from dirsiz (λ z. 0) name 0

-- `de` as bytes; its number is a ushort
unfoldable pub new_entry : (ℕ → ℕ) → ℕ → ℕ → ℕ
new_entry name inum z =
    if z == 0 then inum % 256 else if z == 1 then inum / 256 % 256 else padded name (z - 2)

pub data LinkResult : Type 0 where
  exists : LinkResult
  linked : Inode → Volume → LinkResult

-- if(writei(dp, (char*)&de, off, sizeof(de)) != sizeof(de)) panic
unfoldable pub write_entry : Inode → Volume → (ℕ → ℕ) → ℕ → Option LinkResult
write_entry dp v de off = elim (writei dp v de off dirent_size) [
  | none ↦ none
  | some WriteResult.refused ↦ none
  | some (WriteResult.returned n jp w) ↦ if n == dirent_size then some (linked jp w) else none
]

-- The rest of `dirlink` where the name is not present.
unfoldable pub add_entry : Inode → Volume → (ℕ → ℕ) → ℕ → Option LinkResult
unfolding scan_entries
add_entry dp v name inum = scan_entries is_empty (rounds dp) dp v 0 >>= λ (found, off, jp, w).
    write_entry jp w (new_entry name inum) off

-- `dirlink`; where the name is present, the `iget` of `dirlookup` and the `iput` are left out.
unfoldable pub dirlink : Inode → Volume → (ℕ → ℕ) → ℕ → Option LinkResult
dirlink dp v name inum = dirlookup dp v name >>= λ (found, jp, w). elim found [
  | some e ↦ some exists
  | none ↦ add_entry jp w name inum
]
