-- ===== src/Xv6/Fs/Linking.antt =====
-- `dirlink` of fs.c, and what `dirlookup` finds after it.
use os_codes.Common.{
  ℕ, zero, suc, ◌+◌, ◌-◌, ◌<◌, ◌≡◌, ◌≢◌, refl, sym, ◌∙◌, true, false, ◌==◌, arith, inl, inr,
  Bool-cases,
}
use os_codes.Xv6.Fs.{put}
use os_codes.Xv6.Fs.Words.{put_self, put_other}
use os_codes.Xv6.Fs.Dir.{
  inum_of, name_of, same_from, equal_names, is_named, zeros, pad_from, padded, new_entry,
}
use os_codes.Xv6.Fs.Lookup.{same_from-Same}

zeros_before : (n : ℕ) (s : ℕ → ℕ) (i z : ℕ) → z < i → zeros n s i z ≡ s z
unfolding zeros
zeros_before zero s i z lt = refl
zeros_before (suc n) s i z lt =
    zeros_before n (put s i 0) (i + 1) z (omega arith) ∙ put_other s i 0 z (λ e. omega (arith, e))

pad_from_before : (n : ℕ) (s t : ℕ → ℕ) (i z : ℕ) → z < i → pad_from n s t i z ≡ s z
unfolding pad_from
pad_from_before zero s t i z lt = refl
pad_from_before (suc n) s t i z lt = elim (Bool-cases (t i == 0)) [
  | inl end ↦ rw end (
      zeros_before n (put s i (t i)) (i + 1) z (omega arith)
      ∙ put_other s i (t i) z (λ e. omega (arith, e)))
  | inr more ↦ rw more (
      pad_from_before n (put s i (t i)) t (i + 1) z (omega arith)
      ∙ put_other s i (t i) z (λ e. omega (arith, e)))
]

-- The copy of a name compares equal to it.
same_from-pad_from : (n : ℕ) (s t : ℕ → ℕ) (i : ℕ) → same_from n t (pad_from n s t i) i ≡ true
unfolding same_from pad_from
same_from-pad_from zero s t i = refl
same_from-pad_from (suc n) s t i = elim (Bool-cases (t i == 0)) [
  | inl end ↦
      let last : t i ≡ zeros n (put s i (t i)) (i + 1) i =
        sym (zeros_before n (put s i (t i)) (i + 1) i (omega arith) ∙ put_self s i (t i)) in
      let equal : (t i == zeros n (put s i (t i)) (i + 1) i) ≡ true = ground (arith, last) in
      rw (end, equal)
  | inr more ↦
      let kept : t i ≡ pad_from n (put s i (t i)) t (i + 1) i =
        sym (pad_from_before n (put s i (t i)) t (i + 1) i (omega arith) ∙ put_self s i (t i)) in
      let equal : (t i == pad_from n (put s i (t i)) t (i + 1) i) ≡ true = ground (arith, kept) in
      rw (more, equal) (same_from-pad_from n (put s i (t i)) t (i + 1))
]

pub inum_of-new_entry :
    (name : ℕ → ℕ) (inum : ℕ) → inum < 65536 → inum_of (new_entry name inum) ≡ inum
unfolding new_entry
inum_of-new_entry name inum small = omega arith

new_entry_name : (name : ℕ → ℕ) (inum z : ℕ) → new_entry name inum (2 + z) ≡ padded name z
unfolding new_entry
new_entry_name name inum z =
    let first : (2 + z == 0) ≡ false = ground arith in
    let second : (2 + z == 1) ≡ false = ground arith in
    let place : 2 + z - 2 ≡ z = omega arith in rw (first, second, place)

pub is_named-new_entry :
    (name : ℕ → ℕ) (inum : ℕ) → inum ≢ 0 → inum < 65536 → is_named name (new_entry name inum) ≡ true
unfolding equal_names padded
is_named-new_entry name inum in_use small =
    let number = inum_of-new_entry name inum small in
    let used : (inum == 0) ≡ false = ground arith in
    let same =
      same_from-Same 14 name (name_of (new_entry name inum)) (padded name) 0
        (λ z le lt. new_entry_name name inum z)
      ∙ same_from-pad_from 14 (λ z. 0) name 0 in
    rw (number, used) same
