-- ===== src/Simplefs/Ops/Seek.antt =====
-- `simplefs_seek` and `simplefs_close`.
use os_codes.Common.{
  ℕ, ◌*◌, ◌≡◌, false, ◌&&◌, some, arith, get_elem?, set, length, get_elem?-outside, pos, negsuc, ℤ,
  ◌+ℤ◌, ltb_ℤ, lt→ltb, dec_lt, ◌<◌,
}
use os_codes.Simplefs.Disk.{Fs, FileHandle, block_size, max_file_size}
use os_codes.Simplefs.Ops.{handle_at, set_handle, seek}

-- The test of `simplefs_seek` is never met.
seek_test : (z : ℤ) → (ltb_ℤ z (pos 0) && ltb_ℤ (pos (max_file_size * block_size)) z) ≡ false
seek_test (pos n) = ground arith
seek_test (negsuc n) = ground arith

handle_inside :
    (s : Fs) (i : ℕ) (h : FileHandle) → get_elem? s.handles i ≡ some h → i < length s.handles
handle_inside s i h e = elim (dec_lt i (length s.handles)) [
  | yes lt ↦ lt
  | no ge ↦ absurd (cc (e, get_elem?-outside s.handles i (omega arith)))
]

abbrev moved : Fs → ℕ → FileHandle → ℤ → Fs
moved s i h nseek = record s { handles = set s.handles i (record h { offset = h.offset +ℤ nseek }) }

-- `simplefs_seek` on an entry of `file_handle_array` never refuses: it returns 0 and adds `nseek` to
-- the offset, also where the sum is negative or lies behind the largest file size, and changes
-- nothing else.
pub seek_never_refuses :
    (s : Fs) (i : ℕ) (h : FileHandle) (nseek : ℤ)
    → get_elem? s.handles i ≡ some h
    → seek (pos i) nseek s ≡ some (pos 0, moved s i h nseek)
unfolding seek handle_at set_handle
seek_never_refuses s i h nseek e =
    rw (e, seek_test (h.offset +ℤ nseek), lt→ltb _ _ (handle_inside s i h e))
