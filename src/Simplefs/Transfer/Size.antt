-- ===== src/Simplefs/Transfer/Size.antt =====
-- `simplefs_write`: how far its copying goes, that it ends, and the size that it stores.
use os_codes.Common.{
  ℕ, zero, suc, ◌+◌, ◌-◌, ◌*◌, ◌%◌, ◌≤◌, ◌<◌, ◌≡◌, refl, inl, inr, ap, sym, ◌∙◌, subst, true, false,
  some, List, [], ◌∷◌, ◌++◌, arith, ltb, ltb→lt, ◌==◌, ◌>>=◌, assert, >>=-eq-some, get_elem?, drop,
  replicate, Bool-cases, ℤ, pos, negsuc, ◌+ℤ◌, ltb_ℤ,
}
use mathlib.Core.Path.{fun_ext}
use mathlib.Core.Option.{some-injective}
use os_codes.Simplefs.Disk.{
  Fs, Inode, FileHandle, max_file_size, block_size, minus_one, inode_free, read_inode, write_inode,
  write_at, zero_inode, write_data_block,
}
use os_codes.Simplefs.Ops.{handle_at}
use os_codes.Simplefs.Transfer.{
  min, strncpy, write_blocks, write_round, write_head, write_data, write_file, write_bytes,
  write_checked, write, alloc_blocks, AllocResult, enough, full, blocks_up_to,
}

min_le : (a b : ℕ) → (min a b ≤ a) × (min a b ≤ b)
unfolding min
min_le a b = ground arith

min_pos : (a b : ℕ) → 0 < a → 0 < b → 0 < min a b
unfolding min
min_pos a b ha hb = ground arith

inodes-write_data_block :
    (b : ℤ) (buf : List ℕ) (s t : Fs) → write_data_block b buf s ≡ some t → t.inodes ≡ s.inodes
unfolding write_data_block
inodes-write_data_block (pos b) buf s t e =
    let (u, a, h) = >>=-eq-some (assert (ltb b 30)) _ e in ground arith
inodes-write_data_block (negsuc b) buf s t e = absurd (cc e)

inodes-write_round :
    (index : ℕ) (from : List ℕ) (k : ℕ) (blocks : List ℤ) (s t : Fs)
    → write_round index from k blocks s ≡ some t
    → t.inodes ≡ s.inodes
unfolding write_round
inodes-write_round index from k blocks s t e =
    let (b, hb, e₁) =
      >>=-eq-some (get_elem? blocks index)
        (λ b. strncpy from k >>= λ copied.
          write_data_block b (copied ++ replicate (block_size - k) 0) s)
        e in
    let (copied, hc, e₂) =
      >>=-eq-some (strncpy from k)
        (λ copied. write_data_block b (copied ++ replicate (block_size - k) 0) s) e₁ in
    inodes-write_data_block b _ s t e₂

-- The bytes that the round at `m` copies.
abbrev step : ℕ → ℕ → ℕ
step m n = min block_size (n - m)

module _ (fuel index m : ℕ) (buf : List ℕ) (n : ℕ) (blocks : List ℤ) (s : Fs) where
  write_blocks-done : ltb m n ≡ false → write_blocks (suc fuel) index m buf n blocks s ≡ some (m, s)
  unfolding write_blocks
  write_blocks-done e = rw (e, write_blocks)

  write_blocks-round :
      ltb m n ≡ true
      → write_blocks (suc fuel) index m buf n blocks s ≡ (
          write_round index (drop m buf) (step m n) blocks s >>= λ t.
          write_blocks fuel (index + 1) (m + step m n) buf n blocks t)
  unfolding write_blocks
  write_blocks-round e = rw (e, write_blocks)

-- A loop that ends has copied all `n` bytes, and leaves the inodes alone.
write_blocks-count :
    (fuel index m : ℕ) (buf : List ℕ) (n : ℕ) (blocks : List ℤ) (s : Fs) (r : ℕ × Fs)
    → m ≤ n
    → write_blocks fuel index m buf n blocks s ≡ some r
    → (r.0 ≡ n) × (r.1.inodes ≡ s.inodes)
write_blocks-count zero index m buf n blocks s r le e = unfold write_blocks in absurd (cc e)
write_blocks-count (suc fuel) index m buf n blocks s r le e = elim (Bool-cases (ltb m n)) [
  | inr done ↦
      let same : ◌≡◌ {A = ℕ × Fs} (m, s) r =
        some-injective _ _ (sym (write_blocks-done fuel index m buf n blocks s done) ∙ e) in
      subst (λ (q : ℕ × Fs). (q.0 ≡ n) × (q.1.inodes ≡ s.inodes)) same (ground arith, refl)
  | inl more ↦
      let (s', kept, h) =
        >>=-eq-some (write_round index (drop m buf) (step m n) blocks s)
          (λ t. write_blocks fuel (index + 1) (m + step m n) buf n blocks t)
          (sym (write_blocks-round fuel index m buf n blocks s more) ∙ e) in
      let (count, later) =
        write_blocks-count fuel (index + 1) (m + min block_size (n - m)) buf n blocks s' r
          (omega (arith, min_le block_size (n - m))) h in
      (count, later ∙ inodes-write_round index (drop m buf) (step m n) blocks s s' kept)
]

-- The loop of `simplefs_write` ends: with more fuel than bytes to copy, one round more changes nothing.
pub write_blocks_terminates :
    (fuel index m : ℕ) (buf : List ℕ) (n : ℕ) (blocks : List ℤ) (s : Fs)
    → n - m < fuel
    → write_blocks (suc fuel) index m buf n blocks s ≡ write_blocks fuel index m buf n blocks s
write_blocks_terminates zero index m buf n blocks s enough_fuel = absurd (omega arith)
write_blocks_terminates (suc fuel) index m buf n blocks s enough_fuel =
    elim (Bool-cases (ltb m n)) [
      | inr done ↦
          write_blocks-done (suc fuel) index m buf n blocks s done
          ∙ sym (write_blocks-done fuel index m buf n blocks s done)
      | inl more ↦
          let shorter : n - (m + min block_size (n - m)) < fuel =
            omega (arith, ltb→lt m n more, min_pos block_size (n - m)) in
          write_blocks-round (suc fuel) index m buf n blocks s more
          ∙ ap (λ k. write_round index (drop m buf) (step m n) blocks s >>= k)
              (fun_ext
                λ t. write_blocks_terminates fuel (index + 1) (m + step m n) buf n blocks t shorter)
          ∙ sym (write_blocks-round fuel index m buf n blocks s more)
    ]

count-write_head :
    (off index : ℕ) (buf : List ℕ) (n : ℕ) (blocks : List ℤ) (s : Fs) (r : ℕ × Fs)
    → write_head off index buf n blocks s ≡ some r
    → r.0 ≤ n
unfolding write_head
count-write_head off index buf n blocks s r e = ground (arith, min_le (block_size - off) n)

count-write_data :
    (off num_curr : ℕ) (buf : List ℕ) (n : ℕ) (blocks : List ℤ) (s : Fs) (r : ℕ × Fs)
    → write_data off num_curr buf n blocks s ≡ some r
    → r.0 ≡ n
unfolding write_data
count-write_data off num_curr buf n blocks s r e = elim (Bool-cases (off == 0)) [
  | inl aligned ↦
      (write_blocks-count (n + 1) num_curr 0 buf n blocks s r (omega arith) (rw aligned at e)).0
  | inr partial ↦
      let ((m, s'), head, rest) =
        >>=-eq-some (write_head off (num_curr - 1) buf n blocks s)
          (λ q. write_blocks (n + 1) num_curr q.0 buf n blocks q.1) (rw partial at e) in
      (write_blocks-count (n + 1) num_curr m buf n blocks s' r
        (count-write_head off (num_curr - 1) buf n blocks s (m, s') head) rest).0
]

get_elem?-write_at :
    {A : Type 0} (z : A) (xs : List A) (i : ℕ) (v : A) → get_elem? (write_at z xs i v) i ≡ some v
unfolding write_at
get_elem?-write_at z [] zero v = refl
get_elem?-write_at z [] (suc i) v = get_elem?-write_at z [] i v
get_elem?-write_at z (x ∷ xs) zero v = refl
get_elem?-write_at z (x ∷ xs) (suc i) v = get_elem?-write_at z xs i v

read_inode-write_inode :
    (num : ℤ) (inode : Inode) (s t : Fs)
    → write_inode num inode s ≡ some t
    → read_inode num t ≡ some inode
unfolding write_inode read_inode
read_inode-write_inode (pos i) inode s t e =
    ground (arith, get_elem?-write_at zero_inode s.inodes i inode)
read_inode-write_inode (negsuc i) inode s t e = absurd (cc e)

-- What a successful `simplefs_write` of `n` bytes stores as the size of inode `num`.
abbrev pub Grown : ℤ → Inode → ℕ → Fs → Type 0
Grown num inode n t =
    (inode' : Inode) × (read_inode num t ≡ some inode')
    × (inode'.file_size ≡ inode.file_size +ℤ pos n)

size-write_file :
    (o : ℕ) (num : ℤ) (inode : Inode) (buf : List ℕ) (n : ℕ) (r : AllocResult) (t : Fs)
    → write_file o num inode buf n r ≡ some (pos 0, t)
    → Grown num inode n t
unfolding write_file
size-write_file o num inode buf n (full s) t e = absurd (cc e)
size-write_file o num inode buf n (enough blocks s) t e =
    let ((m, s₁), copied, e₁) =
      >>=-eq-some (write_data (o % block_size) (blocks_up_to o) buf n blocks s) _ e in
    let (s₂, written, e₂) =
      >>=-eq-some
        (write_inode num
          (record inode { file_size = inode.file_size +ℤ pos m; direct_blocks = blocks }) s₁)
        _ e₁ in
    let count : m ≡ n =
      count-write_data (o % block_size) (blocks_up_to o) buf n blocks s (m, s₁) copied in
    let same : s₂ ≡ t = cc e₂ in
    (
      record inode { file_size = inode.file_size +ℤ pos m; direct_blocks = blocks },
      read_inode-write_inode num _ s₁ t (written ∙ ap some same),
      ap (λ k. inode.file_size +ℤ pos k) count,
    )

size-write_checked :
    (o : ℕ) (num : ℤ) (inode : Inode) (buf : List ℕ) (n : ℕ) (s t : Fs)
    → write_checked (pos o) (pos n) num inode buf s ≡ some (pos 0, t)
    → Grown num inode n t
unfolding write_checked write_bytes
size-write_checked o num inode buf n s t e =
    elim (Bool-cases (ltb_ℤ (pos (max_file_size * block_size)) (pos o +ℤ pos n))) [
      | inl long ↦ absurd (cc (rw long at e))
      | inr fits ↦
          let e' = rw fits at e in
          let (r, allocated, e₁) =
            >>=-eq-some
              (alloc_blocks (blocks_up_to (o + n) - blocks_up_to o)
                (blocks_up_to (o + n) - blocks_up_to o) (blocks_up_to o) inode.direct_blocks s)
              (write_file o num inode buf n) e' in
          size-write_file o num inode buf n r t e₁
    ]

module _ (file_handle nbytes : ℤ) (buf : List ℕ) (s : Fs) (h : FileHandle) (inode : Inode)
    (eh : handle_at file_handle s ≡ some h) (ei : read_inode h.inode_number s ≡ some inode) where
  write-unused :
      (inode.status == inode_free) ≡ true → write file_handle buf nbytes s ≡ some (minus_one, s)
  unfolding write
  write-unused unused = rw (eh, ei, unused, write)

  write-checked :
      (inode.status == inode_free) ≡ false
      → write file_handle buf nbytes s ≡ write_checked h.offset nbytes h.inode_number inode buf s
  unfolding write
  write-checked used = rw (eh, ei, used, write)

-- When `simplefs_write` of `n` bytes at an offset that is not negative returns 0, the size stored in
-- the inode has grown by `n`, wherever in the file the bytes went. A write to a data block of negative
-- number, which the code accepts, is not covered: the model stops there.
write-Grown :
    (file_handle : ℤ) (buf : List ℕ) (n : ℕ) (s t : Fs) (h : FileHandle) (inode : Inode) (o : ℕ)
    → handle_at file_handle s ≡ some h
    → read_inode h.inode_number s ≡ some inode
    → h.offset ≡ pos o
    → write file_handle buf (pos n) s ≡ some (pos 0, t)
    → Grown h.inode_number inode n t
write-Grown file_handle buf n s t h inode o eh ei eo e =
    elim (Bool-cases (inode.status == inode_free)) [
      | inl unused ↦ absurd (cc (write-unused file_handle (pos n) buf s h inode eh ei unused, e))
      | inr used ↦ size-write_checked o h.inode_number inode buf n s t (
          ap (λ z. write_checked z (pos n) h.inode_number inode buf s) (sym eo)
          ∙ sym (write-checked file_handle (pos n) buf s h inode eh ei used)
          ∙ e)
    ]
