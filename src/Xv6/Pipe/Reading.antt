-- ===== src/Xv6/Pipe/Reading.antt =====
-- `piperead` takes from the front of the queue.
use os_codes.Common.{
  ℕ, zero, suc, ◌+◌, ◌%◌, ◌≡◌, ◌≢◌, inl, inr, refl, sym, ap, ◌∙◌, Bool, true, false, ◌&&◌, [], ◌∷◌,
  take, drop, ◌==◌, Bool-cases, arith,
}
use os_codes.Xv6.Pipe.{
  Pipe, word, pipe_size, read_from, piperead, ReadResult, got, read_fails, read_sleeps,
}
use os_codes.Xv6.Pipe.Queue.{window, count, contents, Inv}

contents_empty : (p : Pipe) → Inv p → (p.nread == p.nwrite) ≡ true → contents p ≡ []
unfolding contents window
contents_empty p inv e =
    let low = inv.nread_small in
    let none_there : count p ≡ 0 = ground arith in ap (window p.data_at p.nread) none_there

abbrev after_read : Pipe → Pipe
after_read p = record p { nread = (p.nread + 1) % word }

contents_cons :
    (p : Pipe)
    → Inv p
    → (p.nread == p.nwrite) ≡ false
    → (contents p ≡ p.data_at (p.nread % pipe_size) ∷ contents (after_read p)) × Inv (after_read p)
unfolding contents window
contents_cons p inv e =
    let low = inv.nread_small in
    let high = inv.nwrite_small in
    let fits = inv.fits in
    let more : count p ≡ suc (count (after_read p)) = ground arith in
    (
      ap (window p.data_at p.nread) more,
      record { nread_small = omega arith; nwrite_small = high; fits = omega (arith, more) },
    )

read_from-take :
    (n : ℕ) (p : Pipe)
    → Inv p
    → ((read_from n p).0 ≡ take n (contents p))
      × (contents (read_from n p).1 ≡ drop n (contents p))
      × Inv (read_from n p).1
unfolding read_from
read_from-take zero p inv = (refl, refl, inv)
read_from-take (suc n) p inv = elim (Bool-cases (p.nread == p.nwrite)) [
  | inl e ↦
      let empty : contents p ≡ [] = contents_empty p inv e in
      rw e (sym (ap (take (suc n)) empty), empty ∙ sym (ap (drop (suc n)) empty), inv)
  | inr e ↦
      let (front, inv₁) = contents_cons p inv e in
      let (taken, left, inv₂) = read_from-take n (after_read p) inv₁ in
      rw e (
        ap (λ xs. p.data_at (p.nread % pipe_size) ∷ xs) taken ∙ sym (ap (take (suc n)) front),
        left ∙ sym (ap (drop (suc n)) front),
        inv₂,
      )
]

abbrev pub ReadSpec : Bool → ℕ → Pipe → ReadResult → Type 0
ReadSpec killed n p (got bs q) =
    (bs ≡ take n (contents p))
    × (contents q ≡ drop n (contents p))
    × Inv q
    × (p.writeopen ≡ true → contents p ≢ [])
ReadSpec killed n p read_fails = (contents p ≡ []) × (p.writeopen ≡ true) × (killed ≡ true)
ReadSpec killed n p read_sleeps = (contents p ≡ []) × (p.writeopen ≡ true) × (killed ≡ false)

-- `piperead` of `n` bytes returns the first `n` that the pipe holds, or all if they are fewer, and
-- leaves the rest. It fails or sleeps only when the pipe is empty and has a writer: it fails if the
-- process is killed, and sleeps else.
pub piperead_takes :
    (killed : Bool) (n : ℕ) (p : Pipe) → Inv p → ReadSpec killed n p (piperead killed n p)
unfolding piperead
piperead_takes killed n p inv = elim (Bool-cases (p.nread == p.nwrite && p.writeopen)) [
  | inl blocked ↦
      let empty : (p.nread == p.nwrite) ≡ true = ground arith in
      let writers : p.writeopen ≡ true = ground arith in
      elim (Bool-cases killed) [
        | inl dead ↦ rw (blocked, dead) (contents_empty p inv empty, writers, refl)
        | inr alive ↦ rw (blocked, alive) (contents_empty p inv empty, writers, refl)
      ]
  | inr flows ↦
      let (taken, left, inv₁) = read_from-take n p inv in
      rw flows (
        taken,
        left,
        inv₁,
        λ writers nothing.
            let some_there : (p.nread == p.nwrite) ≡ false = ground arith in
            let (front, rest) = contents_cons p inv some_there in absurd (cc (front, nothing)),
      )
]
