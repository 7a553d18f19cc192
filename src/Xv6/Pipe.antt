-- ===== src/Xv6/Pipe.antt =====
-- xv6-public/pipe.c: a ring of PIPESIZE bytes between a writer and a reader. The code runs under the
-- lock of the pipe; where it sleeps, the result is what it sleeps with, and its `while` starts again
-- from there. The counters are `uint`s and wrap around.
pub mod Queue
pub mod Reading
mod Tests
use os_codes.Common.{
  ℕ, zero, suc, ◌+◌, ◌-◌, ◌*◌, ◌/◌, ◌%◌, Bool, true, false, not, ◌&&◌, ◌||◌, List, [], ◌∷◌,
  if◌then◌else◌, ◌==◌,
}

abbrev pub word : ℕ
word = 4294967296

-- PIPESIZE
abbrev pub pipe_size : ℕ
pipe_size = 512

-- `struct pipe`, whose `data` is read and written below PIPESIZE only.
pub record Pipe : Type 0 where
  pub data_at : ℕ → ℕ
  pub nread : ℕ
  pub nwrite : ℕ
  pub readopen : Bool
  pub writeopen : Bool

-- The pipe that `pipealloc` makes, in a page with the contents `junk`.
abbrev pub new_pipe : (ℕ → ℕ) → Pipe
new_pipe junk = record { data_at = junk; nread = 0; nwrite = 0; readopen = true; writeopen = true }

-- `pipeclose`, and whether it frees the pipe.
pub pipeclose : Bool → Pipe → Bool × Pipe
pipeclose writable p =
    let q : Pipe =
      if writable then record p { writeopen = false } else record p { readopen = false } in
    (not q.readopen && not q.writeopen, q)

-- `p->data[p->nwrite++ % PIPESIZE] = b`
abbrev pub put_byte : ℕ → Pipe → Pipe
put_byte b p = record p {
  data_at = λ i. if i == p.nwrite % pipe_size then b else p.data_at i;
  nwrite = (p.nwrite + 1) % word;
}

-- `pipewrite` returns, fails, or sleeps with the bytes that are left.
pub data WriteResult : Type 0 where
  wrote : Pipe → WriteResult
  write_fails : Pipe → WriteResult
  write_sleeps : List ℕ → Pipe → WriteResult

abbrev pub is_full : Pipe → Bool
is_full p = p.nwrite == (p.nread + pipe_size) % word

-- `pipewrite` with the bytes that are left.
pub pipewrite : Bool → List ℕ → Pipe → WriteResult
pipewrite killed [] p = wrote p
pipewrite killed (b ∷ bs) p =
    let rest = pipewrite killed bs (put_byte b p) in
    if is_full p
    then (if not p.readopen || killed then write_fails p else write_sleeps (b ∷ bs) p)
    else rest

-- The loop of `piperead`, at most `n` bytes.
pub read_from : ℕ → Pipe → List ℕ × Pipe
read_from zero p = ([], p)
read_from (suc n) p =
    let rest = read_from n (record p { nread = (p.nread + 1) % word }) in
    if p.nread == p.nwrite then ([], p) else (p.data_at (p.nread % pipe_size) ∷ rest.0, rest.1)

pub data ReadResult : Type 0 where
  got : List ℕ → Pipe → ReadResult
  read_fails : ReadResult
  read_sleeps : ReadResult

pub piperead : Bool → ℕ → Pipe → ReadResult
unfolding read_from
piperead killed n p =
    if p.nread == p.nwrite && p.writeopen
    then (if killed then read_fails else read_sleeps)
    else got (read_from n p).0 (read_from n p).1
