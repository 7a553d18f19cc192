-- ===== src/Xv6/Pipe/Queue.antt =====
-- The pipe is a queue: what is written is read once, in order.
use os_codes.Common.{
  ℕ, zero, suc, ◌+◌, ◌-◌, ◌%◌, ◌≤◌, ◌<◌, ◌≡◌, Bool, true, false, not, ◌||◌, List, [], ◌∷◌, ◌++◌,
}
use os_codes.Xv6.Pipe.{Pipe, word, pipe_size, WriteResult, wrote, write_fails, write_sleeps}

-- The `k` bytes of the ring from the counter `r` on.
unfoldable pub window : (ℕ → ℕ) → ℕ → ℕ → List ℕ
window data_at r zero = []
window data_at r (suc k) = data_at (r % pipe_size) ∷ window data_at ((r + 1) % word) k

abbrev pub count : Pipe → ℕ
count p = (p.nwrite + (word - p.nread)) % word

-- The bytes that are written and not yet read.
unfoldable pub contents : Pipe → List ℕ
unfolding window
contents p = window p.data_at p.nread (count p)

pub record Inv (p : Pipe) : Type 0 where
  pub nread_small : p.nread < word
  pub nwrite_small : p.nwrite < word
  pub fits : count p ≤ pipe_size

-- The results of `pipewrite`: the bytes that it took stand behind those that were there.
abbrev pub WriteSpec : Bool → List ℕ → Pipe → WriteResult → Type 0
WriteSpec killed bs p (wrote q) = (contents q ≡ contents p ++ bs) × Inv q
WriteSpec killed bs p (write_fails q) =
    (taken : List ℕ) × (left : List ℕ) × (bs ≡ taken ++ left)
    × (contents q ≡ contents p ++ taken)
    × Inv q
    × (count q ≡ pipe_size)
    × ((not q.readopen || killed) ≡ true)
WriteSpec killed bs p (write_sleeps left q) =
    (taken : List ℕ) × (bs ≡ taken ++ left)
    × (contents q ≡ contents p ++ taken)
    × Inv q
    × (count q ≡ pipe_size)
    × ((not q.readopen || killed) ≡ false)
