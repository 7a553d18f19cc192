-- ===== src/Xv6/File/Write.antt =====
-- `filewrite` of file.c: an inode is written in rounds, each one operation of the log.
use os_codes.Common.{
  ℕ, zero, suc, ◌+◌, ◌-◌, Bool, not, none, some, List, [], ◌∷◌, ◌==◌, if◌then◌else◌,
}
use os_codes.Xv6.Pipe
use os_codes.Xv6.Pipe.{pipewrite}
use os_codes.Xv6.Fs
use os_codes.Xv6.Fs.{put, min, writei}
use os_codes.Xv6.Fs.Icache.{Cached, ilock}
use os_codes.Xv6.Fs.Icache
use os_codes.Xv6.File.{
  File, System, Outcome, panics, sleeps, waits, fails, returns, fd_none, fd_pipe, fd_inode, advance,
  store, unlock_then,
}

-- int max = ((MAXOPBLOCKS-1-1-2) / 2) * 512;
abbrev pub max_round : ℕ
max_round = 1536

-- A round of the loop with the inode locked: `n` bytes of `src` from `i` on; then `k`.
unfoldable pub round_locked : ℕ → ℕ → (ℕ → ℕ) → ℕ → ℕ → (System → Outcome) → System → Outcome
round_locked pid f src i n k s =
    let ip : ℕ = (s.file f).ip in
    let c : Cached = s.cache.inode ip in
    elim (writei c.node (s.cache.disk c.dev) (λ z. src (i + z)) (s.file f).off n) [
      | none ↦ panics
      | some Fs.WriteResult.refused ↦ unlock_then pid ip s fails
      | some (Fs.WriteResult.returned r jp w) ↦
          unlock_then pid ip (advance f r (record s { cache = store ip jp w s.cache }))
            (λ t. if r == n then k t else panics)
    ]

unfoldable pub round : ℕ → ℕ → (ℕ → ℕ) → ℕ → ℕ → (System → Outcome) → System → Outcome
unfolding round_locked
round pid f src i n k s = elim (ilock pid (s.file f).ip s.cache) [
  | Icache.panics ↦ panics
  | Icache.sleeps ↦ sleeps s
  | Icache.done c ↦ round_locked pid f src i n k (record s { cache = c })
]

-- The loop with `left` for n - i; `fuel` bounds the rounds.
unfoldable pub write_rounds : ℕ → ℕ → ℕ → (ℕ → ℕ) → ℕ → ℕ → System → Outcome
unfolding round
write_rounds fuel pid f src i zero s = returns i s
write_rounds zero pid f src i (suc left) s = panics
write_rounds (suc fuel) pid f src i (suc left) s =
    let m : ℕ = min (suc left) max_round in
    round pid f src i m (write_rounds fuel pid f src (i + m) (suc left - m)) s

-- `n` bytes of `src`
abbrev pub bytes : (ℕ → ℕ) → ℕ → List ℕ
bytes src zero = []
bytes src (suc n) = src 0 ∷ bytes (λ z. src (z + 1)) n

unfoldable pub filewrite : Bool → ℕ → ℕ → (ℕ → ℕ) → ℕ → System → Outcome
unfolding write_rounds
filewrite killed pid f src n s =
    let ff : File = s.file f in
    if not ff.writable then fails s else elim ff.type [
      | fd_none ↦ panics
      | fd_pipe ↦ elim (pipewrite killed (bytes src n) (s.pipe ff.pipe)) [
        | Pipe.wrote p ↦ returns n (record s { pipe = put s.pipe ff.pipe p })
        | Pipe.write_fails p ↦ fails (record s { pipe = put s.pipe ff.pipe p })
        | Pipe.write_sleeps bs p ↦ waits bs (record s { pipe = put s.pipe ff.pipe p })
      ]
      | fd_inode ↦ write_rounds n pid f src 0 n s
    ]
