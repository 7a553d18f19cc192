-- ===== src/Xv6/File/Writing.antt =====
-- What `filewrite` of file.c does to a file.
use os_codes.Common.{
  ℕ, zero, suc, ◌+◌, ◌-◌, ◌*◌, ◌≤◌, ◌<◌, ◌≡◌, refl, ap, ◌∙◌, subst, Bool, true, arith, ℕ_discrete,
}
use mathlib.Core.Path.{fun_ext}
use os_codes.Xv6.Fs.{Inode, Volume, word, min}
use os_codes.Xv6.Fs.Ownership.{IsValid}
use os_codes.Xv6.Fs.Content.{max_bytes}
use os_codes.Xv6.Fs.RoundTrip.{Wrote, Wrote-trans, writei-Wrote}
use os_codes.Xv6.Fs.Space.{free_blocks, writei-Takes}
use os_codes.Xv6.File.{System, Outcome, returns, fd_inode}
use os_codes.Xv6.File.Write.{max_round, round, write_rounds, filewrite}
use os_codes.Xv6.File.Rounds.{Ready, Moved, Moved-trans, round-Ready}

-- What a call leaves: the file with `n` bytes of `src` at `off`, and the open file behind them.
pub record Stored (f : ℕ) (src : ℕ → ℕ) (node : Inode) (v : Volume) (off n : ℕ) (s t : System)
    : Type 0 where
  pub node' : Inode
  pub disk : Volume
  pub ready : Ready f node' disk (off + n) t
  pub wrote : Wrote node v node' disk src off n
  pub moved : Moved f s t

round_bounds : (left : ℕ) → 0 < left → (0 < min left max_round) × (min left max_round ≤ left)
round_bounds left pos_ = (ground arith, ground arith)

write_rounds-nothing :
    (fuel pid f : ℕ) (src : ℕ → ℕ) (i : ℕ) (s : System)
    → write_rounds fuel pid f src i 0 s ≡ returns i s
unfolding write_rounds
write_rounds-nothing zero pid f src i s = refl
write_rounds-nothing (suc fuel) pid f src i s = refl

write_rounds-next :
    (fuel pid f : ℕ) (src : ℕ → ℕ) (i left : ℕ) (s t : System)
    → ((k : System → Outcome) → round pid f src i (min (suc left) max_round) k s ≡ k t)
    → write_rounds (suc fuel) pid f src i (suc left) s
      ≡ write_rounds fuel pid f src
          (i + min (suc left) max_round)
          (suc left - min (suc left) max_round)
          t
unfolding write_rounds
write_rounds-next fuel pid f src i left s t goes = goes (
    write_rounds fuel pid f src (i + min (suc left) max_round)
      (suc left - min (suc left) max_round))

Stored-trans :
    (f : ℕ) (src : ℕ → ℕ) (node : Inode) (v : Volume) (off m n all : ℕ) (jp : Inode) (w : Volume)
    (s t u : System)
    → m + n ≡ all
    → off + m + n ≤ max_bytes
    → Wrote node v jp w src off m
    → Moved f s t
    → Stored f (λ z. src (m + z)) jp w (off + m) n t u
    → Stored f src node v off all s u
Stored-trans f src node v off m n all jp w s t u e room wrote moved rest =
    let place : off + m + n ≡ off + (m + n) = omega arith in
    subst (λ k. Stored f src node v off k s u) e
      (record {
        node' = rest.node';
        disk = rest.disk;
        ready = subst (λ o. Ready f rest.node' rest.disk o u) place rest.ready;
        wrote = Wrote-trans node v jp w rest.node' rest.disk src off m n room wrote rest.wrote;
        moved = Moved-trans moved rest.moved;
      })

-- The rounds write the bytes one piece after the other.
write_rounds-Stored :
    (fuel pid f : ℕ) (src : ℕ → ℕ) (i left : ℕ) (node : Inode) (v : Volume) (off : ℕ) (s : System)
    → left ≤ fuel
    → Ready f node v off s
    → IsValid node v
    → off ≤ node.size
    → off + left ≤ max_bytes
    → node.size < word
    → 2 * left ≤ free_blocks v
    → 0 < left
    → (t : System) × (write_rounds fuel pid f src i left s ≡ returns (i + left) t)
      × Stored f (λ z. src (i + z)) node v off left s t
write_rounds-Stored fuel pid f src i zero node v off s enough ready inv inside room small free
      some_left =
    absurd (omega arith)
write_rounds-Stored zero pid f src i (suc left) node v off s enough ready inv inside room small free
      some_left =
    absurd (omega arith)
write_rounds-Stored (suc fuel) pid f src i (suc left) node v off s enough ready inv inside room
      small free some_left =
    let m : ℕ = min (suc left) max_round in
    let (progress, le) = round_bounds (suc left) (omega arith) in
    let (jp, w, e, (same_size, takes)) =
      writei-Takes node v (λ z. src (i + z)) off m inside (omega (arith, le)) (omega (arith, le)) in
    let (same, fits, wrote) =
      writei-Wrote node v (λ z. src (i + z)) off m m jp w inv small (omega (arith, le)) e in
    let (t, goes, ready_t, moved) =
      round-Ready pid f src i m node v off jp w s ready (omega (arith, le)) e in
    let grown : (off + m ≤ jp.size) × (jp.size < word) =
      (ground (arith, wrote.size, progress, fits), ground (arith, wrote.size, progress, fits)) in
    let first_round = write_rounds-next fuel pid f src i left s t goes in
    elim (ℕ_discrete (suc left - m) 0) [
      | yes nothing ↦
          let all : m ≡ suc left = omega (arith, le) in
          (
            t,
            first_round
                ∙ ap (λ k. write_rounds fuel pid f src (i + m) k t) nothing
                ∙ write_rounds-nothing fuel pid f src (i + m) t
                ∙ ap (λ k. returns (i + k) t) all,
            subst (λ k. Stored f (λ z. src (i + z)) node v off k s t) all
                (record { node' = jp; disk = w; ready = ready_t; wrote = wrote; moved = moved }),
          )
      | no some_left' ↦
          let (u, rest, stored) =
            write_rounds-Stored fuel pid f src (i + m) (suc left - m) jp w (off + m) t
              (omega (arith, progress)) ready_t wrote.valid grown.0 (omega (arith, le)) grown.1
              (omega (arith, le, takes)) (omega arith) in
          let end : i + m + (suc left - m) ≡ i + suc left = omega (arith, le) in
          (
            u,
            first_round ∙ rest ∙ ap (λ k. returns k u) end,
            Stored-trans f (λ z. src (i + z)) node v off m (suc left - m) (suc left) jp w s t u
                (omega (arith, le)) (omega (arith, le)) wrote moved
                (subst (λ g. Stored f g jp w (off + m) (suc left - m) t u)
                  (fun_ext (λ z. let assoc : i + m + z ≡ i + (m + z) = omega arith in ap src assoc))
                  stored),
          )
    ]

filewrite_inode :
    (killed : Bool) (pid f : ℕ) (src : ℕ → ℕ) (n : ℕ) (s : System)
    → (s.file f).writable ≡ true
    → (s.file f).type ≡ fd_inode
    → filewrite killed pid f src n s ≡ write_rounds n pid f src 0 n s
unfolding filewrite
filewrite_inode killed pid f src n s writable kind = rw (writable, kind)

-- `filewrite` of `n` bytes, not 0, to an open file at an offset inside its inode or at its end, where the
-- write ends within the MAXFILE blocks of the largest file and two blocks are free for each byte, returns
-- `n`: the bytes stand in the inode at the offset, in whatever rounds they were
-- written, no other byte of it is changed, the offset is behind them, and no other open file, inode and
-- disk is changed. The inode is read, not locked, of a size below 2^32, and owns its blocks.
pub filewrite-Stored :
    (killed : Bool) (pid f : ℕ) (src : ℕ → ℕ) (n : ℕ) (node : Inode) (v : Volume) (off : ℕ)
    (s : System)
    → (s.file f).writable ≡ true
    → (s.file f).type ≡ fd_inode
    → Ready f node v off s
    → IsValid node v
    → off ≤ node.size
    → off + n ≤ max_bytes
    → node.size < word
    → 2 * n ≤ free_blocks v
    → 0 < n
    → (t : System) × (filewrite killed pid f src n s ≡ returns n t) × Stored f src node v off n s t
filewrite-Stored killed pid f src n node v off s writable kind ready inv inside room small free
      some_bytes =
    let (t, e, stored) =
      write_rounds-Stored n pid f src 0 n node v off s (omega arith) ready inv inside room small
        free some_bytes in
    let start : 0 + n ≡ n = omega arith in
    (
      t,
      filewrite_inode killed pid f src n s writable kind ∙ e ∙ ap (λ k. returns k t) start,
      subst (λ g. Stored f g node v off n s t)
          (fun_ext (λ z. let zero_ : 0 + z ≡ z = omega arith in ap src zero_)) stored,
    )
