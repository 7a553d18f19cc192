-- ===== src/Xv6/Log/Crash.antt =====
-- A crash at any write to the disk that `commit` makes, followed by `recover_from_log`.
use os_codes.Common.{
  ℕ, suc, ◌+◌, ◌≡◌, ◌⊎◌, inl, inr, sym, ap, subst, ◌∙◌, true, List, [], ◌∷◌, ltb, length, take,
  Bool-cases,
}
use os_codes.Xv6.Log.{
  Log, Saved, install_from, install_trans, write_head, recover_from_log, write_block,
  write_log_from, write_log, commit,
}
use os_codes.Xv6.Log.Blocks.{AllHome, write_log_from-record, install_from-record}
use os_codes.Xv6.Log.Recovery.{
  reboot, Unchanged, Committed, headed, write_head-headed, recover_logging, recover_installing,
  commit_is_durable, commit_none,
}

pub data OnTrail (s : Saved) : List Saved → Type 0 where
  last : (r : Saved) (ss : List Saved) → s ≡ r → OnTrail s (r ∷ ss)
  before : (r : Saved) (ss : List Saved) → OnTrail s ss → OnTrail s (r ∷ ss)

abbrev pub saved : Log → Saved
saved l = record { head = l.head; disk = l.disk }

-- What a crash during `commit` can leave: the disk before it, and after each write to it.
abbrev pub crashes : Log → List Saved
crashes l = (commit (record l { trail = saved l ∷ [] })).trail

-- The start after a crash that left `s`.
abbrev pub restart : Log → Saved → Log
restart l s = reboot (record l { head = s.head; disk = s.disk })

restart-reboot : (l c : Log) → c.start ≡ l.start → c.size ≡ l.size → restart l (saved c) ≡ reboot c
restart-reboot l c start size =
    ap (λ n. record (restart l (saved c)) { start = n }) (sym start)
    ∙ ap (λ n. record (restart l (saved c)) { start = c.start; size = n }) (sym size)

-- The states on the trail of `write_log`.
write_log_from-OnTrail :
    (s : Saved) (t : ℕ) (bs : List ℕ) (l : Log)
    → OnTrail s (write_log_from t bs l).trail
    → OnTrail s l.trail ⊎ ((j : ℕ) × (s ≡ saved (write_log_from t (take j bs) l)))
unfolding write_log_from
write_log_from-OnTrail s t [] l on = inl on
write_log_from-OnTrail s t (b ∷ bs) l on =
    elim (write_log_from-OnTrail s (t + 1) bs (write_block (l.start + t + 1) (l.view b) l) on) [
      | inl earlier ↦ first earlier
      | inr (j, e) ↦ inr (suc j, e)
    ]
  where
    first :
        OnTrail s (write_block (l.start + t + 1) (l.view b) l).trail
        → OnTrail s l.trail ⊎ ((j : ℕ) × (s ≡ saved (write_log_from t (take j (b ∷ bs)) l)))
    first (last r ss e) = inr (1, e)
    first (before r ss on') = inl on'

-- The states on the trail of `install_trans`.
install_from-OnTrail :
    (s : Saved) (t : ℕ) (bs : List ℕ) (l : Log)
    → OnTrail s (install_from t bs l).trail
    → OnTrail s l.trail ⊎ ((j : ℕ) × (s ≡ saved (install_from t (take j bs) l)))
unfolding install_from
install_from-OnTrail s t [] l on = inl on
install_from-OnTrail s t (b ∷ bs) l on =
    elim (install_from-OnTrail s (t + 1) bs (write_block b (l.view (l.start + t + 1)) l) on) [
      | inl earlier ↦ first earlier
      | inr (j, e) ↦ inr (suc j, e)
    ]
  where
    first :
        OnTrail s (write_block b (l.view (l.start + t + 1)) l).trail
        → OnTrail s l.trail ⊎ ((j : ℕ) × (s ≡ saved (install_from t (take j (b ∷ bs)) l)))
    first (last r ss e) = inr (1, e)
    first (before r ss on') = inl on'

-- A crash leaves all of the transaction, or nothing of it.
abbrev pub OldOrNew : Log → Saved → Type 0
OldOrNew l s =
    Unchanged l (recover_from_log (restart l s)) ⊎ Committed l (recover_from_log (restart l s))

OldOrNew-saved :
    (l c : Log) (s : Saved)
    → c.start ≡ l.start
    → c.size ≡ l.size
    → s ≡ saved c
    → Unchanged l (recover_from_log (reboot c)) ⊎ Committed l (recover_from_log (reboot c))
    → OldOrNew l s
OldOrNew-saved l c s start size e atomic =
    subst (λ x. Unchanged l (recover_from_log x) ⊎ Committed l (recover_from_log x))
      (sym (ap (restart l) e ∙ restart-reboot l c start size)) atomic

OldOrNew-logging :
    (l : Log) (s : Saved) (j : ℕ)
    → l.head ≡ []
    → s ≡ saved (write_log_from 0 (take j l.blocks) l)
    → OldOrNew l s
OldOrNew-logging l s j empty e =
    let same = sym (write_log_from-record 0 (take j l.blocks) l) in
    OldOrNew-saved l (write_log_from 0 (take j l.blocks) l) s (ap (λ (x : Log). x.start) same)
      (ap (λ (x : Log). x.size) same) e (inl (recover_logging l j empty))

OldOrNew-before : (l : Log) (s : Saved) → l.head ≡ [] → s ≡ saved l → OldOrNew l s
unfolding write_log_from
OldOrNew-before l s empty e = OldOrNew-logging l s 0 empty e

OldOrNew-installing :
    (l : Log) (s : Saved) (j : ℕ)
    → AllHome l.start (length l.blocks) l.blocks
    → s ≡ saved (install_from 0 (take j l.blocks) (headed l))
    → OldOrNew l s
OldOrNew-installing l s j homes e =
    let c : Log = install_from 0 (take j l.blocks) (headed l) in
    let same = sym (install_from-record 0 (take j l.blocks) (headed l)) in
    OldOrNew-saved l c s (ap (λ (x : Log). x.start) same) (ap (λ (x : Log). x.size) same) e
      (inr (recover_installing l j homes))

-- The transaction when the log is cleared.
cleared : Log → Log
cleared l = write_head (record (install_trans (write_head (write_log l))) { blocks = [] })

cleared_same : (l : Log) → ((cleared l).start ≡ l.start) × ((cleared l).size ≡ l.size)
unfolding cleared install_trans write_head write_log
cleared_same l =
    let logged = sym (write_log_from-record 0 l.blocks l) in
    let m : Log = write_head (write_log l) in
    let same = sym (install_from-record 0 m.blocks m) in
    (
      ap (λ (x : Log). x.start) same ∙ ap (λ (x : Log). x.start) logged,
      ap (λ (x : Log). x.size) same ∙ ap (λ (x : Log). x.size) logged,
    )

-- The states before the header is on the disk.
OldOrNew-logged :
    (l : Log) (s : Saved)
    → l.head ≡ []
    → ((r : Saved) → OnTrail r l.trail → r ≡ saved l)
    → OnTrail s (write_log l).trail
    → OldOrNew l s
unfolding write_log
OldOrNew-logged l s empty start on = elim (write_log_from-OnTrail s 0 l.blocks l on) [
  | inl earlier ↦ OldOrNew-before l s empty (start s earlier)
  | inr (j, e) ↦ OldOrNew-logging l s j empty e
]

-- The states before the header on the disk is cleared.
OldOrNew-headed :
    (l : Log) (s : Saved)
    → l.head ≡ []
    → AllHome l.start (length l.blocks) l.blocks
    → ((r : Saved) → OnTrail r l.trail → r ≡ saved l)
    → OnTrail s (install_trans (headed l)).trail
    → OldOrNew l s
unfolding install_trans install_from
OldOrNew-headed l s empty homes start on = elim (install_from-OnTrail s 0 l.blocks (headed l) on) [
  | inr (j, e) ↦ OldOrNew-installing l s j homes e
  | inl earlier ↦ first earlier
]
  where
    first : OnTrail s (headed l).trail → OldOrNew l s
    first (last r ss e) = OldOrNew-installing l s 0 homes e
    first (before r ss on') = OldOrNew-logged l s empty start on'

OnTrail-cleared :
    (l : Log) (s : Saved)
    → OnTrail s (cleared l).trail
    → (s ≡ saved (cleared l)) ⊎ OnTrail s (install_trans (headed l)).trail
unfolding cleared write_head
OnTrail-cleared l s (last r ss e) = inl e
OnTrail-cleared l s (before r ss on) =
    inr (subst (λ x. OnTrail s (install_trans x).trail) (sym (write_head-headed l)) on)

-- `commit` with blocks to write.
OldOrNew-cleared :
    (l : Log) (s : Saved)
    → l.head ≡ []
    → AllHome l.start (length l.blocks) l.blocks
    → commit l ≡ cleared l
    → ((r : Saved) → OnTrail r l.trail → r ≡ saved l)
    → OnTrail s (cleared l).trail
    → OldOrNew l s
OldOrNew-cleared l s empty homes e start on = elim (OnTrail-cleared l s on) [
  | inr earlier ↦ OldOrNew-headed l s empty homes start earlier
  | inl done ↦
      let (same_start, same_size) = cleared_same l in
      OldOrNew-saved l (cleared l) s same_start same_size done (
        inr (
          subst (λ x. Committed l (recover_from_log (reboot x))) e
            (commit_is_durable l empty homes)))
]

commit-cleared : (l : Log) → ltb 0 (length l.blocks) ≡ true → commit l ≡ cleared l
unfolding commit cleared
commit-cleared l some_blocks = rw some_blocks

OldOrNew-commit :
    (l : Log) (s : Saved)
    → l.head ≡ []
    → AllHome l.start (length l.blocks) l.blocks
    → ((r : Saved) → OnTrail r l.trail → r ≡ saved l)
    → OnTrail s (commit l).trail
    → OldOrNew l s
OldOrNew-commit l s empty homes start on = elim (Bool-cases (ltb 0 (length l.blocks))) [
  | inl some_blocks ↦
      let e = commit-cleared l some_blocks in
      OldOrNew-cleared l s empty homes e start (subst (λ (x : Log). OnTrail s x.trail) e on)
  | inr no_blocks ↦
      let e = commit_none l no_blocks in
      OldOrNew-before l s empty (start s (subst (λ (x : Log). OnTrail s x.trail) e on))
]

only_before : (r b : Saved) → OnTrail r (b ∷ []) → r ≡ b
only_before r b (last c ss e) = e
only_before r b (before c ss on) = nothing on
  where
    nothing : OnTrail r [] → r ≡ b
    nothing on = elim on [ ]

-- Stop the machine before `commit` or after any of its writes to the disk: the recovery at the next start
-- leaves every block outside of the log as it was before the transaction, or every one of them as the
-- transaction wrote it. Before `commit` the header on the disk must be empty and the logged blocks must
-- lie outside of the log.
pub recovery_is_atomic :
    (l : Log) (s : Saved)
    → OnTrail s (crashes l)
    → l.head ≡ []
    → AllHome l.start (length l.blocks) l.blocks
    → OldOrNew l s
recovery_is_atomic l s on empty homes =
    OldOrNew-commit (record l { trail = saved l ∷ [] }) s empty homes
      (λ r start. only_before r (saved l) start) on
