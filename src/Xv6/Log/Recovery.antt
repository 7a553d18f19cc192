-- ===== src/Xv6/Log/Recovery.antt =====
-- What `recover_from_log` makes of the disk in the middle of `commit`, and after it.
use os_codes.Common.{
  ℕ, zero, suc, ◌+◌, ◌≤◌, ◌<◌, ◌≡◌, ◌⊎◌, inl, inr, refl, sym, ap, subst, ◌∙◌, arith, Bool, true,
  false, none, some, List, [], ◌∷◌, if◌then◌else◌, ltb, ◌==◌, length, take, length-take, Bool-cases,
}
use os_codes.Xv6.Log.{
  Log, install_from, install_trans, read_head, write_head, recover_from_log, write_log_from,
  write_log, commit,
}
use os_codes.Xv6.Log.Blocks.{
  mem, logged, or_else, AllHome, logged-SameLog, install_from-logged, write_log_from-elsewhere,
  Holds-logged, Holds-write_log_from, write_log_from-record, install_from-record,
}

-- Only the disk outlasts a crash.
abbrev pub reboot : Log → Log
reboot l = record l { outstanding = 0; committing = false; blocks = []; view = l.disk; trail = [] }

abbrev pub IsHome : Log → ℕ → Type 0
IsHome l a = (a < l.start) ⊎ (l.start + length l.blocks < a)

abbrev pub Unchanged : Log → Log → Type 0
Unchanged l r = (a : ℕ) → IsHome l a → r.disk a ≡ l.disk a

abbrev pub Committed : Log → Log → Type 0
Committed l r = (a : ℕ) → IsHome l a → r.disk a ≡ (if mem a l.blocks then l.view a else l.disk a)

install_from-empty : (bs : List ℕ) (l : Log) → bs ≡ [] → (install_from 0 bs l).disk ≡ l.disk
unfolding install_from
install_from-empty [] l e = refl
install_from-empty (b ∷ bs) l e = absurd (cc e)

disk-recover_from_log :
    (l : Log)
    → (recover_from_log l).disk ≡ (install_from 0 l.head (record l { blocks = l.head })).disk
unfolding recover_from_log install_trans read_head write_head
disk-recover_from_log l = refl

recover_empty : (l : Log) → l.head ≡ [] → (recover_from_log (reboot l)).disk ≡ l.disk
recover_empty l empty =
    disk-recover_from_log (reboot l)
    ∙ install_from-empty l.head (record (reboot l) { blocks = l.head }) empty

length-take-le : (j : ℕ) (bs : List ℕ) → length (take j bs) ≤ length bs
length-take-le j bs = omega (arith, length-take j bs)

pub recover_logging :
    (l : Log) (j : ℕ)
    → l.head ≡ []
    → Unchanged l (recover_from_log (reboot (write_log_from 0 (take j l.blocks) l)))
recover_logging l j empty a home =
    let w : Log = write_log_from 0 (take j l.blocks) l in
    let same : record l { view = w.view; disk = w.disk; trail = w.trail } ≡ w =
      write_log_from-record 0 (take j l.blocks) l in
    let kept : w.head ≡ [] = sym (ap (λ (x : Log). x.head) same) ∙ empty in
    let short = length-take-le j l.blocks in
    let (view, disk) = write_log_from-elsewhere 0 a (take j l.blocks) l (ground arith) in
    ap (λ f. f a) (recover_empty w kept) ∙ disk

mem-take : (a j : ℕ) (bs : List ℕ) → mem a bs ≡ false → mem a (take j bs) ≡ false
mem-take a zero bs h = refl
mem-take a (suc j) [] h = refl
mem-take a (suc j) (b ∷ bs) h =
    let rest : mem a bs ≡ false = ground arith in let later = mem-take a j bs rest in ground arith

logged-absent :
    (start t : ℕ) (bs : List ℕ) (view : ℕ → ℕ) (a : ℕ)
    → mem a bs ≡ false
    → logged start t bs view a ≡ none
unfolding logged
logged-absent start t [] view a h = refl
logged-absent start t (b ∷ bs) view a h =
    let rest : mem a bs ≡ false = ground arith in
    let other : (b == a) ≡ false = ground arith in
    rw (logged-absent start (t + 1) bs view a rest, other)

AllHome-take : (start n j : ℕ) (bs : List ℕ) → AllHome start n bs → AllHome start n (take j bs)
AllHome-take start n zero bs home = tt
AllHome-take start n (suc j) [] home = tt
AllHome-take start n (suc j) (b ∷ bs) (home, homes) = (home, AllHome-take start n j bs homes)

-- The state when the header is on the disk.
abbrev pub headed : Log → Log
headed l = record l {
  view = (write_log l).view;
  disk = (write_log l).disk;
  head = l.blocks;
  trail = record { head = l.blocks; disk = (write_log l).disk } ∷ (write_log l).trail;
}

pub write_head-headed : (l : Log) → headed l ≡ write_head (write_log l)
unfolding write_head write_log
write_head-headed l = ap write_head (write_log_from-record 0 l.blocks l)

-- What the full log holds when its header is on the disk.
headed-logged :
    (l : Log) (a : ℕ)
    → AllHome l.start (length l.blocks) l.blocks
    → (logged l.start 0 l.blocks (headed l).disk a
        ≡ (if mem a l.blocks then some (l.view a) else none))
      × (logged l.start 0 l.blocks (headed l).view a
          ≡ (if mem a l.blocks then some (l.view a) else none))
unfolding write_log
headed-logged l a homes =
    let (on_disk, in_view) =
      Holds-write_log_from 0 (length l.blocks) l.blocks l l.view (omega arith) homes
        (λ x far. refl) in
    (
      Holds-logged l.start 0 l.blocks (headed l).disk l.view a on_disk,
      Holds-logged l.start 0 l.blocks (headed l).view l.view a in_view,
    )

pub headed_home : (l : Log) (a : ℕ) → IsHome l a → (headed l).disk a ≡ l.disk a
unfolding write_log
headed_home l a home =
    let (view, disk) = write_log_from-elsewhere 0 a l.blocks l (ground arith) in disk

or_else_mem :
    (hit : Bool) (v w d : ℕ)
    → (hit ≡ false → d ≡ w)
    → or_else (if hit then some v else none) d ≡ (if hit then v else w)
or_else_mem true v w d h = refl
or_else_mem false v w d h = h refl

-- A part of the log is installed before the crash.
partly_installed :
    (l : Log) (j a : ℕ)
    → AllHome l.start (length l.blocks) l.blocks
    → IsHome l a
    → mem a l.blocks ≡ false
    → (install_from 0 (take j l.blocks) (headed l)).disk a ≡ l.disk a
partly_installed l j a homes home out =
    let short = length-take-le j l.blocks in
    let (on_disk, log_disk) =
      install_from-logged 0 (length l.blocks) a (take j l.blocks) (headed l) (omega arith)
        (AllHome-take l.start (length l.blocks) j l.blocks homes) in
    on_disk
    ∙ ap (λ o. or_else o ((headed l).disk a))
        (logged-absent l.start 0 (take j l.blocks) (headed l).view a (mem-take a j l.blocks out))
    ∙ headed_home l a home

pub recover_installing :
    (l : Log) (j : ℕ)
    → AllHome l.start (length l.blocks) l.blocks
    → Committed l (recover_from_log (reboot (install_from 0 (take j l.blocks) (headed l))))
recover_installing l j homes a home =
    let c : Log = install_from 0 (take j l.blocks) (headed l) in
    let r : Log = record (headed l) { view = c.view; disk = c.disk; trail = c.trail } in
    let whole : Log = record (reboot r) { blocks = l.blocks } in
    let short = length-take-le j l.blocks in
    let (here, log_disk) =
      install_from-logged 0 (length l.blocks) a (take j l.blocks) (headed l) (omega arith)
        (AllHome-take l.start (length l.blocks) j l.blocks homes) in
    let (on_disk, more) =
      install_from-logged 0 (length l.blocks) a l.blocks whole (omega arith) homes in
    let held : logged l.start 0 l.blocks c.disk a
        ≡ (if mem a l.blocks then some (l.view a) else none) =
      logged-SameLog l.start (length l.blocks) 0 l.blocks c.disk (headed l).disk a (omega arith)
        log_disk
      ∙ (headed-logged l a homes).0 in
    subst
      (λ (x : Log).
        (recover_from_log (reboot x)).disk a ≡ (if mem a l.blocks then l.view a else l.disk a))
      (install_from-record 0 (take j l.blocks) (headed l))
      (ap (λ f. f a) (disk-recover_from_log (reboot r))
        ∙ on_disk
        ∙ ap (λ o. or_else o (c.disk a)) held
        ∙ or_else_mem (mem a l.blocks) (l.view a) (l.disk a) (c.disk a)
            (partly_installed l j a homes home))

head-write_head : (l : Log) → (write_head l).head ≡ l.blocks
unfolding write_head
head-write_head l = refl

disk-write_head : (l : Log) → (write_head l).disk ≡ l.disk
unfolding write_head
disk-write_head l = refl

pub commit_some :
    (l : Log)
    → ltb 0 (length l.blocks) ≡ true
    → ((commit l).head ≡ []) × ((commit l).disk ≡ (install_from 0 l.blocks (headed l)).disk)
unfolding commit install_trans
commit_some l h =
    let done : Log = record (install_trans (write_head (write_log l))) { blocks = [] } in
    let e : commit l ≡ write_head done = rw h in
    (
      ap (λ (x : Log). x.head) e ∙ head-write_head done,
      ap (λ (x : Log). x.disk) e
          ∙ disk-write_head done
          ∙ ap (λ (x : Log). (install_trans x).disk) (sym (write_head-headed l)),
    )

pub commit_none : (l : Log) → ltb 0 (length l.blocks) ≡ false → commit l ≡ l
unfolding commit
commit_none l h = rw h

mem-empty : (a : ℕ) (bs : List ℕ) → ltb 0 (length bs) ≡ false → mem a bs ≡ false
mem-empty a [] h = refl
mem-empty a (b ∷ bs) h = ground arith

-- Once `commit` has returned, the recovery after a crash keeps what the transaction wrote. Before
-- `commit` the header on the disk must be empty and the logged blocks must lie outside of the log.
pub commit_is_durable :
    (l : Log)
    → l.head ≡ []
    → AllHome l.start (length l.blocks) l.blocks
    → Committed l (recover_from_log (reboot (commit l)))
commit_is_durable l empty homes a home = elim (Bool-cases (ltb 0 (length l.blocks))) [
  | inl some_blocks ↦
      let (head, disk) = commit_some l some_blocks in
      let (on_disk, more) =
        install_from-logged 0 (length l.blocks) a l.blocks (headed l) (omega arith) homes in
      ap (λ f. f a) (recover_empty (commit l) head ∙ disk)
      ∙ on_disk
      ∙ ap (λ o. or_else o ((headed l).disk a)) (headed-logged l a homes).1
      ∙ or_else_mem (mem a l.blocks) (l.view a) (l.disk a) ((headed l).disk a)
          (λ out. headed_home l a home)
  | inr no_blocks ↦
      let same = commit_none l no_blocks in
      let kept : (commit l).head ≡ [] = ap (λ (x : Log). x.head) same ∙ empty in
      let out = mem-empty a l.blocks no_blocks in
      ap (λ f. f a) (recover_empty (commit l) kept ∙ ap (λ (x : Log). x.disk) same)
      ∙ ap (λ h. if h then l.view a else l.disk a) (sym out)
]
