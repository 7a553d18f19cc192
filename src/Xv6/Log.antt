-- ===== src/Xv6/Log.antt =====
-- xv6-public/log.c: the write-ahead log. The contents of a block are a number. `view` is what `bread`
-- gives, `disk` what a crash leaves; `bwrite` makes them agree. The header on the disk is `head`, the
-- one in memory `blocks`. A panic is `none`. `trail` lists what was on the disk after each write to it, the
-- last first: these are the states that a crash can leave. Each function that holds `log.lock` is a step.
pub mod Blocks
pub mod Recovery
pub mod Crash
pub mod Space
pub mod Overrun
mod Tests
use os_codes.Common.{
  ℕ, ◌+◌, ◌-◌, ◌*◌, ◌≤◌, arith, Bool, true, false, ◌||◌, Option, none, some, List, [], ◌∷◌,
  if◌then◌else◌, ltb, leb, ◌==◌, length,
}

abbrev pub max_op_blocks : ℕ
max_op_blocks = 10

abbrev pub log_size : ℕ
log_size = 30

-- What is on the disk: the header and the blocks.
pub record Saved : Type 0 where
  pub head : List ℕ
  pub disk : ℕ → ℕ

pub record Log : Type 0 where
  pub start : ℕ
  pub size : ℕ
  pub outstanding : ℕ
  pub committing : Bool
  pub blocks : List ℕ
  pub head : List ℕ
  pub view : ℕ → ℕ
  pub disk : ℕ → ℕ
  pub trail : List Saved

abbrev pub assign : (ℕ → ℕ) → ℕ → ℕ → ℕ → ℕ
assign f at v b = if b == at then v else f b

-- A change of the buffer of block `b`, and `bwrite` of it.
abbrev pub write_block : ℕ → ℕ → Log → Log
write_block b v l = record l {
  view = assign l.view b v;
  disk = assign l.disk b v;
  trail = record { head = l.head; disk = assign l.disk b v } ∷ l.trail;
}

-- The loop of `install_trans`, with the rest of the blocks.
unfoldable pub install_from : ℕ → List ℕ → Log → Log
install_from tail [] l = l
install_from tail (b ∷ bs) l =
    install_from (tail + 1) bs (write_block b (l.view (l.start + tail + 1)) l)

unfoldable pub install_trans : Log → Log
unfolding install_from
install_trans l = install_from 0 l.blocks l

unfoldable pub read_head : Log → Log
read_head l = record l { blocks = l.head }

unfoldable pub write_head : Log → Log
write_head l = record l {
  head = l.blocks;
  trail = record { head = l.blocks; disk = l.disk } ∷ l.trail;
}

unfoldable pub recover_from_log : Log → Log
unfolding install_trans read_head write_head
recover_from_log l = write_head (record (install_trans (read_head l)) { blocks = [] })

-- The loop of `write_log`
unfoldable pub write_log_from : ℕ → List ℕ → Log → Log
write_log_from tail [] l = l
write_log_from tail (b ∷ bs) l =
    write_log_from (tail + 1) bs (write_block (l.start + tail + 1) (l.view b) l)

unfoldable pub write_log : Log → Log
unfolding write_log_from
write_log l = write_log_from 0 l.blocks l

unfoldable pub commit : Log → Log
unfolding install_trans write_head write_log
commit l =
    if ltb 0 (length l.blocks)
    then write_head (record (install_trans (write_head (write_log l))) { blocks = [] })
    else l

-- One round of `begin_op`; it sleeps on `none`.
unfoldable pub begin_op : Log → Option Log
begin_op l =
    if l.committing || ltb log_size (length l.blocks + (l.outstanding + 1) * max_op_blocks)
    then none
    else some (record l { outstanding = l.outstanding + 1 })

-- `end_op` up to its first `release`, by an operation that `begin_op` counted.
unfoldable pub end_op : Log → Option Log
end_op l =
    if l.committing
    then none
    else if l.outstanding - 1 == 0
    then some (record l { outstanding = 0; committing = true })
    else some (record l { outstanding = l.outstanding - 1 })

-- The rest of `end_op`, after which it wakes those that sleep in `begin_op`.
unfoldable pub end_commit : Log → Log
unfolding commit
end_commit l = record (commit l) { committing = false }

unfoldable pub record_block : ℕ → List ℕ → List ℕ
record_block b [] = b ∷ []
record_block b (c ∷ cs) = let rest = record_block b cs in if c == b then c ∷ cs else c ∷ rest

unfoldable pub log_write : ℕ → Log → Option Log
unfolding record_block
log_write b l =
    if leb log_size (length l.blocks) || leb (l.size - 1) (length l.blocks)
    then none
    else if l.outstanding == 0
    then none
    else some (record l { blocks = record_block b l.blocks })
