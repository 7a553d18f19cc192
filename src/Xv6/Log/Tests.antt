-- ===== src/Xv6/Log/Tests.antt =====
-- Runs of the log: two blocks are logged, and the machine stops after the first is installed.
use os_codes.Common.{ℕ, none, get_elem?, ◌+◌, ◌≡◌, inr, refl, true, false, some, [], ◌∷◌, arith}
use os_codes.Xv6.Log.{
  Log, Saved, assign, log_size, install_trans, write_log_from, commit, recover_from_log, begin_op,
  log_write, end_op, install_from, write_head, write_log,
}
use os_codes.Xv6.Log.Recovery.{reboot, Committed, commit_is_durable}
use os_codes.Xv6.Log.Crash.{OnTrail, last, before, crashes, OldOrNew, recovery_is_atomic}
use os_codes.Xv6.Log.Blocks.{AllHome}
use os_codes.Xv6.Log.Space.{Ops, Reach, here, next, begins, end_op_total}
use os_codes.Xv6.Log.Overrun.{log_write_overruns}

abbrev written : Log
written = record {
  start = 2;
  size = 40;
  outstanding = 0;
  committing = true;
  blocks = 50 ∷ 60 ∷ [];
  head = [];
  view = λ b. b + 1000;
  disk = λ b. b;
  trail = [];
}

-- The disk with the header and the first block installed.
abbrev stopped : Saved
stopped = record {
  head = 50 ∷ 60 ∷ [];
  disk = assign (assign (assign (λ b. b) 3 1050) 4 1060) 50 1050;
}

stopped-OnTrail : OnTrail stopped (crashes written)
unfolding commit write_log write_log_from write_head install_trans install_from
stopped-OnTrail = before _ _ (before _ _ (last _ _ refl))

written-AllHome : AllHome 2 2 (50 ∷ 60 ∷ [])
written-AllHome = (inr (omega arith), (inr (omega arith), tt))

recovery_is_atomic_example : OldOrNew written stopped
recovery_is_atomic_example = recovery_is_atomic written stopped stopped-OnTrail refl written-AllHome

commit_is_durable_example : Committed written (recover_from_log (reboot (commit written)))
commit_is_durable_example = commit_is_durable written refl written-AllHome

abbrev empty_log : Log
empty_log = record written { committing = false; blocks = [] }

abbrev one_op : Ops
one_op = record { log = record empty_log { outstanding = 1 }; budgets = 10 ∷ [] }

Reach-one_op : Reach one_op
unfolding begin_op
Reach-one_op = next (here refl refl refl) (begins (record empty_log { outstanding = 1 }) refl)

abbrev mkfs_log : Log
mkfs_log = record empty_log { size = log_size }

log_write_overruns_example :
    (o : Ops) × Reach o × (get_elem? o.budgets 2 ≡ some 1) × ((b : ℕ) → log_write b o.log ≡ none)
log_write_overruns_example = log_write_overruns mkfs_log refl refl refl refl

end_op-one_op : (l : Log) × (end_op one_op.log ≡ some l)
end_op-one_op = end_op_total Reach-one_op 0 10 refl
