-- ===== src/Sync/MasterWorker/Tests.antt =====
-- A run of master-worker.c with one item, one place, one master and one worker.
use mathlib.Core.List.{Perm}
use os_codes.Common.{◌+◌, ◌<◌, ◌≡◌, refl, [], ◌∷◌, arith}
use os_codes.Sync.MasterWorker.{
  State, master_turn, worker_turn, master, worker, start, Reach, here, next,
}
use os_codes.Sync.MasterWorker.Invariant.{countdown, no_deadlock, all_consumed}

-- The master produces item 0.
abbrev produced : State
produced = master_turn 1 1 (start 1 1 1 1)

Reach-produced : Reach 1 1 1 1 produced
Reach-produced = next here (master (omega arith))

-- The worker consumes it, and then ends.
abbrev ended : State
ended = worker_turn 1 1 (worker_turn 1 1 produced)

Reach-ended : Reach 1 1 1 1 ended
unfolding master_turn worker_turn
Reach-ended = next (next Reach-produced (worker (omega arith))) (worker (omega arith))

no_deadlock_example : 0 < produced.masters_awake + produced.workers_awake
unfolding master_turn
no_deadlock_example =
    no_deadlock Reach-produced (omega arith) (omega arith) (omega arith) (omega arith)

all_consumed_example : (ended.buffer ≡ []) × Perm ended.consumed (countdown 1)
unfolding master_turn worker_turn
all_consumed_example = all_consumed Reach-ended (omega arith) refl

ended_consumed : ended.consumed ≡ 0 ∷ []
unfolding master_turn worker_turn
ended_consumed = refl
