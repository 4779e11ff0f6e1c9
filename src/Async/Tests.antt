-- ===== src/Async/Tests.antt =====
-- Async tasks in the states of the pool that its samples have.
use atlanage.Prelude.{◌≡◌, refl, true, false, [], ◌∷◌, none, some, arith}
use atlanage.Effect.{retain}
use atlanage.Pool.{queue_task, init, submit, shut_down}
use atlanage.Pool.System.{start}
use atlanage.Pool.Samples.{run, one, one-Reach}
use atlanage.Async.{AsyncTask, async_spawn, async_wait, async_try_wait, runner_end, task_new}
use atlanage.Async.Answers.{async_wait-Reach}

-- The first task of the pool.
abbrev first : AsyncTask
first = record { result = 0; status = 0; pool_id = some 0 }

task_new_run : task_new 9 ≡ (record { result = 9; status = 1; pool_id = none }, retain 9 ∷ [])
unfolding task_new
task_new_run = refl

spawn_shut :
    async_spawn (shut_down start.pool) 6 7
    ≡ some (record { result = 0; status = 0; pool_id = none }, shut_down start.pool)
unfolding async_spawn submit shut_down init
spawn_shut = refl

async_wait-Reach_example :
    (async_wait one.pool first ≡ none)
    × (async_try_wait one.pool (runner_end 5000 42 first).0
        ≡ (true, record first { result = 42; status = 1 }))
    × (async_try_wait one.pool first ≡ (false, first))
unfolding queue_task init
async_wait-Reach_example =
    async_wait-Reach run one-Reach first 0 refl 5000 (omega arith) (omega arith)
