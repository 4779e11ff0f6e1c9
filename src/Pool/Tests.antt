-- ===== src/Pool/Tests.antt =====
-- Runs of the pool, and the theorems on it at concrete states.
use atlanage.Prelude.{◌≡◌, refl, arith, replicate}
use atlanage.Pool.{
  Pool, refused, queue_task, submit, ends, take_task, take_next, finish, shut_down, wait_for,
  try_wait, wait_look, ready, pending, pending_count, store, workers_for, init, blank,
}
use atlanage.Pool.Valid.{outcome}
use atlanage.Pool.Work.{work}
use atlanage.Pool.Service.{wait_for-Reach, work-Reach}
use atlanage.Pool.Samples.{run, one, one-Reach}

-- A pool of three slots.
abbrev small : Pool
small = queue_task (queue_task (init (replicate 3 blank)) 6 7) 5 5

run_small : wait_for (finish (take_task small).1 (take_task small).0 42) 0 ≡ ready 42
unfolding wait_for wait_look take_task finish store queue_task init
run_small = refl

wait_small : wait_for small 1 ≡ pending
unfolding wait_for wait_look queue_task init
wait_small = refl

submit-shut : submit (shut_down small) 1 1 ≡ refused
unfolding submit shut_down queue_task init
submit-shut = refl

take_next-shut : take_next (shut_down small) ≡ ends
unfolding take_next take_task shut_down queue_task init
take_next-shut = refl

workers_for_many : workers_for 100 8 ≡ 64
unfolding workers_for
workers_for_many = refl

wait_for-Reach_example :
    (wait_for one.pool 0 ≡ outcome run one 0) × (try_wait one.pool 0 ≡ outcome run one 0)
unfolding queue_task init
wait_for-Reach_example = wait_for-Reach run one-Reach 0 (omega arith) (omega arith)

work-Reach_example :
    (pending_count (work run one.pool.count one).pool ≡ 0)
    × (wait_for (work run one.pool.count one).pool 0 ≡ ready 42)
unfolding queue_task init
work-Reach_example = work-Reach run one-Reach 0 refl (omega arith) (omega arith)
