-- ===== src/Async.antt =====
-- runtime/xt_runtime.c, async tasks: `xt_task_new`, `xt_async_spawn` and what waits for a task that is
-- no fiber. A task runs in the thread pool, under the number that `xt_threadpool_submit` gave.
mod Answers
mod Tests
use atlanage.Prelude.{
  ℕ, ◌-◌, ◌^◌, Bool, true, false, List, [], ◌∷◌, Option, none, some, ◌==◌, if◌then◌else◌,
}
use atlanage.Effect.{Effect, retain, wake}
use atlanage.Pool.{
  Pool, Submitted, refused, no_space, queued, submit, Look, ready, pending, unknown, wait_for,
  try_wait,
}

-- `XTTask`; `pool_id` is null where it is negative.
pub record AsyncTask : Type 0 where
  pub result : ℕ
  pub status : ℕ
  pub pool_id : Option ℕ

-- `xt_task_new`, with its calls of `xt_retain`.
unfoldable pub task_new : ℕ → AsyncTask × List Effect
task_new result = (
  record { result = result; status = 1; pool_id = none },
  if result == 0 then [] else retain result ∷ [],
)

-- `xt_async_spawn`; null while it waits for space in the pool. A number of a task is not negative
-- before 2 ^ 31 submissions, after which the `int` of the pool is undefined.
unfoldable pub async_spawn : Pool → ℕ → ℕ → Option (AsyncTask × Pool)
unfolding submit
async_spawn p func arg = elim (submit p func arg) [
  | no_space ↦ none
  | refused ↦ some (record { result = 0; status = 0; pool_id = none }, p)
  | queued id p' ↦ some (record { result = 0; status = 0; pool_id = some id }, p')
]

-- The end of `async_runner`: the task at `address` has the result of its function, and the fibers that
-- wait for it are woken. The pool gets the same result.
unfoldable pub runner_end : ℕ → ℕ → AsyncTask → AsyncTask × List Effect
runner_end address result t = (record t { result = result; status = 1 }, wake address ∷ [])

-- What `xt_async_wait` makes of the answer of `xt_threadpool_wait`; null while it waits.
abbrev pub wait_answer : AsyncTask → Look → Option (ℕ × AsyncTask)
wait_answer t (ready r) = some (r, record t { result = r; status = 1 })
wait_answer t pending = none
wait_answer t unknown = some (0, record t { result = 0; status = 1 })

-- `xt_async_wait` at a look: null while it waits, or the result and the task.
unfoldable pub async_wait : Pool → AsyncTask → Option (ℕ × AsyncTask)
unfolding wait_for
async_wait p t = elim (t.pool_id) [
  | none ↦ some (t.result, t)
  | some id ↦ wait_answer t (wait_for p id)
]

-- The pointer that `xt_threadpool_try_wait` answers.
abbrev pub tried : Look → ℕ
tried (ready r) = r
tried pending = 0
tried unknown = 2 ^ 64 - 1

abbrev pub try_answer : AsyncTask → ℕ → Bool × AsyncTask
try_answer t r = if r == 0 then (false, t) else (true, record t { result = r; status = 1 })

-- `xt_async_try_wait`
unfoldable pub async_try_wait : Pool → AsyncTask → Bool × AsyncTask
unfolding try_wait
async_try_wait p t = elim (t.pool_id) [
  | none ↦ (true, t)
  | some id ↦ if t.status == 1 then (true, t) else try_answer t (tried (try_wait p id))
]
