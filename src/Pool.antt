-- ===== src/Pool.antt =====
-- runtime/xt_threadpool.c: the thread pool. Every part of a function that runs under the mutex of
-- the pool is one step, up to a wait on a condition; what a wait returns to is the next look at the
-- pool. A task's function and argument are numbers, and so is the result of a run.
mod Slots
pub mod System
pub mod Valid
mod Find
pub mod Preserve
pub mod Work
pub mod Service
pub mod Samples
mod Tests
use atlanage.Prelude.{
  ℕ, zero, suc, ◌+◌, ◌-◌, ◌%◌, Bool, true, false, ◌&&◌, not, List, [], ◌∷◌, Option, none, some, ltb,
  leb, ◌==◌, if◌then◌else◌, length, get_or, set, replicate,
}

abbrev pub max_tasks : ℕ
max_tasks = 4096

abbrev pub max_workers : ℕ
max_workers = 64

-- `pool_task`
pub record Task : Type 0 where
  pub func : Option ℕ
  pub arg : ℕ
  pub result : ℕ
  pub done : Bool
  pub id : ℕ

-- The slots of a static array are zero.
abbrev pub blank : Task
blank = record { func = none; arg = 0; result = 0; done = false; id = 0 }

-- `g_pool`
pub record Pool : Type 0 where
  pub tasks : List Task
  pub head : ℕ
  pub count : ℕ
  pub counter : ℕ
  pub is_shut : Bool

-- The number of workers that `xt_threadpool_init` starts. `requested` is 0 for every number that is
-- not positive, and `processors` is what the system answers, 0 if that is not positive.
unfoldable pub workers_for : ℕ → ℕ → ℕ
workers_for requested processors =
    let wanted =
      if requested == 0 then (if processors == 0 then 1 else processors) else requested in
    if ltb max_workers wanted then max_workers else wanted

-- The pool that `xt_threadpool_init` sets up, on the slots that it finds.
unfoldable pub init : List Task → Pool
init tasks = record { tasks = tasks; head = 0; count = 0; counter = 0; is_shut = false }

-- What `xt_threadpool_submit` does at a look: it returns -1, it waits for space, or it returns an id.
pub data Submitted : Type 0 where
  refused : Submitted
  no_space : Submitted
  queued : ℕ → Pool → Submitted

-- The id is an `int`: past 2 ^ 31 - 1 its next value is undefined in C, and is the number here.
unfoldable pub queue_task : Pool → ℕ → ℕ → Pool
queue_task p f a =
    let slot = (p.head + p.count) % max_tasks in
    record p {
      tasks =
          set p.tasks slot
            (record { func = some f; arg = a; result = 0; done = false; id = p.counter });
      counter = p.counter + 1;
      count = p.count + 1;
    }

-- `xt_threadpool_submit`
unfoldable pub submit : Pool → ℕ → ℕ → Submitted
unfolding queue_task
submit p f a =
    if leb max_tasks p.count && not p.is_shut
    then no_space
    else if p.is_shut
    then refused
    else queued p.counter (queue_task p f a)

-- What a worker of `worker_loop` does at a look: it waits, it ends, or it takes a task.
pub data Taken : Type 0 where
  waits : Taken
  ends : Taken
  takes : Task → Pool → Taken

abbrev pub no_func : Task → Task
no_func t = record t { func = none }

unfoldable pub take_task : Pool → Task × Pool
take_task p =
    let t = get_or p.tasks p.head blank in
    (
      t,
      record p {
        tasks = set p.tasks p.head (no_func t);
        head = (p.head + 1) % max_tasks;
        count = p.count - 1;
      },
    )

unfoldable pub take_next : Pool → Taken
unfolding take_task
take_next p =
    let (t, p') = take_task p in
    if p.count == 0 && not p.is_shut then waits else if p.is_shut then ends else takes t p'

-- The loop that stores the result of the task `id`.
unfoldable pub store : ℕ → ℕ → List Task → List Task
store id result [] = []
store id result (t ∷ ts) =
    if t.id == id then record t { result = result; done = true } ∷ ts else t ∷ store id result ts

-- The end of a round of `worker_loop`: the result of the run of `t` is stored.
unfoldable pub finish : Pool → Task → ℕ → Pool
unfolding store
finish p t result = record p { tasks = store t.id result p.tasks }

-- `xt_threadpool_shutdown`, up to the joins.
unfoldable pub shut_down : Pool → Pool
shut_down p = record p { is_shut = true }

-- What a look for a task finds: its result, that it is not done, or that no slot has its id.
pub data Look : Type 0 where
  ready : ℕ → Look
  pending : Look
  unknown : Look

-- The loop of `xt_threadpool_wait`; it returns null if the id is unknown, and waits if it is pending.
unfoldable pub wait_look : ℕ → List Task → Bool → Look
wait_look id [] found = if found then pending else unknown
wait_look id (t ∷ ts) found =
    if t.id == id && t.done
    then ready t.result
    else wait_look id ts (if t.id == id then true else found)

-- The loop of `xt_threadpool_try_wait`, by the return that it comes to: the result of a task that is
-- done, null for one that is pending, or -1. A result that is null is the same pointer as for a pending
-- task; `tried` of Async is the pointer that the caller sees.
unfoldable pub try_look : ℕ → List Task → Look
try_look id [] = unknown
try_look id (t ∷ ts) =
    if t.id == id then (if t.done then ready t.result else pending) else try_look id ts

-- `xt_threadpool_wait` at a look, and `xt_threadpool_try_wait`
unfoldable pub wait_for : Pool → ℕ → Look
unfolding wait_look
wait_for p id = wait_look id p.tasks false

unfoldable pub try_wait : Pool → ℕ → Look
unfolding try_look
try_wait p id = try_look id p.tasks

-- `xt_threadpool_pending_count`
unfoldable pub pending_count : Pool → ℕ
pending_count p = p.count
