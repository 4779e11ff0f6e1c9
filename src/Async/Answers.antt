-- ===== src/Async/Answers.antt =====
-- What is answered of a task, in every state of the pool that can be reached.
use atlanage.Prelude.{
  ℕ, ◌+◌, ◌-◌, ◌^◌, ◌≡◌, ◌∙◌, ◌≢◌, ◌≤◌, ◌<◌, refl, true, false, none, some, arith, if◌then◌else◌,
}
use atlanage.Pool.{Pool, Look, unknown, wait_for, try_wait}
use atlanage.Pool.System.{System, Reach}
use atlanage.Pool.Valid.{outcome}
use atlanage.Pool.Service.{wait_for-Reach, wait_for-overtaken}
use atlanage.Async.{
  AsyncTask, wait_answer, tried, try_answer, runner_end, async_wait, async_try_wait,
}
use atlanage.Prelude.Int.{negsuc}
use atlanage.Word.{signed, to_int}

async_wait_lem :
    (p : Pool) (t : AsyncTask) (k : ℕ) (l : Look)
    → t.pool_id ≡ some k
    → wait_for p k ≡ l
    → async_wait p t ≡ wait_answer t l
unfolding async_wait
async_wait_lem p t k l e f = ground (arith, e, f)

async_try_wait_lem :
    (p : Pool) (t : AsyncTask) (k : ℕ) (l : Look)
    → t.pool_id ≡ some k
    → t.status ≢ 1
    → try_wait p k ≡ l
    → async_try_wait p t ≡ try_answer t (tried l)
unfolding async_try_wait
async_try_wait_lem p t k l e n f = ground (arith, e, n, f)

try_done :
    (p : Pool) (t : AsyncTask) (k : ℕ)
    → t.pool_id ≡ some k
    → t.status ≡ 1
    → async_try_wait p t ≡ (true, t)
unfolding async_try_wait
try_done p t k e d = ground (arith, e, d)

module _ (run : ℕ → ℕ → ℕ) {s : System} (h : Reach run s) (t : AsyncTask) (k : ℕ)
    (e : t.pool_id ≡ some k) where
  -- What the function of the task `k` computes from its argument.
  abbrev pub value : ℕ
  value = run (s.jobs k).func (s.jobs k).arg

  abbrev pub answered : ℕ → AsyncTask
  answered r = record t { result = r; status = 1 }

  abbrev pub fresh : AsyncTask
  fresh = record t { status = 0 }

  -- Of one of the last 4096 tasks of the pool, `xt_async_wait` waits until its run has ended, and
  -- then answers what its own function computes from its own argument. `xt_async_try_wait` says that
  -- the task is done, with that result, from the end of `async_runner` on, and before that it says
  -- that it is not, as long as the pool has no result either.
  pub async_wait-Reach :
      (address : ℕ)
      → k < s.pool.counter
      → s.pool.counter ≤ k + 4096
      → (async_wait s.pool t ≡ (if s.ended k then some (value, answered value) else none))
        × (async_try_wait s.pool (runner_end address value t).0 ≡ (true, answered value))
        × (async_try_wait s.pool fresh
            ≡ (if s.ended k then try_answer fresh value else (false, fresh)))
  unfolding runner_end
  async_wait-Reach address l m =
      let (w, y) = wait_for-Reach run h k l m in
      (
        async_wait_lem s.pool t k (outcome run s k) e w ∙ ground arith,
        try_done s.pool (answered value) k e refl,
        async_try_wait_lem s.pool fresh k (outcome run s k) e (omega arith) y ∙ ground arith,
      )

  -- Of a task before the last 4096 that is not marked as done, `xt_async_try_wait` says that it is
  -- done, with the integer -1 for its result, and `xt_async_wait` answers null at once, whether the
  -- task has ended or still runs.
  pub async_try_wait-overtaken :
      k + 4096 < s.pool.counter
      → t.status ≢ 1
      → (async_try_wait s.pool t ≡ (true, answered (2 ^ 64 - 1)))
        × (signed (to_int (2 ^ 64 - 1)) ≡ negsuc 0)
        × (async_wait s.pool t ≡ some (0, answered 0))
  unfolding to_int
  async_try_wait-overtaken l n =
      let (w, y) = wait_for-overtaken run h k l in
      (async_try_wait_lem s.pool t k unknown e n y, refl, async_wait_lem s.pool t k unknown e w)
