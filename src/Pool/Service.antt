-- ===== src/Pool/Service.antt =====
-- What the pool promises to its clients in every state that can be reached.
use atlanage.Prelude.{ℕ, ◌+◌, ◌≡◌, ◌∙◌, ◌<◌, ◌≤◌, refl, sym, true, false, some, arith}
use atlanage.Pool.{
  Task, Pool, takes, take_next, wait_for, try_wait, ready, unknown, pending_count, take_task,
}
use atlanage.Pool.System.{Job, System, Reach}
use atlanage.Pool.Valid.{outcome}
use atlanage.Pool.Find.{wait_for-outcome, wait_for-old}
use atlanage.Pool.Preserve.{Reach-IsValid, take_lem, oldest}
use atlanage.Pool.Work.{work, work_lem}

outcome_lem :
    (run : ℕ → ℕ → ℕ) (s : System) (jobs : ℕ → Job) (k : ℕ)
    → s.ended k ≡ true
    → s.jobs ≡ jobs
    → outcome run s k ≡ ready (run (jobs k).func (jobs k).arg)
outcome_lem run s jobs k e j = rw (sym j, e) refl

module _ (run : ℕ → ℕ → ℕ) {s : System} (h : Reach run s) where
  -- Of the last 4096 tasks that were submitted, `wait_for` and `try_wait` report the same: while
  -- the task has not ended, that it is pending, and from then on what its own function computes
  -- from its own argument, whichever submissions, runs and shutdowns came between.
  pub wait_for-Reach :
      (k : ℕ)
      → k < s.pool.counter
      → s.pool.counter ≤ k + 4096
      → (wait_for s.pool k ≡ outcome run s k) × (try_wait s.pool k ≡ outcome run s k)
  wait_for-Reach = wait_for-outcome run s (Reach-IsValid run h)

  -- Of a task before the last 4096, `wait_for` and `try_wait` report that it is unknown, whether
  -- it has ended or not: its slot is taken by a later task.
  pub wait_for-overtaken :
      (k : ℕ)
      → k + 4096 < s.pool.counter
      → (wait_for s.pool k ≡ unknown) × (try_wait s.pool k ≡ unknown)
  wait_for-overtaken = wait_for-old run s (Reach-IsValid run h)

  -- Tasks are taken in the order of their submission: the task that a worker takes is the one
  -- after all that were taken before, with the function and the argument of its submission, and
  -- the next look takes the one behind it.
  pub take_next-Reach :
      (t : Task) (p : Pool)
      → take_next s.pool ≡ takes t p
      → (t.id + s.pool.count ≡ s.pool.counter)
        × (t.func ≡ some (s.jobs t.id).func)
        × (t.arg ≡ (s.jobs t.id).arg)
        × (t.id + 1 + p.count ≡ p.counter)
  unfolding take_task
  take_next-Reach t p e =
      let v = Reach-IsValid run h in
      let (c, n, i, q) = take_lem run s v t p e in
      let o = i ∙ oldest run s v c in ground (arith, o, q, v.within)

  -- As many rounds of a worker as there are tasks in the queue of an open pool empty it, and each
  -- of these tasks `k` has the result of its own function on its own argument for `wait_for`.
  pub work-Reach :
      (k : ℕ)
      → s.pool.is_shut ≡ false
      → k < s.pool.counter
      → s.pool.counter ≤ k + s.pool.count
      → (pending_count (work run s.pool.count s).pool ≡ 0)
        × (wait_for (work run s.pool.count s).pool k ≡ ready (run (s.jobs k).func (s.jobs k).arg))
  unfolding pending_count
  work-Reach k o l m =
      let n : ℕ = s.pool.count in
      let s' : System = work run n s in
      let v = Reach-IsValid run h in
      let w = work_lem run n s h o (omega arith) in
      let r = wait_for-outcome run s' (Reach-IsValid run w.reach) k (omega (arith, w.counter)) in
      let x = (r (omega (arith, w.counter, v.room))).0 in
      (omega (arith, w.count), x ∙ outcome_lem run s' s.jobs k (ground (arith, w.ended k)) w.jobs)
