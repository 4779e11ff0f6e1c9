-- ===== src/Pool/Valid.antt =====
-- The invariant of the pool and its surroundings, and that every step preserves it.
use atlanage.Prelude.{
  ℕ, ◌+◌, ◌-◌, ◌%◌, ◌≡◌, ◌<◌, ◌≤◌, refl, false, List, [], ◌∷◌, some, arith, ◌==◌, if◌then◌else◌,
  length, get_or, get_or-set, get_or-replicate, length-replicate,
}
use atlanage.Pool.{Task, blank, Pool, init, queued, queue_task, submit, Look, ready, pending}
use atlanage.Pool.Slots.{look_at}
use atlanage.Pool.System.{Job, System, start}

abbrev pub slot_of : System → ℕ → Task
slot_of s k = get_or s.pool.tasks (k % 4096) blank

-- Task `t` has left the queue, and it is the job of its id.
abbrev pub IsTaken : System → Task → Type 0
IsTaken s t =
    (t.id + s.pool.count < s.pool.counter)
    × (t.func ≡ some (s.jobs t.id).func)
    × (t.arg ≡ (s.jobs t.id).arg)

abbrev pub AreTaken : System → List Task → Type 0
AreTaken s [] = Unit {0}
AreTaken s (t ∷ ts) = IsTaken s t × AreTaken s ts

abbrev pub task_for : Job → ℕ → Task
task_for job k = record { func = some job.func; arg = job.arg; result = 0; done = false; id = k }

-- A submission that is queued has the next id.
pub submit_lem :
    (p p' : Pool) (f a id : ℕ)
    → submit p f a ≡ queued id p'
    → (p.count < 4096) × (p.is_shut ≡ false) × (id ≡ p.counter) × (p' ≡ queue_task p f a)
unfolding submit
submit_lem p p' f a id h = ground (arith, h)

module _ (run : ℕ → ℕ → ℕ) where
  -- What a look for the task `k` should find.
  abbrev pub outcome : System → ℕ → Look
  outcome s k = if s.ended k then ready (run (s.jobs k).func (s.jobs k).arg) else pending

  pub record IsValid (s : System) : Type 0 where
    pub slots : length s.pool.tasks ≡ 4096
    pub room : s.pool.count ≤ 4096
    pub within : s.pool.count ≤ s.pool.counter
    pub first : s.pool.head ≡ (s.pool.counter - s.pool.count) % 4096
    pub ids : (k : ℕ) → k < s.pool.counter → s.pool.counter ≤ k + 4096 → (slot_of s k).id ≡ k
    pub unused : (j : ℕ) → s.pool.counter ≤ j → get_or s.pool.tasks j blank ≡ blank
    pub waiting :
        (k : ℕ)
        → k < s.pool.counter
        → s.pool.counter ≤ k + s.pool.count
        → slot_of s k ≡ task_for (s.jobs k) k
    pub reports :
        (k : ℕ)
        → k < s.pool.counter
        → s.pool.counter ≤ k + 4096
        → look_at (slot_of s k) ≡ outcome s k
    pub open_tasks : (k : ℕ) → s.pool.counter ≤ k + s.pool.count → s.ended k ≡ false
    pub taken : AreTaken s s.running

  pub start-IsValid : IsValid start
  unfolding init
  start-IsValid = record {
    slots = length-replicate 4096 blank;
    room = omega arith;
    within = omega arith;
    first = refl;
    ids = λ k l. absurd (omega arith);
    unused = λ j h. get_or-replicate 4096 j blank;
    waiting = λ k l. absurd (omega arith);
    reports = λ k l. absurd (omega arith);
    open_tasks = λ k h. refl;
    taken = tt;
  }

  -- The slot that a submission fills is the one of its id.
  pub slot_after :
      (s : System) (job : Job)
      → IsValid s
      → (j : ℕ)
      → get_or (queue_task s.pool job.func job.arg).tasks j blank ≡ (
          if (s.pool.counter % 4096) == j
          then task_for job s.pool.counter
          else get_or s.pool.tasks j blank)
  unfolding queue_task
  slot_after s job v j =
      let e : (s.pool.head + s.pool.count) % 4096 ≡ s.pool.counter % 4096 =
        omega (arith, v.first, v.within) in
      rw e (
        get_or-set s.pool.tasks (s.pool.counter % 4096) j (task_for job s.pool.counter) blank
          (omega (arith, v.slots)))
