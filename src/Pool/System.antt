-- ===== src/Pool/System.antt =====
-- The pool with the clients and the workers around it: the tasks that run, the jobs that were
-- submitted and those that have ended. A job is a function and its argument; `run` is what the
-- functions compute.
use atlanage.Prelude.{
  ℕ, ◌≡◌, Bool, true, false, List, [], ◌∷◌, ◌++◌, some, ◌==◌, if◌then◌else◌, replicate,
}
use atlanage.Pool.{
  max_tasks, Task, blank, Pool, init, queued, submit, takes, take_next, finish, shut_down,
}

pub record Job : Type 0 where
  pub func : ℕ
  pub arg : ℕ

pub record System : Type 0 where
  pub pool : Pool
  pub running : List Task
  pub jobs : ℕ → Job
  pub ended : ℕ → Bool

abbrev pub start : System
start = record {
  pool = init (replicate max_tasks blank);
  running = [];
  jobs = λ k. record { func = 0; arg = 0 };
  ended = λ k. false;
}

abbrev pub after_submit : System → Job → ℕ → Pool → System
after_submit s job id p = record s { pool = p; jobs = λ k. if k == id then job else s.jobs k }

abbrev pub after_take : System → Task → Pool → System
after_take s t p = record s { pool = p; running = t ∷ s.running }

abbrev pub after_finish : System → Task → ℕ → List Task → System
after_finish s t result rest = record s {
  pool = finish s.pool t result;
  running = rest;
  ended = λ k. if k == t.id then true else s.ended k;
}

module _ (run : ℕ → ℕ → ℕ) where
  -- The end of a run stores what the function computes.
  pub data Step (s : System) : System → Type 0 where
    submits :
        (job : Job) (id : ℕ) (p : Pool)
        → submit s.pool job.func job.arg ≡ queued id p
        → Step s (after_submit s job id p)
    begins : (t : Task) (p : Pool) → take_next s.pool ≡ takes t p → Step s (after_take s t p)
    finishes :
        (before after : List Task) (t : Task) (f : ℕ)
        → s.running ≡ before ++ (t ∷ after)
        → t.func ≡ some f
        → Step s (after_finish s t (run f t.arg) (before ++ after))
    shuts : Step s (record s { pool = shut_down s.pool })

  pub data Reach : System → Type 0 where
    at_start : Reach start
    next : {s s' : System} → Reach s → Step s s' → Reach s'
