-- ===== src/Pool/Work.antt =====
-- Rounds of one worker of `worker_loop`, with nobody else at work.
use atlanage.Prelude.{
  ℕ, zero, suc, ◌+◌, ◌-◌, ◌≡◌, ◌∙◌, ◌<◌, ◌≤◌, refl, true, false, ◌&&◌, [], none, some, arith, ltb,
  leb, ◌==◌, if◌then◌else◌, get_or,
}
use atlanage.Pool.{Task, blank, Pool, takes, take_task, take_next, finish}
use atlanage.Pool.System.{System, after_take, after_finish, Reach, begins, finishes, next}
use atlanage.Pool.Preserve.{oldest, Reach-IsValid}

module _ (run : ℕ → ℕ → ℕ) where
  abbrev pub result_of : Task → ℕ
  result_of t = elim t.func [ some f ↦ run f t.arg | none ↦ 0 ]

  -- One round: a task is taken, run and stored.
  unfoldable pub round : System → System
  round s = elim (take_next s.pool) [
    | takes t p ↦ after_finish (after_take s t p) t (result_of t) s.running
    | _ ↦ s
  ]

  unfoldable pub work : ℕ → System → System
  unfolding round
  work zero s = s
  work (suc n) s = work n (round s)

  -- What a round with a task in the queue does.
  pub record IsRound (s s' : System) : Type 0 where
    pub shut : s'.pool.is_shut ≡ false
    pub counter : s'.pool.counter ≡ s.pool.counter
    pub count : s'.pool.count ≡ s.pool.count - 1
    pub jobs : s'.jobs ≡ s.jobs
    pub ended :
        (k : ℕ) → s'.ended k ≡ (if k == s.pool.counter - s.pool.count then true else s.ended k)
    pub reach : Reach run s'

  round-takes :
      (s : System) (t : Task) (p : Pool)
      → take_next s.pool ≡ takes t p
      → round s ≡ after_finish (after_take s t p) t (result_of t) s.running
  unfolding round
  round-takes s t p e = rw (e, round) refl

  pub take_next-queued :
      (p : Pool)
      → p.is_shut ≡ false
      → 0 < p.count
      → take_next p ≡ takes (take_task p).0 (take_task p).1
  unfolding take_next take_task
  take_next-queued p sh c = ground (arith, sh, c)

  pub round_lem :
      (s : System) → Reach run s → s.pool.is_shut ≡ false → 0 < s.pool.count → IsRound s (round s)
  unfolding take_task finish
  round_lem s h sh c =
      let o = oldest run s (Reach-IsValid run h) c in
      let t : Task = get_or s.pool.tasks s.pool.head blank in
      let f : ℕ = (s.jobs (s.pool.counter - s.pool.count)).func in
      let e = take_next-queued s.pool sh c in
      let g : t.func ≡ some f = rw o refl in
      let r : result_of t ≡ run f t.arg = rw (g, result_of) refl in
      let p = (take_task s.pool).1 in
      rw (round-takes s t p e) record {
        shut = sh;
        counter = refl;
        count = refl;
        jobs = refl;
        ended = λ k. ground (arith, o);
        reach = rw r (next (next h (begins t p e)) (finishes [] s.running t f refl g));
      }

  -- What `n` rounds leave, when the queue has as many tasks.
  pub record IsWork (n : ℕ) (s s' : System) : Type 0 where
    pub counter : s'.pool.counter ≡ s.pool.counter
    pub count : s'.pool.count ≡ s.pool.count - n
    pub jobs : s'.jobs ≡ s.jobs
    pub ended :
        (k : ℕ)
        → s'.ended k ≡ (
            if leb s.pool.counter (k + s.pool.count) && ltb (k + s.pool.count) (s.pool.counter + n)
            then true
            else s.ended k)
    pub reach : Reach run s'

  pub work_lem :
      (n : ℕ) (s : System)
      → Reach run s
      → s.pool.is_shut ≡ false
      → n ≤ s.pool.count
      → IsWork n s (work n s)
  unfolding work
  work_lem zero s h sh c = record {
    counter = refl;
    count = omega arith;
    jobs = refl;
    ended = λ k. ground arith;
    reach = h;
  }
  work_lem (suc n) s h sh c =
      let r = round_lem s h sh (omega arith) in
      let w = work_lem n (round s) r.reach r.shut (omega (arith, r.count)) in
      let v = Reach-IsValid run h in
      record {
        counter = w.counter ∙ r.counter;
        count = omega (arith, w.count, r.count);
        jobs = w.jobs ∙ r.jobs;
        ended = λ k. ground (arith, w.ended k, r.ended k, r.counter, r.count, v.within);
        reach = w.reach;
      }
