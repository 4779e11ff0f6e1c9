-- ===== src/Pool/Samples.antt =====
-- States of the pool that can be reached: one job is in the queue, or many have been served.
use atlanage.Prelude.{ℕ, zero, suc, ◌*◌, ◌≡◌, refl, false, arith}
use atlanage.Pool.{queue_task, submit, init}
use atlanage.Pool.System.{Job, System, start, after_submit, Reach, at_start, next, submits}
use atlanage.Pool.Work.{round, round_lem}

abbrev pub run : ℕ → ℕ → ℕ
run f a = f * a

abbrev pub job : Job
job = record { func = 6; arg = 7 }

abbrev pub submit_one : System → System
submit_one s = after_submit s job s.pool.counter (queue_task s.pool 6 7)

-- `n` clients submit the job, each when the one before is served.
unfoldable pub serve : ℕ → System
unfolding round
serve zero = start
serve (suc n) = round run (submit_one (serve n))

pub record IsServed (n : ℕ) (s : System) : Type 0 where
  pub shut : s.pool.is_shut ≡ false
  pub count : s.pool.count ≡ 0
  pub counter : s.pool.counter ≡ n
  pub reach : Reach run s

pub submit_one-Reach :
    (s : System)
    → Reach run s
    → s.pool.is_shut ≡ false
    → s.pool.count ≡ 0
    → Reach run (submit_one s)
unfolding submit queue_task
submit_one-Reach s h o c =
    next h (submits job s.pool.counter (queue_task s.pool 6 7) (ground (arith, o, c)))

pub serve-IsServed : (n : ℕ) → IsServed n (serve n)
unfolding serve queue_task init
serve-IsServed zero = record { shut = refl; count = refl; counter = refl; reach = at_start }
serve-IsServed (suc n) =
    let i = serve-IsServed n in
    let s : System = submit_one (serve n) in
    let h = submit_one-Reach (serve n) i.reach i.shut i.count in
    let r = round_lem run s h i.shut (omega arith) in
    record {
      shut = r.shut;
      count = omega (arith, r.count, i.count);
      counter = omega (arith, r.counter, i.counter);
      reach = r.reach;
    }

abbrev pub one : System
one = submit_one start

pub one-Reach : Reach run one
unfolding init
one-Reach = submit_one-Reach start at_start refl refl
