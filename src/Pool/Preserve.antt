-- ===== src/Pool/Preserve.antt =====
-- Every step of the pool and its surroundings preserves the invariant.
use atlanage.Prelude.{
  ℕ, ◌+◌, ◌-◌, ◌%◌, ◌≡◌, ◌<◌, ◌≤◌, refl, true, false, List, [], ◌∷◌, ◌++◌, some, arith, ◌==◌,
  if◌then◌else◌, get_or, get_or-set, length-set, dec_lt, sym,
}
use atlanage.Pool.{
  Task, blank, Pool, queue_task, takes, take_task, take_next, no_func, store, finish, shut_down,
}
use atlanage.Pool.Slots.{store-set, store-IsGone, length-store}
use atlanage.Pool.Find.{window-IsSlot, old-IsGone}
use atlanage.Pool.System.{
  Job, System, after_submit, after_take, after_finish, Step, submits, begins, finishes, shuts,
  Reach, at_start, next,
}
use atlanage.Pool.Valid.{
  slot_of, IsTaken, AreTaken, task_for, IsValid, start-IsValid, submit_lem, slot_after,
}

-- A task that was taken stays so when the queue moves on.
AreTaken-later :
    (s s' : System)
    → s.pool.counter - s.pool.count ≤ s'.pool.counter - s'.pool.count
    → s'.pool.count ≤ s'.pool.counter
    → ((k : ℕ) → k < s.pool.counter → s'.jobs k ≡ s.jobs k)
    → (ts : List Task) → AreTaken s ts
    → AreTaken s' ts
AreTaken-later s s' h w e [] a = tt
AreTaken-later s s' h w e (t ∷ ts) ((b, f, g), r) =
    let j = e t.id (omega arith) in ((omega arith, rw j f, rw j g), AreTaken-later s s' h w e ts r)

AreTaken-append :
    (s : System) (ts : List Task) (t : Task) (us : List Task)
    → AreTaken s (ts ++ (t ∷ us))
    → IsTaken s t × AreTaken s (ts ++ us)
AreTaken-append s [] t us h = h
AreTaken-append s (a ∷ ts) t us (h, hs) = let (x, y) = AreTaken-append s ts t us hs in (x, (h, y))

module _ (run : ℕ → ℕ → ℕ) where
  submit-IsValid :
      (s : System) (job : Job)
      → IsValid run s
      → s.pool.count < 4096
      → IsValid run (after_submit s job s.pool.counter (queue_task s.pool job.func job.arg))
  unfolding queue_task
  submit-IsValid s job v c =
      let at = slot_after run s job v in
      record {
        slots =
            rw
              (length-set s.pool.tasks ((s.pool.head + s.pool.count) % 4096)
                (task_for job s.pool.counter))
              v.slots;
        room = omega arith;
        within = omega (arith, v.within);
        first = omega (arith, v.first, v.within);
        ids = λ k l h. ground (arith, at (k % 4096), v.ids k);
        unused = λ j h. ground (arith, at j, v.unused j);
        waiting = λ k l h. ground (arith, at (k % 4096), v.waiting k);
        reports = λ k l h. ground (arith, at (k % 4096), v.reports k, v.open_tasks k);
        open_tasks = λ k h. v.open_tasks k (omega arith);
        taken =
            AreTaken-later s
              (after_submit s job s.pool.counter (queue_task s.pool job.func job.arg)) (omega arith)
              (omega (arith, v.within)) (λ k l. ground arith) s.running v.taken;
      }

  module _ (s : System) (v : IsValid run s) where
    -- The task that a worker takes is the oldest in the queue.
    pub oldest :
        0 < s.pool.count
        → get_or s.pool.tasks s.pool.head blank
          ≡ task_for (s.jobs (s.pool.counter - s.pool.count)) (s.pool.counter - s.pool.count)
    oldest c = rw v.first (
        v.waiting (s.pool.counter - s.pool.count) (omega (arith, v.within))
          (omega (arith, v.within)))

    pub take_lem :
        (t : Task) (p : Pool)
        → take_next s.pool ≡ takes t p
        → (0 < s.pool.count)
          × (s.pool.is_shut ≡ false)
          × (t ≡ get_or s.pool.tasks s.pool.head blank)
          × (p ≡ (take_task s.pool).1)
    unfolding take_next take_task
    take_lem t p h = ground (arith, h)

    take-at :
        (j : ℕ)
        → get_or (take_task s.pool).1.tasks j blank ≡ (
            if s.pool.head == j
            then no_func (get_or s.pool.tasks s.pool.head blank)
            else get_or s.pool.tasks j blank)
    unfolding take_task
    take-at j =
        get_or-set s.pool.tasks s.pool.head j (no_func (get_or s.pool.tasks s.pool.head blank))
          blank (omega (arith, v.first, v.slots))

    take-IsValid :
        0 < s.pool.count
        → IsValid run (after_take s (get_or s.pool.tasks s.pool.head blank) (take_task s.pool).1)
    unfolding take_task
    take-IsValid c =
        let o = oldest c in
        record {
          slots =
              rw
                (length-set s.pool.tasks s.pool.head
                  (no_func (get_or s.pool.tasks s.pool.head blank)))
                v.slots;
          room = omega (arith, v.room);
          within = omega (arith, v.within);
          first = omega (arith, v.first, v.within);
          ids = λ k l h. ground (arith, take-at (k % 4096), v.ids k);
          unused = λ j h. ground (arith, take-at j, v.unused j, v.first, v.within);
          waiting =
              λ k l h. ground (arith, take-at (k % 4096), v.waiting k, v.first, v.within, v.room);
          reports = λ k l h. ground (arith, take-at (k % 4096), v.reports k);
          open_tasks = λ k h. v.open_tasks k (omega arith);
          taken = (
            ground (arith, o, v.within),
            AreTaken-later s
                (after_take s (get_or s.pool.tasks s.pool.head blank) (take_task s.pool).1)
                (omega arith) (omega (arith, v.within)) (λ k l. refl) s.running v.taken,
          );
        }

    -- A late result, for a task whose slot is taken again, is dropped.
    finish-at :
        (t : Task) (r : ℕ)
        → IsTaken s t
        → (k : ℕ) → k < s.pool.counter
        → s.pool.counter ≤ k + 4096
        → get_or (store t.id r s.pool.tasks) (k % 4096) blank
          ≡ (if k == t.id then record (slot_of s k) { result = r; done = true } else slot_of s k)
    finish-at t r (b, f, g) k l h = elim (dec_lt (t.id + 4096) s.pool.counter) [
      | yes p ↦
          rw (store-IsGone t.id r s.pool.tasks (old-IsGone run s v t.id p)) (ground (arith, p))
      | no p ↦
          rw
            (store-set t.id r s.pool.tasks (t.id % 4096)
              (window-IsSlot run s v t.id (omega arith) (omega arith)))
            (ground (
              arith,
              p,
              get_or-set s.pool.tasks (t.id % 4096) (k % 4096)
                  (record (slot_of s t.id) { result = r; done = true }) blank
                  (omega (arith, v.slots)),
            ))
    ]

    finish-unused :
        (t : Task) (r : ℕ)
        → IsTaken s t
        → (j : ℕ) → s.pool.counter ≤ j
        → get_or (store t.id r s.pool.tasks) j blank ≡ blank
    finish-unused t r (b, f, g) j h = elim (dec_lt (t.id + 4096) s.pool.counter) [
      | yes p ↦ rw (store-IsGone t.id r s.pool.tasks (old-IsGone run s v t.id p)) (v.unused j h)
      | no p ↦
          rw
            (store-set t.id r s.pool.tasks (t.id % 4096)
              (window-IsSlot run s v t.id (omega arith) (omega arith)))
            (ground (
              arith,
              b,
              h,
              v.unused j,
              get_or-set s.pool.tasks (t.id % 4096) j
                  (record (slot_of s t.id) { result = r; done = true }) blank
                  (omega (arith, v.slots)),
            ))
    ]

    finish-IsValid :
        (before after : List Task) (t : Task) (f : ℕ)
        → s.running ≡ before ++ (t ∷ after)
        → t.func ≡ some f
        → IsValid run (after_finish s t (run f t.arg) (before ++ after))
    unfolding finish
    finish-IsValid before after t f e g =
        let (b, rest) = AreTaken-append s before t after (rw (sym e) v.taken) in
        let (b0, b1, b2) = b in
        let r : ℕ = run f t.arg in
        let at = finish-at t r b in
        record {
          slots = rw (length-store t.id r s.pool.tasks) v.slots;
          room = v.room;
          within = v.within;
          first = v.first;
          ids = λ k l h. ground (arith, at k, v.ids k);
          unused = finish-unused t r b;
          waiting = λ k l h. ground (arith, at k, v.waiting k, b0, v.room);
          reports = λ k l h. ground (arith, at k, v.reports k, b1, b2, g);
          open_tasks = λ k h. ground (arith, v.open_tasks k, b0);
          taken =
              AreTaken-later s (after_finish s t r (before ++ after)) (omega arith) v.within
                (λ k l. refl) (before ++ after) rest;
        }

  shut_down-IsValid :
      (s : System) → IsValid run s → IsValid run (record s { pool = shut_down s.pool })
  unfolding shut_down
  shut_down-IsValid s v = record {
    slots = v.slots;
    room = v.room;
    within = v.within;
    first = v.first;
    ids = v.ids;
    unused = v.unused;
    waiting = v.waiting;
    reports = v.reports;
    open_tasks = v.open_tasks;
    taken =
        AreTaken-later s (record s { pool = shut_down s.pool }) (omega arith) v.within (λ k l. refl)
          s.running v.taken;
  }

  pub Step-IsValid : {s s' : System} → IsValid run s → Step run s s' → IsValid run s'
  Step-IsValid {s} v (submits job id p h) =
      let (c, n, i, e) = submit_lem s.pool p job.func job.arg id h in
      rw (i, e) (submit-IsValid s job v c)
  Step-IsValid {s} v (begins t p h) =
      let (c, n, i, e) = take_lem s v t p h in rw (i, e) (take-IsValid s v c)
  Step-IsValid {s} v (finishes before after t f e g) = finish-IsValid s v before after t f e g
  Step-IsValid {s} v shuts = shut_down-IsValid s v

  pub Reach-IsValid : {s : System} → Reach run s → IsValid run s
  Reach-IsValid at_start = start-IsValid run
  Reach-IsValid (next h w) = Step-IsValid (Reach-IsValid h) w
