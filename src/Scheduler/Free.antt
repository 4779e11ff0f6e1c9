-- ===== src/Scheduler/Free.antt =====
-- A fiber is handed out again only when it is done and its result has been taken.
use atlanage.Prelude.{
  ℕ, zero, suc, ◌+◌, ◌≡◌, ◌∙◌, ◌≤◌, ◌<◌, ◌⊎◌, inl, inr, refl, sym, ap, true, List, [], ◌∷◌, ◌++◌,
  none, some, arith, leb, ◌==◌, if◌then◌else◌, length, length-set, length-append, get_or,
  get_or-set, get_or-set_any, Bool-cases, Option-cases,
}
use atlanage.Scheduler.{
  Scheduler, Status, ready, waiting, sleeping, done, Fiber, blank, fiber, set_fiber, enqueue, spawn,
  max_fibers,
}
use atlanage.Scheduler.Link.{unlinked, unlinked-enqueue, length-enqueue}
use atlanage.Scheduler.Timers.{occurs}
use atlanage.Scheduler.Results.{is_done, is_kept, recycle}

-- The stack of free indices holds no index twice, and only those of fibers that are done, that are
-- marked as free, and whose result has been taken.
pub record HasFree (s : Scheduler) : Type 0 where
  pub inside : (i : ℕ) → 0 < occurs i s.free_ids → i < length s.fibers
  pub over : (i : ℕ) → 0 < occurs i s.free_ids → (fiber s i).status ≡ done
  pub consumed : (i : ℕ) → 0 < occurs i s.free_ids → (fiber s i).result_consumed ≡ true
  pub marked : (i : ℕ) → 0 < occurs i s.free_ids → (fiber s i).in_free_list ≡ true
  pub once : (i : ℕ) → occurs i s.free_ids ≤ 1

is_done→done : (st : Status) → is_done st ≡ true → st ≡ done
is_done→done ready h = cc
is_done→done waiting h = cc
is_done→done sleeping h = cc
is_done→done done h = refl

pub recycle-HasFree : (s : Scheduler) (i : ℕ) → HasFree s → HasFree (recycle s i).0
unfolding recycle occurs
recycle-HasFree s i h = elim (Bool-cases (is_kept s i)) [
  | inl e ↦ rw e h
  | inr e ↦
      let f : Fiber = record (fiber s i) { result = 0; in_free_list = true } in
      let l : i < length s.fibers = ground (arith, e) in
      let d : (fiber s i).status ≡ done = is_done→done (fiber s i).status (ground (arith, e)) in
      let g = λ (j : ℕ). get_or-set s.fibers i j f blank l in
      rw e record {
        inside = λ j p. ground (arith, h.inside j, length-set s.fibers i f, l);
        over = λ j p. ground (arith, h.over j, g j, d);
        consumed = λ j p. ground (arith, h.consumed j, g j, e);
        marked = λ j p. ground (arith, h.marked j, g j);
        once = λ j. ground (arith, h.once j, h.marked j, e);
      }
]

some_injective : {a b : ℕ} → some a ≡ some b → a ≡ b
some_injective e = cc

none-ne-some : {b : ℕ} → (none ≡ some b) → ⊥
none-ne-some e = cc

list_cases : (l : List ℕ) → (l ≡ []) ⊎ ((i : ℕ) × (ids : List ℕ) × (l ≡ i ∷ ids))
list_cases [] = inl refl
list_cases (i ∷ ids) = inr (i, ids, refl)

free_ids-enqueue : (s : Scheduler) (i : ℕ) → (enqueue s i).free_ids ≡ s.free_ids
unfolding enqueue
free_ids-enqueue s i = elim (Option-cases (s.ready_tail)) [
  | inl e ↦ rw e refl
  | inr (t, e) ↦ rw e refl
]

enqueue-HasFree : (s : Scheduler) (i : ℕ) → HasFree s → HasFree (enqueue s i)
enqueue-HasFree s i h =
    let g = free_ids-enqueue s i in
    record {
      inside = λ j p. rw (length-enqueue s i) (h.inside j (rw g at p));
      over = λ j p. ap (λ (f : Fiber). f.status) (unlinked-enqueue s i j) ∙ h.over j (rw g at p);
      consumed = λ j p.
          ap (λ (f : Fiber). f.result_consumed) (unlinked-enqueue s i j) ∙ h.consumed j (rw g at p);
      marked = λ j p.
          ap (λ (f : Fiber). f.in_free_list) (unlinked-enqueue s i j) ∙ h.marked j (rw g at p);
      once = λ j. rw g (h.once j);
    }

get-snoc : (a : List Fiber) (j : ℕ) → get_or (a ++ blank ∷ []) j blank ≡ get_or a j blank
get-snoc [] zero = refl
get-snoc [] (suc j) = refl
get-snoc (f ∷ a) zero = refl
get-snoc (f ∷ a) (suc j) = get-snoc a j

-- Behind the fibers, all read as blank.
get-behind : (a : List Fiber) (j : ℕ) → length a ≤ j → get_or a j blank ≡ blank
get-behind [] j h = refl
get-behind (f ∷ a) zero h = absurd (omega arith)
get-behind (f ∷ a) (suc j) h = get-behind a j (omega arith)

-- What `spawn` hands out, and what it leaves.
pub record IsSpawned (s : Scheduler) (i : ℕ) (s' : Scheduler) : Type 0 where
  pub free : HasFree s'
  pub taken : occurs i s'.free_ids ≡ 0
  pub unused :
      (i ≡ length s.fibers) ⊎ (((fiber s i).status ≡ done) × ((fiber s i).result_consumed ≡ true))
  pub fibers : (j : ℕ) → unlinked (fiber s' j) ≡ (if i == j then blank else unlinked (fiber s j))

module _ (s : Scheduler) (h : HasFree s) where
  reused-HasFree :
      (i : ℕ) (ids : List ℕ)
      → s.free_ids ≡ i ∷ ids
      → HasFree (set_fiber (record s { free_ids = ids }) i blank)
  unfolding occurs
  reused-HasFree i ids e =
      let m : (j : ℕ) → occurs j s.free_ids ≡ (if j == i then 1 else 0) + occurs j ids =
        λ j. ap (occurs j) e in
      let l = length-set s.fibers i blank in
      let g = λ (j : ℕ). get_or-set_any s.fibers i j blank blank in
      record {
        inside = λ j p. omega (arith, l, h.inside j, m j);
        over = λ j p. ground (arith, h.over j, h.once j, m j, g j, p);
        consumed = λ j p. ground (arith, h.consumed j, h.once j, m j, g j, p);
        marked = λ j p. ground (arith, h.marked j, h.once j, m j, g j, p);
        once = λ j. omega (arith, h.once j, m j);
      }

  grown-HasFree : HasFree (record s { fibers = s.fibers ++ blank ∷ [] })
  grown-HasFree = record {
    inside = λ j p. omega (arith, length-append s.fibers (blank ∷ []), h.inside j p);
    over = λ j p. rw (get-snoc s.fibers j) (h.over j p);
    consumed = λ j p. rw (get-snoc s.fibers j) (h.consumed j p);
    marked = λ j p. rw (get-snoc s.fibers j) (h.marked j p);
    once = h.once;
  }

  reused-IsSpawned :
      (i : ℕ) (ids : List ℕ)
      → s.free_ids ≡ i ∷ ids
      → IsSpawned s i (enqueue (set_fiber (record s { free_ids = ids }) i blank) i)
  unfolding occurs
  reused-IsSpawned i ids e =
      let s1 = set_fiber (record s { free_ids = ids }) i blank in
      let m = ap (occurs i) e in
      let p : 0 < occurs i s.free_ids = ground (arith, m) in
      record {
        free = enqueue-HasFree s1 i (reused-HasFree i ids e);
        taken = rw (free_ids-enqueue s1 i) (ground (arith, m, h.once i));
        unused = inr (h.over i p, h.consumed i p);
        fibers = λ j.
            unlinked-enqueue s1 i j
            ∙ ground (arith, get_or-set s.fibers i j blank blank (h.inside i p));
      }

  grown-IsSpawned :
      let n = length s.fibers in
      IsSpawned s n (enqueue (record s { fibers = s.fibers ++ blank ∷ [] }) n)
  grown-IsSpawned =
      let n = length s.fibers in
      let s1 : Scheduler = record s { fibers = s.fibers ++ blank ∷ [] } in
      record {
        free = enqueue-HasFree s1 n grown-HasFree;
        taken = rw (free_ids-enqueue s1 n) (ground (arith, h.inside n));
        unused = inl refl;
        fibers = λ j.
            unlinked-enqueue s1 n j
            ∙ ap unlinked (get-snoc s.fibers j)
            ∙ ground (arith, get-behind s.fibers j);
      }

  spawn_reused :
      (k : ℕ) (ids : List ℕ)
      → s.free_ids ≡ k ∷ ids
      → spawn s ≡ (some k, enqueue (set_fiber (record s { free_ids = ids }) k blank) k)
  unfolding spawn
  spawn_reused k ids f = rw (f, spawn) refl

  spawn_grown :
      s.free_ids ≡ []
      → let n = length s.fibers in
        spawn s ≡ (
          if leb max_fibers n
          then (none, s)
          else (some n, enqueue (record s { fibers = s.fibers ++ blank ∷ [] }) n))
  unfolding spawn
  spawn_grown f = ground (arith, f)

  -- `xt_scheduler_spawn` hands out a fiber that was never in use, or one that is done and whose
  -- result has been taken; it is blank but for its link, no longer among the free ones, and no other
  -- fiber changes but for its link. The stack of the free fibers stays as it should be.
  pub spawn-IsSpawned : (i : ℕ) → (spawn s).0 ≡ some i → IsSpawned s i (spawn s).1
  spawn-IsSpawned i e = elim (list_cases (s.free_ids)) [
    | inr (k, ids, f) ↦
        let g = spawn_reused k ids f in
        let m : k ≡ i = some_injective (rw g at e) in rw (g, sym m) (reused-IsSpawned k ids f)
    | inl f ↦
        let n = length s.fibers in
        let g = spawn_grown f in
        elim (Bool-cases (leb max_fibers n)) [
          | inl b ↦ absurd (none-ne-some (rw b at (rw g at e)))
          | inr b ↦
              let m : n ≡ i = some_injective (rw b at (rw g at e)) in
              rw (g, b, sym m) grown-IsSpawned
        ]
  ]
