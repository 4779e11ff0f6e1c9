-- ===== src/Scheduler/Results.antt =====
-- The results of the fibers, and the stack of the fibers that are free: `xt_fiber_set_result`,
-- `_xt_fiber_recycle`, and what `xt_async_wait`, `xt_async_try_wait` and `xt_task_result` do with a
-- fiber. Each returns the calls of `xt_retain` and `xt_release` that it makes.
use atlanage.Prelude.{
  ℕ, Bool, true, false, not, ◌||◌, List, [], ◌∷◌, none, some, leb, ◌==◌, if◌then◌else◌, length,
}
use atlanage.Effect.{Effect, retain, release}
use atlanage.Scheduler.{Status, ready, waiting, sleeping, done, Scheduler, fiber, set_fiber}

abbrev pub is_done : Status → Bool
is_done ready = false
is_done waiting = false
is_done sleeping = false
is_done done = true

abbrev pub release_non_null : ℕ → List Effect
release_non_null v = if v == 0 then [] else release v ∷ []

-- `xt_fiber_set_result`
unfoldable pub set_result : Scheduler → ℕ → Scheduler × List Effect
set_result s v = elim (s.current) [
  | none ↦ (s, [])
  | some i ↦
      (set_fiber s i (record (fiber s i) { result = v }), release_non_null (fiber s i).result)
]

-- `_xt_fiber_recycle` stops at these.
abbrev pub is_kept : Scheduler → ℕ → Bool
is_kept s i =
    leb (length s.fibers) i
    || (not (is_done (fiber s i).status)
        || (not (fiber s i).result_consumed || (fiber s i).in_free_list))

-- `_xt_fiber_recycle`
unfoldable pub recycle : Scheduler → ℕ → Scheduler × List Effect
recycle s i =
    let f = fiber s i in
    if is_kept s i then (s, []) else (
      record (set_fiber s i (record f { result = 0; in_free_list = true })) {
        free_ids = i ∷ s.free_ids;
      },
      release_non_null f.result,
    )

-- The end of `xt_async_wait` for a fiber, when it no longer waits for it.
unfoldable pub take_result : Scheduler → ℕ → ℕ × Scheduler × List Effect
unfolding recycle
take_result s i =
    let taken = set_fiber s i (record (fiber s i) { result = 0; result_consumed = true }) in
    let (s', es) = recycle taken i in ((fiber s i).result, s', es)

-- `xt_async_try_wait` for a fiber
unfoldable pub try_result : Scheduler → ℕ → Bool
try_result s i = leb (length s.fibers) i || is_done (fiber s i).status

-- `xt_task_result` for a fiber
unfoldable pub read_result : Scheduler → ℕ → ℕ × Scheduler × List Effect
unfolding recycle
read_result s i =
    let r = (fiber s i).result in
    let read = set_fiber s i (record (fiber s i) { result_consumed = true }) in
    let (s', es) = recycle read i in
    if leb (length s.fibers) i then (0, s, []) else (r, s', retain r ∷ es)
