-- ===== src/Pool/Find.antt =====
-- In a valid pool, the slot of a task is the one that the loops over the slots find.
use atlanage.Prelude.{ℕ, ◌+◌, ◌-◌, ◌%◌, ◌≡◌, ◌∙◌, ◌<◌, ◌≤◌, arith, get_or, dec_lt, ap}
use atlanage.Pool.{Task, blank, wait_for, try_wait, unknown}
use atlanage.Pool.Slots.{
  IsSlot, IsGone, wait_look_lem, try_look_lem, wait_look-IsGone, try_look-IsGone,
}
use atlanage.Pool.System.{System}
use atlanage.Pool.Valid.{IsValid, outcome}

module _ (run : ℕ → ℕ → ℕ) (s : System) (v : IsValid run s) where
  -- A slot that was filled has the last id that falls into it.
  id_in :
      (j : ℕ)
      → j < 4096
      → j < s.pool.counter
      → (get_or s.pool.tasks j blank).id ≡ s.pool.counter - 1 - (s.pool.counter - 1 - j) % 4096
  id_in j l h =
      let k : ℕ = s.pool.counter - 1 - (s.pool.counter - 1 - j) % 4096 in
      let e : k % 4096 ≡ j = omega arith in
      omega (
        arith,
        ap (λ (i : ℕ). (get_or s.pool.tasks i blank).id) e,
        v.ids k (omega arith) (omega arith),
      )

  pub window-IsSlot :
      (k : ℕ) → k < s.pool.counter → s.pool.counter ≤ k + 4096 → IsSlot k s.pool.tasks (k % 4096)
  window-IsSlot k l h = record {
    inside = omega (arith, v.slots);
    here = v.ids k l h;
    earlier = λ j i. elim (dec_lt j s.pool.counter) [
      | yes p ↦ omega (arith, id_in j (omega arith) p)
      | no p ↦ omega (arith, ap (λ (t : Task). t.id) (v.unused j (omega arith)))
    ];
    later = λ j i m e. elim (dec_lt j s.pool.counter) [
      | yes p ↦ absurd (omega (arith, v.slots, id_in j (omega (arith, v.slots)) p))
      | no p ↦ ap (λ (t : Task). t.done) (v.unused j (omega arith))
    ];
  }

  pub old-IsGone : (k : ℕ) → k + 4096 < s.pool.counter → IsGone k s.pool.tasks
  old-IsGone k h j l =
      omega (arith, v.slots, id_in j (omega (arith, v.slots)) (omega (arith, v.slots)))

  pub wait_for-outcome :
      (k : ℕ)
      → k < s.pool.counter
      → s.pool.counter ≤ k + 4096
      → (wait_for s.pool k ≡ outcome run s k) × (try_wait s.pool k ≡ outcome run s k)
  unfolding wait_for try_wait
  wait_for-outcome k l h =
      let i = window-IsSlot k l h in
      (
        wait_look_lem k s.pool.tasks (k % 4096) i ∙ v.reports k l h,
        try_look_lem k s.pool.tasks (k % 4096) i ∙ v.reports k l h,
      )

  pub wait_for-old :
      (k : ℕ)
      → k + 4096 < s.pool.counter
      → (wait_for s.pool k ≡ unknown) × (try_wait s.pool k ≡ unknown)
  unfolding wait_for try_wait
  wait_for-old k h = (
    wait_look-IsGone k s.pool.tasks (old-IsGone k h),
    try_look-IsGone k s.pool.tasks (old-IsGone k h),
  )
