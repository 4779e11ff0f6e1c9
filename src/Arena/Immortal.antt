-- ===== src/Arena/Immortal.antt =====
-- Objects in an arena outlive their references: the counting of Heap leaves them alone.
use atlanage.Prelude.{
  ℕ, suc, ◌≡◌, refl, sym, ap, true, Option, none, some, Option-cases, Bool-cases, inl, inr, arith,
  leb,
}
use atlanage.Word.{is_real_ptr}
use atlanage.Heap.{Body, Heap, object_at, release, retain_value, immortal}
use atlanage.Arena.{Arena, alloc_raw}
use atlanage.Arena.Current.{Current, Header, Place, arena_alloc, xt_malloc}

abbrev count_of : Option (Current × Place × Header) → ℕ
count_of none = 0
count_of (some (current, place, header)) = header.ref_count

-- The count that `xt_malloc` gives under a current arena.
count_lem :
    (memory fresh : Option ℕ) (name : ℕ) (arena : Arena) (size type_id : ℕ) (current : Current)
    (place : Place) (header : Header)
    → xt_malloc memory fresh (some (name, arena)) size type_id ≡ some (current, place, header)
    → header.ref_count ≡ immortal
unfolding xt_malloc arena_alloc
count_lem memory fresh name arena size type_id current place header e =
    elim (Option-cases (alloc_raw fresh arena size)) [
      | inl n ↦ absurd (cc (rw n at e))
      | inr (r, s) ↦ sym (ap count_of (rw s at e))
    ]

-- An object that `xt_malloc` makes under a current arena is left alone by `xt_retain` and
-- `xt_release`, however often they are called: its memory is freed only with the arena.
pub xt_malloc-release :
    (memory fresh : Option ℕ) (name : ℕ) (arena : Arena) (size type_id : ℕ) (current : Current)
    (place : Place) (header : Header) (v : ℕ) (body : Body) (h : Heap) (fuel : ℕ)
    → xt_malloc memory fresh (some (name, arena)) size type_id ≡ some (current, place, header)
    → object_at v h ≡ some (record { ref_count = header.ref_count; body = body })
    → (retain_value v h ≡ some h) × (release (suc fuel) v h ≡ some h)
unfolding release retain_value
xt_malloc-release memory fresh name arena size type_id current place header v body h fuel e at =
    let c = count_lem memory fresh name arena size type_id current place header e in
    let big : leb immortal header.ref_count ≡ true = ground (arith, c) in
    elim (Bool-cases (is_real_ptr v)) [
      | inr n ↦ (rw n refl, rw n refl)
      | inl y ↦ (rw (y, at, big) refl, rw (y, at, big) refl)
    ]
