-- ===== src/Dict/Refs.antt =====
-- The references that a dictionary holds.
use atlanage.Prelude.{
  ℕ, ◌+◌, ◌≡◌, ◌<◌, refl, true, List, [], ◌∷◌, ◌++◌, none, some, arith, length, length-set, get_or,
  set, Option-cases, inl, inr, ◌==◌,
}
use atlanage.Word.{Memory, is_real_ptr}
use atlanage.Effect.{count, retained-append, released-append, Balanced, one_if, retained, released}
use atlanage.Dict.{
  Entry, Chain, Dict, is_dict, bucket, find, assign, set_key, set_weak, remove, unlink, find_entry,
  entries,
}
use atlanage.Dict.Table.{bucket-lt}
use atlanage.Dict.Size.{total, total-set, references}

set_weak-width :
    (m : Memory) (p : ℕ) (d : Dict) (k v : ℕ)
    → length (set_weak m p d k v).0.buckets ≡ length d.buckets
unfolding set_weak
set_weak-width m p d k v =
    let i = bucket m (length d.buckets) k in
    let c = get_or d.buckets i [] in
    ground (
      arith,
      length-set d.buckets i (assign m k v c),
      length-set d.buckets i (record { key = k; value = v } ∷ c),
    )

-- How often a value is a key or a value of a chain.
abbrev held : ℕ → Chain → ℕ
held v c = count v (references c)

held-append : (v : ℕ) (a b : List Entry) → held v (a ++ b) ≡ held v a + held v b
unfolding references
held-append v [] b = omega arith
held-append v (e ∷ a) b = omega (arith, held-append v a b)

held-entries : (v : ℕ) (bs : List Chain) → held v (entries bs) ≡ total (held v) bs
unfolding entries total references
held-entries v [] = refl
held-entries v (c ∷ bs) = omega (arith, held-append v c (entries bs), held-entries v bs)

module _ (m : Memory) (k w : ℕ) where
  held-assign :
      (v : ℕ) (c : Chain) (old : ℕ)
      → find m k c ≡ some old
      → held w (assign m k v c) + one_if (old == w) ≡ held w c + one_if (v == w)
  unfolding assign find references
  held-assign v [] old h = cc
  held-assign v (e ∷ c) old h = ground (arith, held-assign v c old)

  held-unlink :
      (c : Chain) (e : Entry)
      → find_entry m k c ≡ some e
      → held w (unlink m k c) + one_if (e.key == w) + one_if (e.value == w) ≡ held w c
  unfolding unlink find_entry references
  held-unlink [] e h = cc
  held-unlink (d ∷ c) e h = ground (arith, held-unlink c e)

module _ (m : Memory) (p : ℕ) (d : Dict) (k : ℕ) (at : is_dict m p ≡ true)
    (room : 0 < length d.buckets) where
  -- `xt_dict_set` keeps account of the table: for each value, the places that it has as a key or a
  -- value, and the references taken, before are those after, and the references given up.
  pub set_key-Balanced :
      (v : ℕ)
      → Balanced
          (references (entries d.buckets))
          (set_key m p d k v).1
          (references (entries (set_key m p d k v).0.buckets))
  unfolding set_key
  set_key-Balanced v w =
      let i = bucket m (length d.buckets) k in
      let c = get_or d.buckets i [] in
      let fresh : Entry = record { key = k; value = v } in
      let inside = bucket-lt m (length d.buckets) k room in
      elim (Option-cases (find m k c)) [
        | inl e ↦
            rw (at, e)
              (unfold references in
                omega (
                  arith,
                  held-entries w d.buckets,
                  held-entries w (set d.buckets i (fresh ∷ c)),
                  total-set (held w) d.buckets i (fresh ∷ c) inside,
                ))
        | inr (old, e) ↦
            rw (at, e)
              (omega (
                arith,
                held-entries w d.buckets,
                held-entries w (set d.buckets i (assign m k v c)),
                total-set (held w) d.buckets i (assign m k v c) inside,
                held-assign m k w v c old e,
              ))
      ]

  -- `xt_dict_remove` keeps account of the table: it gives up one reference for each place, as a key
  -- or a value, that a value loses.
  pub remove-Balanced :
      Balanced
        (references (entries d.buckets))
        (remove m p d k).1
        (references (entries (remove m p d k).0.buckets))
  unfolding remove
  remove-Balanced w =
      let i = bucket m (length d.buckets) k in
      let c = get_or d.buckets i [] in
      let inside = bucket-lt m (length d.buckets) k room in
      let real : is_real_ptr p ≡ true = ground arith in
      elim (Option-cases (find_entry m k c)) [
        | inl e ↦ rw (real, e) (omega arith)
        | inr (old, e) ↦
            rw (real, e)
              (omega (
                arith,
                held-entries w d.buckets,
                held-entries w (set d.buckets i (unlink m k c)),
                total-set (held w) d.buckets i (unlink m k c) inside,
                held-unlink m k w c old e,
              ))
      ]

  -- A new weak entry holds its value without a reference.
  pub set_weak-unbalanced :
      (v : ℕ)
      → find m k (get_or d.buckets (bucket m (length d.buckets) k) []) ≡ none
      → (w : ℕ)
      → count w (references (entries d.buckets))
          + retained w (set_weak m p d k v).1
          + one_if (v == w)
        ≡ count w (references (entries (set_weak m p d k v).0.buckets))
          + released w (set_weak m p d k v).1
  unfolding set_weak
  set_weak-unbalanced v e w =
      let i = bucket m (length d.buckets) k in
      let c = get_or d.buckets i [] in
      let fresh : Entry = record { key = k; value = v } in
      let inside = bucket-lt m (length d.buckets) k room in
      rw (at, e)
        (unfold references in
          omega (
            arith,
            held-entries w d.buckets,
            held-entries w (set d.buckets i (fresh ∷ c)),
            total-set (held w) d.buckets i (fresh ∷ c) inside,
          ))

-- After `xt_dict_set_weak` has added a key, `xt_dict_remove` of that key gives up one reference to
-- the weak value that nobody took: over both calls, each value is released as often as it is
-- retained, and the weak value once more.
pub remove-set_weak :
    (m : Memory) (p : ℕ) (d : Dict) (k v : ℕ)
    → is_dict m p ≡ true
    → 0 < length d.buckets
    → find m k (get_or d.buckets (bucket m (length d.buckets) k) []) ≡ none
    → (w : ℕ)
    → let (d', es) = set_weak m p d k v in
      let (d'', fs) = remove m p d' k in
      count w (references (entries d.buckets)) + retained w (es ++ fs) + one_if (v == w)
      ≡ count w (references (entries d''.buckets)) + released w (es ++ fs)
remove-set_weak m p d k v at room e w = omega (
  arith,
  set_weak-unbalanced m p d k at room v e w,
  remove-Balanced m p (set_weak m p d k v).0 k at (rw (set_weak-width m p d k v) room) w,
  retained-append w (set_weak m p d k v).1 (remove m p (set_weak m p d k v).0 k).1,
  released-append w (set_weak m p d k v).1 (remove m p (set_weak m p d k v).0 k).1,
)
