-- ===== src/Channel/Queue.antt =====
-- A channel is a bounded queue.
use atlanage.Prelude.{
  ℕ, zero, suc, ◌+◌, ◌-◌, ◌%◌, ◌≡◌, ◌≢◌, ◌<◌, ◌≤◌, refl, sym, ap, ap₂, ◌∙◌, List, [], ◌∷◌, ◌++◌,
  arith, length, get_or, get_or-set, set, length-set,
}
use native.Mathlib.Nat.{mod-add-mod, mod-eq_of_lt, add-zero}
use atlanage.Word.{xt_null}
use atlanage.Effect.{retain, wake}
use atlanage.Channel.{Channel, put, take_out}

-- The values of `n` slots from `i` on, round the end of the buffer.
unfoldable pub slots : List ℕ → ℕ → ℕ → ℕ → List ℕ
slots buffer capacity i zero = []
slots buffer capacity i (suc n) =
    get_or buffer i xt_null ∷ slots buffer capacity ((i + 1) % capacity) n

-- What the channel holds, oldest first.
unfoldable pub contents : Channel → List ℕ
contents c = slots c.buffer c.capacity c.head c.size

-- The invariant: the indices are in the buffer, and every free slot is cleared.
pub record IsValid (c : Channel) : Type 0 where
  pub width : length c.buffer ≡ c.capacity
  pub room : 0 < c.capacity
  pub filled : c.size ≤ c.capacity
  pub head_in : c.head < c.capacity
  pub tail_at : c.tail ≡ (c.head + c.size) % c.capacity
  pub cleared :
      (j : ℕ)
      → c.size ≤ j
      → j < c.capacity
      → get_or c.buffer ((c.head + j) % c.capacity) xt_null ≡ xt_null

pub length-slots : (b : List ℕ) (span i n : ℕ) → length (slots b span i n) ≡ n
unfolding slots
length-slots b span i zero = refl
length-slots b span i (suc n) = ap suc (length-slots b span ((i + 1) % span) n)

-- Two offsets below the capacity reach different slots.
offset-ne :
    (span h i j : ℕ) → h < span → i < span → j < span → i ≢ j → (h + i) % span ≢ (h + j) % span
offset-ne span h i j hh hi hj ne e = grind arith

shift : (span i j : ℕ) → 0 < span → ((i + 1) % span + j) % span ≡ (i + (j + 1)) % span
shift span i j h = rw mod-add-mod (ap (λ k. k % span) (omega arith))

slots-set :
    (b : List ℕ) (span i n t v : ℕ)
    → i < span
    → t < length b
    → ((j : ℕ) → j < n → (i + j) % span ≢ t)
    → slots (set b t v) span i n ≡ slots b span i n
unfolding slots
slots-set b span i zero t v hi ht apart = refl
slots-set b span i (suc n) t v hi ht apart =
    let first : i ≢ t = λ e. apart 0 (omega arith) (rw (add-zero, mod-eq_of_lt hi) e) in
    let rest =
      slots-set b span ((i + 1) % span) n t v (omega arith) ht
        (λ j hj e. apart (j + 1) (omega arith) (sym (shift span i j (omega arith)) ∙ e)) in
    ground (arith, rest, get_or-set b t i v xt_null)

slots_last :
    (b : List ℕ) (span i n : ℕ)
    → i < span
    → slots b span i (suc n) ≡ slots b span i n ++ get_or b ((i + n) % span) xt_null ∷ []
unfolding slots
slots_last b span i zero hi = rw (add-zero, mod-eq_of_lt hi)
slots_last b span i (suc n) hi =
    let e : i + (n + 1) ≡ i + suc n = omega arith in
    let rest = slots_last b span ((i + 1) % span) n (omega arith) in
    let at = rw e at (shift span i n (omega arith)) in ap (◌∷◌ (get_or b i xt_null)) (rw at at rest)

wrap : (span h j : ℕ) → h < span → j ≡ span → (h + j) % span ≡ h
wrap span h j hh e = grind arith

-- A put on a channel with a free slot is an enqueue; it releases nothing.
module _ (chan v : ℕ) (c : Channel) (valid : IsValid c) (free : c.size < c.capacity) where
  tail_in : c.tail < c.capacity
  tail_in = rw valid.tail_at (omega arith)

  pub contents-put : contents (put chan c v).0 ≡ contents c ++ v ∷ []
  unfolding contents put
  contents-put =
      let b' = set c.buffer c.tail v in
      let inside : c.tail < length c.buffer = omega (arith, valid.width, tail_in) in
      let e : c.size + 1 ≡ suc c.size = omega arith in
      let old = slots-set c.buffer c.capacity c.head c.size c.tail v valid.head_in inside (λ j hj.
        rw valid.tail_at
          (offset-ne c.capacity c.head j c.size valid.head_in (omega arith) free (omega arith))) in
      let new_value : get_or b' ((c.head + c.size) % c.capacity) xt_null ≡ v = ground (
        arith,
        get_or-set c.buffer c.tail ((c.head + c.size) % c.capacity) v xt_null,
        valid.tail_at,
      ) in
      rw e (
        slots_last b' c.capacity c.head c.size valid.head_in
        ∙ ap₂ (λ (xs : List ℕ) (x : ℕ). xs ++ x ∷ []) old new_value)

  pub effects-put : (put chan c v).1 ≡ retain v ∷ wake chan ∷ []
  unfolding put
  effects-put = ground (arith, valid.tail_at, valid.cleared c.size (omega arith) free)

  pub put-IsValid : IsValid (put chan c v).0
  unfolding put
  put-IsValid = record {
    width = length-set c.buffer c.tail v ∙ valid.width;
    room = valid.room;
    filled = omega arith;
    head_in = valid.head_in;
    tail_at = rw valid.tail_at (rw mod-add-mod (ap (λ k. k % c.capacity) (omega arith)));
    cleared = λ j lo hi. ground (
      arith,
      valid.tail_at,
      valid.width,
      tail_in,
      valid.cleared j,
      offset-ne c.capacity c.head c.size j valid.head_in free hi,
      get_or-set c.buffer c.tail ((c.head + j) % c.capacity) v xt_null,
    );
  }

-- The removal of the oldest value.
module _ (chan : ℕ) (c : Channel) (valid : IsValid c) (some_left : 0 < c.size) where
  pub contents-take_out : contents c ≡ (take_out chan c).0 ∷ contents (take_out chan c).1
  unfolding contents take_out
  contents-take_out =
      let e : c.size ≡ suc (c.size - 1) = omega arith in
      let b = c.buffer in
      let inside : c.head < length b = omega (arith, valid.width, valid.head_in) in
      let rest =
        slots-set b c.capacity ((c.head + 1) % c.capacity) (c.size - 1) c.head xt_null
          (omega (arith, valid.room)) inside
          (λ j hj q.
            offset-ne c.capacity c.head (j + 1) 0 valid.head_in (omega (arith, valid.filled))
              valid.room (omega arith)
              (sym (shift c.capacity c.head j valid.room)
                ∙ q
                ∙ sym (rw add-zero (mod-eq_of_lt valid.head_in)))) in
      ap (slots b c.capacity c.head) e
      ∙ unfold slots in ap (◌∷◌ (get_or b c.head xt_null)) (sym rest)

  pub take_out-IsValid : IsValid (take_out chan c).1
  unfolding take_out
  take_out-IsValid =
      let inside : c.head < length c.buffer = omega (arith, valid.width, valid.head_in) in
      record {
        width = length-set c.buffer c.head xt_null ∙ valid.width;
        room = valid.room;
        filled = omega (arith, valid.filled);
        head_in = omega (arith, valid.room);
        tail_at =
            valid.tail_at
            ∙ sym (
                shift c.capacity c.head (c.size - 1) valid.room
                ∙ ap (λ k. k % c.capacity) (omega arith));
        cleared = λ j lo hi. ground (
          arith,
          shift c.capacity c.head j valid.room,
          get_or-set c.buffer c.head ((c.head + 1) % c.capacity + j) xt_null xt_null inside,
          get_or-set c.buffer c.head ((c.head + (j + 1)) % c.capacity) xt_null xt_null inside,
          valid.cleared (j + 1),
          wrap c.capacity c.head (j + 1) valid.head_in,
        );
      }
