-- ===== src/Bytes/Growth.antt =====
-- Bytes that are appended.
use atlanage.Prelude.{
  ℕ, ◌+◌, ◌*◌, ◌%◌, ◌^◌, ◌≡◌, ◌≤◌, ◌<◌, ◌∙◌, refl, sym, ap, true, List, [], ◌∷◌, ◌++◌, append-nil,
  append_assoc, some, arith, ltb, leb, length, length-append, Bool-cases, inl, inr,
}
use atlanage.Bytes.{Bytes, append, append_all}

-- There is memory, the bytes are in it, and it is no larger than at first and twice the bytes.
pub record IsBytes (first : ℕ) (b : Bytes) : Type 0 where
  pub some_room : 0 < b.capacity
  pub fits : length b.data_bytes ≤ b.capacity
  pub small : b.capacity ≤ first + length b.data_bytes * 2

append_lem :
    (first : ℕ) (b : Bytes) (x : ℕ)
    → IsBytes first b
    → length b.data_bytes < 2 ^ 63
    → (b' : Bytes) × (append b x ≡ some b')
      × (b'.data_bytes ≡ b.data_bytes ++ x ∷ [])
      × IsBytes first b'
unfolding append
append_lem first b x h short =
    let n = length-append b.data_bytes (x ∷ []) in
    elim (Bool-cases (leb b.capacity (length b.data_bytes))) [
      | inl full ↦
          let w : b.capacity * 2 % 2 ^ 64 ≡ b.capacity * 2 = ground (arith, h.fits, short) in
          let room : ltb (length b.data_bytes) (b.capacity * 2) ≡ true =
            ground (arith, h.fits, h.some_room) in
          (
            record { data_bytes = b.data_bytes ++ x ∷ []; capacity = b.capacity * 2 },
            rw (full, w, room) refl,
            refl,
            record {
              some_room = omega (arith, h.some_room);
              fits = ground (arith, n, h.fits, h.some_room, full);
              small = ground (arith, n, h.small, full);
            },
          )
      | inr less ↦
          let room : ltb (length b.data_bytes) b.capacity ≡ true = ground (arith, less) in
          (
            record { data_bytes = b.data_bytes ++ x ∷ []; capacity = b.capacity },
            rw (less, room) refl,
            refl,
            record {
              some_room = h.some_room;
              fits = ground (arith, n, less);
              small = omega (arith, n, h.small);
            },
          )
    ]

append_all_step :
    (b b' : Bytes) (x : ℕ) (xs : List ℕ)
    → append b x ≡ some b'
    → append_all b (x ∷ xs) ≡ append_all b' xs
unfolding append_all
append_all_step b b' x xs e = rw (e, append_all) refl

-- From any memory that is not empty, `xt_bytes_append` writes inside the memory, one call after the
-- other: the bytes stand there in their order, and the memory is no larger than at first and twice the
-- bytes together, if the bytes are fewer than 2 ^ 63.
pub append_all-IsBytes :
    (first : ℕ) (xs : List ℕ) (b : Bytes)
    → IsBytes first b
    → length b.data_bytes + length xs < 2 ^ 63
    → (b' : Bytes) × (append_all b xs ≡ some b')
      × (b'.data_bytes ≡ b.data_bytes ++ xs)
      × IsBytes first b'
unfolding append_all
append_all-IsBytes first [] b h short = (b, refl, sym (append-nil b.data_bytes), h)
append_all-IsBytes first (x ∷ xs) b h short =
    let (b', e, same, h') = append_lem first b x h (omega arith) in
    let (b'', e', same', h'') =
      append_all-IsBytes first xs b' h'
        (omega (arith, ap length same, length-append b.data_bytes (x ∷ []))) in
    (
      b'',
      append_all_step b b' x xs e ∙ e',
      same' ∙ ap (λ l. l ++ xs) same ∙ append_assoc b.data_bytes (x ∷ []) xs,
      h'',
    )
