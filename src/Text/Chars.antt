-- ===== src/Text/Chars.antt =====
-- Texts that are sequences of characters.
use atlanage.Prelude.{
  ℕ, zero, suc, ◌+◌, ◌^◌, ◌≡◌, ◌≢◌, ◌<◌, ◌≤◌, refl, sym, ap, ◌∙◌, false, List, [], ◌∷◌, ◌++◌, map,
  append_assoc, none, some, arith, length, length-append, get_elem?,
}
use mathlib.Core.List.{flatten}
use native.Mathlib.Nat.{add-zero, zero-add, add_assoc}
use atlanage.Word.{is_negative}
use atlanage.Text.{
  char_width, advance, at_end, step, count_loop, char_count, skip, copy_char, first_width, char_at,
  get_char, split_loop, split_chars,
}

one_more : (j : ℕ) → 1 + j ≡ suc j
one_more j = omega arith

-- The bytes of one character: the first says how many there are, and none is zero.
abbrev pub NonZero : List ℕ → Type 0
NonZero [] = Unit
NonZero (c ∷ cs) = (c ≢ 0) × NonZero cs

abbrev pub IsChar : List ℕ → Type 0
IsChar [] = ⊥
IsChar (c ∷ cs) = (char_width c ≡ suc (length cs)) × NonZero (c ∷ cs)

abbrev pub AllChars : List (List ℕ) → Type 0
AllChars [] = Unit
AllChars (c ∷ cs) = IsChar c × AllChars cs

pub advance-append : (xs ys : List ℕ) → advance (length xs) (xs ++ ys) ≡ some ys
unfolding advance
advance-append [] ys = refl
advance-append (x ∷ xs) ys = advance-append xs ys

-- A step goes over one character.
pub step-append : (c : List ℕ) (p : List ℕ) → IsChar c → step (c ++ p) ≡ some p
unfolding step
step-append [] p h = absurd h
step-append (b ∷ bs) p h = rw h.0 (advance-append (b ∷ bs) p)

pub at_end-append : (c : List ℕ) (p : List ℕ) → IsChar c → at_end (c ++ p) ≡ false
at_end-append [] p h = absurd h
at_end-append (b ∷ bs) p h = let ne = h.1.0 in ground arith

count_loop_lem :
    (fuel n : ℕ) (cs : List (List ℕ))
    → length cs < fuel
    → AllChars cs
    → count_loop fuel (flatten cs) n ≡ some (n + length cs)
unfolding count_loop flatten
count_loop_lem zero n cs f h = absurd (omega arith)
count_loop_lem (suc fuel) n [] f h = ground arith
count_loop_lem (suc fuel) n (c ∷ cs) f h =
    rw (at_end-append c (flatten cs) h.0, step-append c (flatten cs) h.0)
      (count_loop_lem fuel (n + 1) cs (omega arith) h.1 ∙ ap some (omega arith))

pub length-le-flatten : (cs : List (List ℕ)) → AllChars cs → length cs ≤ length (flatten cs)
unfolding flatten
length-le-flatten [] h = omega arith
length-le-flatten ([] ∷ cs) h = absurd h.0
length-le-flatten ((b ∷ bs) ∷ cs) h =
    omega (arith, length-append bs (flatten cs), length-le-flatten cs h.1)

-- `xt_string_char_count` counts the characters, and reads nothing out of bounds.
pub char_count-flatten :
    (cs : List (List ℕ)) → AllChars cs → char_count (flatten cs) ≡ some (length cs)
unfolding char_count
char_count-flatten cs h =
    count_loop_lem (length (flatten cs) + 1) 0 cs (omega (arith, length-le-flatten cs h)) h
    ∙ ap some (omega arith)

copy_char-append : (xs ys : List ℕ) → NonZero xs → copy_char (length xs) (xs ++ ys) ≡ xs
unfolding copy_char
copy_char-append [] ys h = refl
copy_char-append (x ∷ xs) ys h = let ne = h.0 in ground (arith, copy_char-append xs ys h.1)

-- The copy of the character at the front.
char_of : (c p : List ℕ) → IsChar c → copy_char (first_width (c ++ p)) (c ++ p) ≡ c
char_of [] p h = absurd h
char_of (b ∷ bs) p h = rw h.0 (copy_char-append (b ∷ bs) p h.1)

pub skip-append : (i : ℕ) (c p : List ℕ) → IsChar c → skip (suc i) (c ++ p) ≡ skip i p
unfolding skip
skip-append i c p h = rw (at_end-append c p h, step-append c p h)

char_at-skip :
    (i : ℕ) (cs : List (List ℕ))
    → AllChars cs
    → char_at (skip i (flatten cs)) ≡ some (get_elem? cs i)
unfolding flatten
char_at-skip zero [] h = unfold skip char_at in refl
char_at-skip zero (c ∷ cs) h =
    unfold skip char_at in rw (at_end-append c (flatten cs) h.0, char_of c (flatten cs) h.0)
char_at-skip (suc i) [] h = unfold skip char_at in refl
char_at-skip (suc i) (c ∷ cs) h = rw (skip-append i c (flatten cs) h.0) (char_at-skip i cs h.1)

get_char-skip : (i : ℕ) (p : List ℕ) → is_negative i ≡ false → get_char p i ≡ char_at (skip i p)
unfolding get_char
get_char-skip i p h = rw h

-- `xt_string_get_char` returns the character at the index, and null past the last one; it reads
-- nothing out of bounds.
pub get_char-flatten :
    (cs : List (List ℕ)) (i : ℕ)
    → AllChars cs
    → i < 2 ^ 63
    → get_char (flatten cs) i ≡ some (get_elem? cs i)
get_char-flatten cs i h small =
    let sign : is_negative i ≡ false = ground arith in
    get_char-skip i (flatten cs) sign ∙ char_at-skip i cs h

split_loop_lem :
    (all cs : List (List ℕ)) (i : ℕ)
    → AllChars all
    → i + length cs < 2 ^ 63
    → ((j : ℕ) → get_elem? all (i + j) ≡ get_elem? cs j)
    → split_loop (length cs) i (flatten all) ≡ some (map some cs)
unfolding split_loop
split_loop_lem all [] i h small same = refl
split_loop_lem all (c ∷ cs) i h small same =
    let here : get_elem? all i ≡ some c = ap (get_elem? all) (sym (add-zero i)) ∙ same 0 in
    let later = λ (j : ℕ).
      ap (get_elem? all) (add_assoc i 1 j ∙ ap (λ k. i + k) (one_more j)) ∙ same (suc j) in
    let at = get_char-flatten all i h (omega arith) ∙ ap some here in
    rw (at, split_loop_lem all cs (i + 1) h (omega arith) later, split_loop)

-- `xt_string_split` with an empty separator gives the characters of the text, one by one.
pub split_chars-flatten :
    (cs : List (List ℕ))
    → AllChars cs
    → length cs < 2 ^ 63
    → split_chars (flatten cs) ≡ some (map some cs)
unfolding split_chars
split_chars-flatten cs h small =
    rw (char_count-flatten cs h, split_chars)
      (split_loop_lem cs cs 0 h (omega arith) (λ j. ap (get_elem? cs) (zero-add j)))

advance_short : (n : ℕ) (p : List ℕ) → length p < n → advance n p ≡ none
unfolding advance
advance_short zero p h = absurd (omega arith)
advance_short (suc n) [] h = refl
advance_short (suc n) (c ∷ p) h = advance_short n p (omega arith)

module _ (c : ℕ) (cs : List ℕ) (ne : c ≢ 0) (cut : suc (length cs) < char_width c) where
  count_loop_cut :
      (fuel n : ℕ) (front : List (List ℕ))
      → length front < fuel
      → AllChars front
      → count_loop fuel (flatten front ++ c ∷ cs) n ≡ none
  unfolding count_loop flatten
  count_loop_cut zero n front f h = refl
  count_loop_cut (suc fuel) n [] f h =
      let stop = advance_short (char_width c) (c ∷ cs) cut in unfold step in rw stop (ground arith)
  count_loop_cut (suc fuel) n (d ∷ front) f h =
      rw
        (
          append_assoc d (flatten front) (c ∷ cs),
          at_end-append d (flatten front ++ c ∷ cs) h.0,
          step-append d (flatten front ++ c ∷ cs) h.0,
        )
        (count_loop_cut fuel (n + 1) front (omega arith) h.1)

  -- A text that ends in the first bytes of a character, and not in all that the leading byte
  -- announces, is read out of bounds: the walk of `xt_string_char_count` steps over the zero byte
  -- behind it.
  pub char_count-cut :
      (front : List (List ℕ)) → AllChars front → char_count (flatten front ++ c ∷ cs) ≡ none
  unfolding char_count
  char_count-cut front h =
      count_loop_cut (length (flatten front ++ c ∷ cs) + 1) 0 front
        (omega (arith, length-append (flatten front) (c ∷ cs), length-le-flatten front h)) h
