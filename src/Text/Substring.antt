-- ===== src/Text/Substring.antt =====
-- `xt_string_substring` against the list of the characters.
use atlanage.Prelude.{
  ℕ, zero, suc, ◌+◌, ◌-◌, ◌≡◌, ◌≢◌, ◌<◌, ◌≤◌, refl, ap, ◌∙◌, true, false, List, [], ◌∷◌, ◌++◌,
  Option, none, some, arith, ◌==◌, if◌then◌else◌, length, length-append, take, drop, ℕ_discrete,
}
use mathlib.Core.List.{flatten}
use atlanage.Text.{sub_loop, cut_out, substring}
use atlanage.Text.Chars.{IsChar, AllChars, step-append, at_end-append, length-le-flatten}

sub_self : (n : ℕ) → n - n ≡ 0
sub_self n = omega arith

drop-nil {ℓ} : (A : Type ℓ) (n : ℕ) → drop {A = A} n [] ≡ []
drop-nil A zero = refl
drop-nil A (suc n) = refl

take-nil {ℓ} : (A : Type ℓ) (n : ℕ) → take {A = A} n [] ≡ []
take-nil A zero = refl
take-nil A (suc n) = refl

length-flatten-drop :
    (n : ℕ) (cs : List (List ℕ)) → length (flatten (drop n cs)) ≤ length (flatten cs)
unfolding flatten
length-flatten-drop zero cs = omega arith
length-flatten-drop (suc n) [] = omega arith
length-flatten-drop (suc n) (c ∷ cs) =
    omega (arith, length-append c (flatten cs), length-flatten-drop n cs)

take-append :
    (xs : List ℕ) (n : ℕ) (ys : List ℕ) → take (length xs + n) (xs ++ ys) ≡ xs ++ take n ys
take-append [] n ys = ap (λ k. take k ys) (omega arith)
take-append (x ∷ xs) n ys =
    let e : suc (length xs) + n ≡ suc (length xs + n) = omega arith in
    rw e (ap (◌∷◌ x) (take-append xs n ys))

-- The bytes before the characters that are left are those of the first characters.
take-flatten :
    (n : ℕ) (cs : List (List ℕ))
    → take (length (flatten cs) - length (flatten (drop n cs))) (flatten cs) ≡ flatten (take n cs)
unfolding flatten
take-flatten zero cs = rw (sub_self (length (flatten cs)))
take-flatten (suc n) [] = refl
take-flatten (suc n) (c ∷ cs) =
    let rest = length-flatten-drop n cs in
    let e : length (c ++ flatten cs) - length (flatten (drop n cs))
        ≡ length c + (length (flatten cs) - length (flatten (drop n cs))) =
      omega (arith, length-append c (flatten cs), rest) in
    rw (e, take-append c (length (flatten cs) - length (flatten (drop n cs))) (flatten cs))
      (ap (λ ys. c ++ ys) (take-flatten n cs))

-- One round of the loop, before the last position.
sub_loop-step :
    (fuel k first last : ℕ) (c : List ℕ) (p : List ℕ) (begun : Option (List ℕ))
    → IsChar c
    → k ≢ last
    → sub_loop (suc fuel) k first last (c ++ p) begun
      ≡ sub_loop fuel (k + 1) first last p (if k == first then some (c ++ p) else begun)
unfolding sub_loop
sub_loop-step fuel k first last c p begun h ne =
    let go_on : (k == last) ≡ false = ground arith in
    rw (at_end-append c p h, step-append c p h, go_on)

sub_loop_stop :
    (fuel k first last : ℕ) (c p : List ℕ) (begun : Option (List ℕ))
    → IsChar c
    → k ≡ last
    → k ≢ first
    → sub_loop (suc fuel) k first last (c ++ p) begun ≡ some (begun, c ++ p)
unfolding sub_loop
sub_loop_stop fuel k first last c p begun h e ne =
    let stops : (k == last) ≡ true = ground arith in
    let other : (k == first) ≡ false = ground arith in
    rw (at_end-append c p h, step-append c p h, stops, other)

-- From behind the first position to the last.
sub_loop_begun :
    (fuel k first last : ℕ) (cs : List (List ℕ)) (q : List ℕ)
    → length cs < fuel
    → AllChars cs
    → first < k
    → k ≤ last
    → sub_loop fuel k first last (flatten cs) (some q) ≡ some (some q, flatten (drop (last - k) cs))
unfolding flatten
sub_loop_begun zero k first last cs q f h lo hi = absurd (omega arith)
sub_loop_begun (suc fuel) k first last [] q f h lo hi =
    rw (drop-nil (List ℕ) (last - k)) (unfold sub_loop flatten in refl)
sub_loop_begun (suc fuel) k first last (c ∷ cs) q f h lo hi = elim (ℕ_discrete k last) [
  | yes e ↦
      let none_left : last - k ≡ 0 = omega arith in
      rw none_left (sub_loop_stop fuel k first last c (flatten cs) (some q) h.0 e (omega arith))
  | no ne ↦
      let later =
        sub_loop_begun fuel (k + 1) first last cs q (omega arith) h.1 (omega arith) (omega arith) in
      let n : last - k ≡ suc (last - (k + 1)) = omega arith in
      let other : (k == first) ≡ false = ground arith in
      rw n (sub_loop-step fuel k first last c (flatten cs) (some q) h.0 ne ∙ rw other later)
]

sub_loop_first :
    (fuel k first last : ℕ) (c p : List ℕ)
    → IsChar c
    → k ≡ last
    → k ≡ first
    → sub_loop (suc fuel) k first last (c ++ p) none ≡ some (some (c ++ p), c ++ p)
unfolding sub_loop
sub_loop_first fuel k first last c p h e e' =
    let stops : (k == last) ≡ true = ground arith in
    let here : (k == first) ≡ true = ground arith in
    rw (at_end-append c p h, step-append c p h, stops, here)

-- At the first position.
sub_loop_here :
    (fuel k first last : ℕ) (c : List ℕ) (cs : List (List ℕ))
    → length cs < fuel
    → AllChars (c ∷ cs)
    → k ≡ first
    → first ≤ last
    → cut_out (sub_loop (suc fuel) k first last (flatten (c ∷ cs)) none)
      ≡ some (flatten (take (last - first) (drop (first - k) (c ∷ cs))))
unfolding flatten
sub_loop_here fuel k first last c cs f h e hi =
    let front : first - k ≡ 0 = omega arith in
    elim (ℕ_discrete k last) [
      | yes same ↦
          let none_left : last - first ≡ 0 = omega arith in
          rw (front, none_left, sub_loop_first fuel k first last c (flatten cs) h.0 same e)
            (unfold cut_out in rw (sub_self (length (c ++ flatten cs))))
      | no ne ↦
          let n : last - first ≡ suc (last - (k + 1)) = omega arith in
          let here : (k == first) ≡ true = ground arith in
          let later =
            sub_loop_begun fuel (k + 1) first last cs (c ++ flatten cs) f h.1 (omega arith)
              (omega arith) in
          let run : sub_loop (suc fuel) k first last (c ++ flatten cs) none
              ≡ some (some (c ++ flatten cs), flatten (drop (last - (k + 1)) cs)) =
            sub_loop-step fuel k first last c (flatten cs) none h.0 ne ∙ rw here later in
          rw (front, n, run)
            (unfold cut_out in ap some (take-flatten (suc (last - (k + 1))) (c ∷ cs)))
    ]

-- From before the first position, where it is not past the last.
sub_loop_lem :
    (fuel k first last : ℕ) (cs : List (List ℕ))
    → length cs < fuel
    → AllChars cs
    → k ≤ first
    → first ≤ last
    → cut_out (sub_loop fuel k first last (flatten cs) none)
      ≡ some (flatten (take (last - first) (drop (first - k) cs)))
unfolding flatten
sub_loop_lem zero k first last cs f h lo hi = absurd (omega arith)
sub_loop_lem (suc fuel) k first last [] f h lo hi =
    rw (drop-nil (List ℕ) (first - k), take-nil (List ℕ) (last - first))
      (unfold sub_loop cut_out flatten in refl)
sub_loop_lem (suc fuel) k first last (c ∷ cs) f h lo hi = elim (ℕ_discrete k first) [
  | yes e ↦ sub_loop_here fuel k first last c cs (omega arith) h e hi
  | no ne ↦
      let later = sub_loop_lem fuel (k + 1) first last cs (omega arith) h.1 (omega arith) hi in
      let n : first - k ≡ suc (first - (k + 1)) = omega arith in
      let other : (k == first) ≡ false = ground arith in
      rw n (
        ap cut_out
          (sub_loop-step fuel k first last c (flatten cs) none h.0 (omega arith) ∙ rw other refl)
        ∙ later)
]

-- `xt_string_substring` from a position to one that is not before it gives the characters from
-- the first up to the second, and reads nothing out of bounds.
pub substring-flatten :
    (cs : List (List ℕ)) (first last : ℕ)
    → AllChars cs
    → first ≤ last
    → substring (flatten cs) first last ≡ some (flatten (take (last - first) (drop first cs)))
unfolding substring
substring-flatten cs first last h hi =
    let n : first - 0 ≡ first = omega arith in
    sub_loop_lem (length (flatten cs) + 1) 0 first last cs (omega (arith, length-le-flatten cs h)) h
      (omega arith) hi
    ∙ ap (λ k. some (flatten (take (last - first) (drop k cs)))) n
