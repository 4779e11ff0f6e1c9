-- ===== src/Text/Found.antt =====
-- `strstr` in a text that goes on.
use atlanage.Prelude.{
  ℕ, ◌≡◌, ◌≤◌, ◌∙◌, refl, Bool, true, false, List, [], ◌∷◌, ◌++◌, Option, none, some, Bool-cases,
  inl, inr, arith, ◌==◌, length,
}
use atlanage.Text.Search.{starts_with, strstr, passed}

starts_with-append :
    (q p rest : List ℕ) → length q ≤ length p → starts_with q (p ++ rest) ≡ starts_with q p
starts_with-append [] p rest h = refl
starts_with-append (a ∷ q) [] rest h = absurd (omega arith)
starts_with-append (a ∷ q) (c ∷ p) rest h = rw (starts_with-append q p rest (omega arith)) refl

starts_with-length : (q p : List ℕ) → starts_with q p ≡ true → length q ≤ length p
starts_with-length [] p h = omega arith
starts_with-length (a ∷ q) [] h = absurd (cc h)
starts_with-length (a ∷ q) (c ∷ p) h = omega (arith, starts_with-length q p (ground (arith, h)))

abbrev pub is_some : Option (List ℕ × List ℕ) → Bool
is_some none = false
is_some (some r) = true

-- The text goes on behind what is found.
abbrev pub extended : List ℕ → Option (List ℕ × List ℕ) → Option (List ℕ × List ℕ)
extended rest none = none
extended rest (some (pre, pos)) = some (pre, pos ++ rest)

is_some-passed :
    (c : ℕ) (r : Option (List ℕ × List ℕ)) → is_some (passed c r) ≡ true → is_some r ≡ true
is_some-passed c none h = h
is_some-passed c (some (pre, pos)) h = refl

passed-extended :
    (c : ℕ) (rest : List ℕ) (r : Option (List ℕ × List ℕ))
    → passed c (extended rest r) ≡ extended rest (passed c r)
passed-extended c rest none = refl
passed-extended c rest (some (pre, pos)) = refl

-- What is found in a text is found in a longer one.
pub strstr-append :
    (a : ℕ) (o p rest : List ℕ)
    → is_some (strstr (a ∷ o) p) ≡ true
    → (length (a ∷ o) ≤ length p) × (strstr (a ∷ o) (p ++ rest) ≡ extended rest (strstr (a ∷ o) p))
unfolding strstr
strstr-append a o [] rest h = absurd (cc h)
strstr-append a o (c ∷ p) rest h = elim (Bool-cases (starts_with (a ∷ o) (c ∷ p))) [
  | inl y ↦
      let size = starts_with-length (a ∷ o) (c ∷ p) y in
      let longer = starts_with-append (a ∷ o) (c ∷ p) rest size ∙ y in (size, rw (longer, y) refl)
  | inr n ↦ elim (Bool-cases (c == 0)) [
    | inl z ↦ absurd (cc (rw (n, z) at h))
    | inr z ↦
        let (size, ih) =
          strstr-append a o p rest (is_some-passed c (strstr (a ∷ o) p) (rw (n, z) at h)) in
        let longer = starts_with-append (a ∷ o) (c ∷ p) rest (omega (arith, size)) ∙ n in
        (omega (arith, size), rw (longer, n, z, ih) (passed-extended c rest (strstr (a ∷ o) p)))
  ]
]
