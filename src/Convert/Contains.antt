-- ===== src/Convert/Contains.antt =====
-- `xt_string_contains` against the texts themselves, and the buffer of `xt_array_join`.
use atlanage.Prelude.{
  ℕ, ◌≡◌, ◌↔◌, ◌∙◌, refl, sym, true, false, List, [], ◌∷◌, ◌++◌, Option, none, some, arith, ltb,
  ◌==◌, length, length-append, Bool-cases, inl, inr,
}
use atlanage.Text.{join_loop}
use atlanage.Text.Search.{c_str, starts_with, strstr, passed}
use atlanage.Convert.{Objects, is_found, string_contains, join_size, texts_of, array_join}

-- What stands before and behind an occurrence.
abbrev pub Occurs : List ℕ → List ℕ → Type 0
Occurs q p = (pre : List ℕ) × (post : List ℕ) × (c_str p ≡ pre ++ (c_str q ++ post))

starts_with-c_str :
    (q p : List ℕ) → starts_with (c_str q) p ≡ true → (post : List ℕ) × (c_str p ≡ c_str q ++ post)
starts_with-c_str [] p h = (c_str p, refl)
starts_with-c_str (a ∷ q) [] h = elim (Bool-cases (a == 0)) [
  | inl z ↦ ([], rw z refl)
  | inr z ↦ absurd (cc (rw z at h))
]
starts_with-c_str (a ∷ q) (c ∷ p) h = elim (Bool-cases (a == 0)) [
  | inl z ↦ (c_str (c ∷ p), rw z refl)
  | inr z ↦
      let h' = rw z at h in
      let same : a ≡ c = ground (arith, h') in
      let z' : (c == 0) ≡ false = ground (arith, same, z) in
      let (post, e) = starts_with-c_str q p (ground (arith, h')) in (post, rw (z, z', same, e) refl)
]

c_str-starts_with : (k p post : List ℕ) → c_str p ≡ k ++ post → starts_with k p ≡ true
c_str-starts_with [] p post e = refl
c_str-starts_with (a ∷ k) [] post e = absurd (cc e)
c_str-starts_with (a ∷ k) (c ∷ p) post e = elim (Bool-cases (c == 0)) [
  | inl z ↦ absurd (cc (rw z at e))
  | inr z ↦
      let e' = rw z at e in
      let same : a ≡ c = cc e' in
      let rest : c_str p ≡ k ++ post = cc e' in
      let later = c_str-starts_with k p post rest in ground (arith, same, later)
]

is_found-passed : (c : ℕ) (r : Option (List ℕ × List ℕ)) → is_found (passed c r) ≡ is_found r
is_found-passed c none = refl
is_found-passed c (some (pre, pos)) = refl

strstr-Occurs : (q p : List ℕ) → is_found (strstr (c_str q) p) ≡ true → Occurs q p
unfolding strstr
strstr-Occurs q [] h = elim (Bool-cases (starts_with (c_str q) [])) [
  | inl y ↦ let (post, e) = starts_with-c_str q [] y in ([], post, e)
  | inr n ↦ absurd (cc (rw n at h))
]
strstr-Occurs q (c ∷ p) h = elim (Bool-cases (starts_with (c_str q) (c ∷ p))) [
  | inl y ↦ let (post, e) = starts_with-c_str q (c ∷ p) y in ([], post, e)
  | inr n ↦ elim (Bool-cases (c == 0)) [
    | inl z ↦ absurd (cc (rw (n, z) at h))
    | inr z ↦
        let (pre, post, e) =
          strstr-Occurs q p (sym (is_found-passed c (strstr (c_str q) p)) ∙ rw (n, z) at h) in
        (c ∷ pre, post, rw (z, e) refl)
  ]
]

found_here : (k p : List ℕ) → starts_with k p ≡ true → is_found (strstr k p) ≡ true
unfolding strstr
found_here k [] y = rw y refl
found_here k (c ∷ p) y = rw y refl

found_later : (k p pre post : List ℕ) → c_str p ≡ pre ++ (k ++ post) → is_found (strstr k p) ≡ true
unfolding strstr
found_later k p [] post e = found_here k p (c_str-starts_with k p post e)
found_later k [] (x ∷ pre) post e = absurd (cc e)
found_later k (c ∷ p) (x ∷ pre) post e = elim (Bool-cases (starts_with k (c ∷ p))) [
  | inl y ↦ rw y refl
  | inr n ↦ elim (Bool-cases (c == 0)) [
    | inl z ↦ absurd (cc (rw z at e))
    | inr z ↦
        let rest : c_str p ≡ pre ++ (k ++ post) = cc (rw z at e) in
        rw (n, z) (is_found-passed c (strstr k p) ∙ found_later k p pre post rest)
  ]
]

-- `xt_string_contains` is true exactly if the one text, up to its zero byte, stands somewhere in the
-- other, up to its zero byte.
pub string_contains-Occurs :
    (s sub : List ℕ) → (string_contains (some s) (some sub) ≡ true) ↔ Occurs sub s
unfolding string_contains
string_contains-Occurs s sub =
    (strstr-Occurs sub s, λ (pre, post, e). found_later (c_str sub) s pre post e)

length-join_loop :
    (sep : List ℕ) (ss : List (List ℕ)) → length (join_loop sep ss) ≡ join_size (length sep) ss
unfolding join_loop join_size
length-join_loop sep [] = refl
length-join_loop sep (s ∷ []) = refl
length-join_loop sep (s ∷ t ∷ ss) =
    let a = length-append s (sep ++ join_loop sep (t ∷ ss)) in
    let b = length-append sep (join_loop sep (t ∷ ss)) in
    omega (arith, a, b, length-join_loop sep (t ∷ ss))

-- `xt_array_join` writes no byte out of its buffer: if each element has a text, it returns the texts
-- with the separator between them, up to a zero byte.
pub array_join-joined :
    (o : Objects) (fuel : ℕ) (elements sep : List ℕ) (ss : List (List ℕ))
    → texts_of o fuel elements ≡ some ss
    → array_join o fuel elements sep ≡ some (c_str (join_loop sep ss))
unfolding array_join
array_join-joined o fuel elements sep ss e =
    let n = length-join_loop sep ss in
    let f : ltb (join_size (length sep) ss) (length (join_loop sep ss)) ≡ false =
      ground (arith, n) in
    rw (e, f) refl
