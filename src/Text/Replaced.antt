-- ===== src/Text/Replaced.antt =====
-- `xt_string_replace` against a replacement in one pass, which knows neither pointers nor counts.
use atlanage.Prelude.{
  ℕ, zero, suc, ◌+◌, ◌-◌, ◌*◌, ◌%◌, ◌^◌, ◌≡◌, ◌<◌, ◌∙◌, refl, sym, ap, true, false, List, [], ◌∷◌,
  ◌++◌, Option, none, some, arith, ◌==◌, if◌then◌else◌, length, length-append, Bool-cases, inl, inr,
  dec_lt,
}
use native.Mathlib.Nat.{add-mul-mod_self_right}
use atlanage.Text.{advance}
use atlanage.Text.Search.{c_str, starts_with, strstr, passed}
use atlanage.Text.Replace.{
  count_matches, copy_matches, Replaced, kept, built, out_of_bounds, total_len, replace,
}

-- From the left, each occurrence of `old` that stands before a zero byte and does not overlap the
-- one before gives way to `new_bytes`. Of the occurrence before, `k` bytes are left.
abbrev pub replaced : List ℕ → List ℕ → ℕ → List ℕ → List ℕ
replaced old new_bytes k [] = []
replaced old new_bytes (suc k) (c ∷ p) = replaced old new_bytes k p
replaced old new_bytes zero (c ∷ p) =
    let inside = replaced old new_bytes (length old - 1) p in
    let after = replaced old new_bytes 0 p in
    if c == 0 then c ∷ p else if starts_with old (c ∷ p) then new_bytes ++ inside else c ∷ after

-- What the search tells of the text.
data Found (old new_bytes p : List ℕ) : Option (List ℕ × List ℕ) → Type 0 where
  absent : replaced old new_bytes 0 p ≡ p → Found old new_bytes p none
  present :
      (pre : List ℕ) (c : ℕ) (pos : List ℕ)
      → p ≡ pre ++ c ∷ pos
      → starts_with old (c ∷ pos) ≡ true
      → replaced old new_bytes 0 p
        ≡ pre ++ (new_bytes ++ replaced old new_bytes (length old - 1) pos)
      → Found old new_bytes p (some (pre, c ∷ pos))

-- A text that starts with another has the bytes of it.
starts_with-advance :
    (old p : List ℕ)
    → starts_with old p ≡ true
    → (q : List ℕ) × (advance (length old) p ≡ some q) × (length p ≡ length old + length q)
unfolding advance
starts_with-advance [] p h = (p, refl, omega arith)
starts_with-advance (a ∷ old) [] h = absurd (cc h)
starts_with-advance (a ∷ old) (c ∷ p) h =
    let (q, e, n) = starts_with-advance old p (ground (arith, h)) in (q, e, omega (arith, n))

replaced-advance :
    (old new_bytes : List ℕ) (k : ℕ) (p q : List ℕ)
    → advance k p ≡ some q
    → replaced old new_bytes k p ≡ replaced old new_bytes 0 q
unfolding advance
replaced-advance old new_bytes zero p q h = let e : p ≡ q = cc h in ap (replaced old new_bytes 0) e
replaced-advance old new_bytes (suc k) [] q h = absurd (cc h)
replaced-advance old new_bytes (suc k) (c ∷ p) q h = replaced-advance old new_bytes k p q h

nonzero : (a : ℕ) (o : List ℕ) → c_str (a ∷ o) ≡ a ∷ o → (a == 0) ≡ false
nonzero zero o h = absurd (cc h)
nonzero (suc a) o h = ground arith

Found-cons :
    {old new_bytes p : List ℕ} {r : Option (List ℕ × List ℕ)}
    → (c : ℕ) → (c == 0) ≡ false
    → starts_with old (c ∷ p) ≡ false
    → Found old new_bytes p r
    → Found old new_bytes (c ∷ p) (passed c r)
Found-cons c nz away (absent e) = absent (rw (nz, away, e) refl)
Found-cons c nz away (present pre d pos at_pos starts e) =
    present (c ∷ pre) d pos (ap (λ l. c ∷ l) at_pos) starts (rw (nz, away, e) refl)

strstr-Found :
    (a : ℕ) (o new_bytes p : List ℕ)
    → c_str (a ∷ o) ≡ a ∷ o
    → Found (a ∷ o) new_bytes p (strstr (a ∷ o) p)
unfolding strstr
strstr-Found a o new_bytes [] nz = absent refl
strstr-Found a o new_bytes (c ∷ p) nz = elim (Bool-cases (starts_with (a ∷ o) (c ∷ p))) [
  | inl y ↦
      let z : (c == 0) ≡ false = ground (arith, y, nonzero a o nz) in
      rw (y, strstr) (present [] c p refl y (rw (z, y) refl))
  | inr n ↦ elim (Bool-cases (c == 0)) [
    | inl z ↦ rw (n, z, strstr) (absent (rw z refl))
    | inr z ↦ rw (n, z, strstr) (Found-cons c z n (strstr-Found a o new_bytes p nz))
  ]
]

-- What the two passes do from a pointer on.
pub record IsRun (fuel : ℕ) (old new_bytes p : List ℕ) : Type 0 where
  pub found : ℕ
  pub counted : (k : ℕ) → count_matches fuel old p k ≡ some (k + found)
  pub copied : copy_matches fuel old new_bytes p ≡ some (replaced old new_bytes 0 p)
  pub sizes :
      length (replaced old new_bytes 0 p) + found * length old ≡ length p + found * length new_bytes
  pub unchanged : found ≡ 0 → replaced old new_bytes 0 p ≡ p

Found-IsRun :
    (fuel a : ℕ) (o new_bytes p : List ℕ) (r : Option (List ℕ × List ℕ))
    → c_str (a ∷ o) ≡ a ∷ o
    → length p < suc fuel
    → ((q : List ℕ) → length q < fuel → IsRun fuel (a ∷ o) new_bytes q)
    → strstr (c_str (a ∷ o)) p ≡ r
    → Found (a ∷ o) new_bytes p r
    → IsRun (suc fuel) (a ∷ o) new_bytes p
unfolding count_matches copy_matches advance
Found-IsRun fuel a o new_bytes p _ nz size later e (absent same) = record {
  found = 0;
  counted = λ k. rw (e, count_matches) (ap some (omega arith));
  copied = rw (e, copy_matches, same) refl;
  sizes = omega (arith, ap length same);
  unchanged = λ z. same;
}
Found-IsRun fuel a o new_bytes p _ nz size later e (present pre c pos at_pos starts same) =
    let (q, moved, n) = starts_with-advance (a ∷ o) (c ∷ pos) starts in
    let m = ap length at_pos ∙ length-append pre (c ∷ pos) in
    let rest = later q (omega (arith, m, n)) in
    let tail = replaced-advance (a ∷ o) new_bytes (length o) pos q moved in
    let less : length (a ∷ o) - 1 ≡ length o = omega arith in
    let all : replaced (a ∷ o) new_bytes 0 p
        ≡ pre ++ (new_bytes ++ replaced (a ∷ o) new_bytes 0 q) =
      same
      ∙ ap (λ l. pre ++ (new_bytes ++ l))
          (ap (λ k. replaced (a ∷ o) new_bytes k pos) less ∙ tail) in
    let written = ap length all ∙ length-append pre (new_bytes ++ replaced (a ∷ o) new_bytes 0 q) in
    let inner = length-append new_bytes (replaced (a ∷ o) new_bytes 0 q) in
    record {
      found = suc rest.found;
      counted = λ k. rw (e, count_matches, moved) (rest.counted (k + 1) ∙ ap some (omega arith));
      copied = rw (e, copy_matches, moved, rest.copied, all) refl;
      sizes = grind (arith, written, inner, m, n, rest.sizes);
      unchanged = λ z. absurd (omega (arith, z));
    }

pub run_lem :
    (fuel a : ℕ) (o new_bytes p : List ℕ)
    → c_str (a ∷ o) ≡ a ∷ o
    → length p < fuel
    → IsRun fuel (a ∷ o) new_bytes p
run_lem zero a o new_bytes p nz size = absurd (omega arith)
run_lem (suc fuel) a o new_bytes p nz size =
    Found-IsRun fuel a o new_bytes p (strstr (c_str (a ∷ o)) p) nz size
      (λ q less. run_lem fuel a o new_bytes q nz less) refl
      (rw nz (strstr-Found a o new_bytes p nz))

sized : (n k m l w d v : ℕ) → d + l ≡ m + v → w + k * l ≡ n + k * m → n + k * d ≡ w + k * v
sized n k m l w d v h e = grind (arith, ap (λ x. k * x) h, e)

-- The size of the buffer is that of what is written.
total_len_lem :
    (n k m l w : ℕ)
    → l < 2 ^ 64
    → m < 2 ^ 64
    → w < 2 ^ 64
    → w + k * l ≡ n + k * m
    → total_len n k m l ≡ w
total_len_lem n k m l w hl hm hw e = elim (dec_lt m l) [
  | yes less ↦
      let inner : (m + 2 ^ 64 - l) % 2 ^ 64 ≡ m + 2 ^ 64 - l = omega arith in
      let s : n + k * (m + 2 ^ 64 - l) ≡ w + k * 2 ^ 64 =
        sized n k m l w (m + 2 ^ 64 - l) (2 ^ 64) (omega arith) e in
      rw (inner, s) (add-mul-mod_self_right w k (2 ^ 64) ∙ omega arith)
  | no more ↦
      let inner : (m + 2 ^ 64 - l) % 2 ^ 64 ≡ m - l = omega arith in
      let s : n + k * (m - l) ≡ w + k * 0 = sized n k m l w (m - l) 0 (omega arith) e in
      rw (inner, s) (omega arith)
]

-- The bytes of what is returned.
abbrev pub text_of : List ℕ → Replaced → Option (List ℕ)
text_of s kept = some s
text_of s (built bytes) = some bytes
text_of s out_of_bounds = none

-- `xt_string_replace` stays inside its buffer, fills it, and returns the text in which the
-- occurrences of `old`, from the left, have given way, if `old` is not empty and holds no zero byte
-- and if the lengths fit in 64 bits.
pub replace-replaced :
    (s old new_bytes : List ℕ)
    → (length old == 0) ≡ false
    → c_str old ≡ old
    → length old < 2 ^ 64
    → length new_bytes < 2 ^ 64
    → length (replaced old new_bytes 0 s) < 2 ^ 64
    → text_of s (replace s old new_bytes) ≡ some (replaced old new_bytes 0 s)
unfolding replace
replace-replaced s [] new_bytes full nz old_size new_size size = absurd (cc full)
replace-replaced s (a ∷ o) new_bytes full nz old_size new_size size =
    let run = run_lem (length s + 1) a o new_bytes s nz (omega arith) in
    let counted : count_matches (length s + 1) (a ∷ o) s 0 ≡ some run.found =
      run.counted 0 ∙ ap some (omega arith) in
    elim (Bool-cases (run.found == 0)) [
      | inl z ↦ rw (full, counted, z) (ap some (sym (run.unchanged (ground (arith, z)))))
      | inr z ↦
          let total =
            total_len_lem (length s) run.found (length new_bytes) (length (a ∷ o))
              (length (replaced (a ∷ o) new_bytes 0 s)) old_size new_size size run.sizes in
          rw (full, counted, z, run.copied, total) (ground arith)
    ]
