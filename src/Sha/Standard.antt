-- ===== src/Sha/Standard.antt =====
-- The hash function of FIPS 180-4, section 6.2, as it is written there: constants from the roots of
-- primes, the message schedule, and the step. `sha_block` and `sha_init` compute it. The words of a
-- block and the bytes of a digest are those of Sha.
use Prim.Native.Nat.{bit_and, bit_xor}
use atlanage.Prelude.{
  ℕ, zero, suc, ◌+◌, ◌-◌, ◌*◌, ◌/◌, ◌%◌, ◌^◌, ◌≡◌, ◌∙◌, refl, ap, ap₂, Bool, true, false, List, [],
  ◌∷◌, ◌++◌, arith, leb, ◌==◌, if◌then◌else◌, get_or, take, drop,
}
use atlanage.Sha.{
  Words, rotr, not32, round_constants, load_words, extend, round, rounds, block, init,
}

-- The first primes, from `n` on; `found` are those below it.
abbrev has_divisor : ℕ → List ℕ → Bool
has_divisor n [] = false
has_divisor n (p ∷ ps) = if n % p == 0 then true else has_divisor n ps

abbrev primes_from : ℕ → ℕ → List ℕ → List ℕ
primes_from zero n found = found
primes_from (suc rounds) n found =
    primes_from rounds (n + 1) (if has_divisor n found then found else found ++ n ∷ [])

-- All primes up to 311, the 64th.
abbrev primes : List ℕ
primes = primes_from 310 2 []

-- The largest number below `2 ^ bits` more than `r` whose power with this exponent is at most `n`.
abbrev root : ℕ → ℕ → ℕ → ℕ → ℕ
root zero e n r = r
root (suc bits) e n r = root bits e n (if leb ((r + 2 ^ bits) ^ e) n then r + 2 ^ bits else r)

-- The first 32 bits of the fractional parts of the square and of the cube root.
abbrev sqrt_bits : ℕ → ℕ
sqrt_bits p = root 40 2 (p * 2 ^ 64) 0 % 2 ^ 32

abbrev cbrt_bits : ℕ → ℕ
cbrt_bits p = root 40 3 (p * 2 ^ 96) 0 % 2 ^ 32

abbrev all_bits : (ℕ → ℕ) → List ℕ → List ℕ
all_bits f [] = []
all_bits f (p ∷ ps) = f p ∷ all_bits f ps

abbrev pub words_of : List ℕ → Words
words_of ws = record {
  a = get_or ws 0 0;
  b = get_or ws 1 0;
  c = get_or ws 2 0;
  d = get_or ws 3 0;
  e = get_or ws 4 0;
  f = get_or ws 5 0;
  g = get_or ws 6 0;
  h = get_or ws 7 0;
}

unfoldable pub constants : List ℕ
constants = all_bits cbrt_bits primes

unfoldable pub initial : Words
initial = words_of (all_bits sqrt_bits (take 8 primes))

abbrev ch : ℕ → ℕ → ℕ → ℕ
ch x y z = bit_xor (bit_and x y) (bit_and (not32 x) z)

abbrev maj : ℕ → ℕ → ℕ → ℕ
maj x y z = bit_xor (bit_xor (bit_and x y) (bit_and x z)) (bit_and y z)

-- The sums with capital letters, and those with small ones, where `SHR` is the last part.
abbrev sum : ℕ → ℕ → ℕ → ℕ → ℕ
sum i j k x = bit_xor (bit_xor (rotr x i) (rotr x j)) (rotr x k)

abbrev small_sum : ℕ → ℕ → ℕ → ℕ → ℕ
small_sum i j k x = bit_xor (bit_xor (rotr x i) (rotr x j)) (x / 2 ^ k)

-- The words of the schedule, from the word `t` on.
unfoldable pub schedule : ℕ → ℕ → List ℕ → List ℕ
schedule zero t w = w
schedule (suc n) t w = schedule n (t + 1) (
    w
    ++ (small_sum 17 19 10 (get_or w (t - 2) 0)
          + get_or w (t - 7) 0
          + small_sum 7 18 3 (get_or w (t - 15) 0)
          + get_or w (t - 16) 0)
        % 2 ^ 32
      ∷ [])

unfoldable pub step : Words → ℕ → ℕ → Words
step v k w =
    let t1 = v.h + sum 6 11 25 v.e + ch v.e v.f v.g + k + w in
    let t2 = sum 2 13 22 v.a + maj v.a v.b v.c in
    record {
      a = (t1 + t2) % 2 ^ 32;
      b = v.a;
      c = v.b;
      d = v.c;
      e = (v.d + t1) % 2 ^ 32;
      f = v.e;
      g = v.f;
      h = v.g;
    }

unfoldable pub steps : Words → List ℕ → List ℕ → Words
unfolding step
steps v (k ∷ ks) (w ∷ ws) = steps (step v k w) ks ws
steps v [] ws = v
steps v (k ∷ ks) [] = v

abbrev added : Words → Words → Words
added s v = record {
  a = (s.a + v.a) % 2 ^ 32;
  b = (s.b + v.b) % 2 ^ 32;
  c = (s.c + v.c) % 2 ^ 32;
  d = (s.d + v.d) % 2 ^ 32;
  e = (s.e + v.e) % 2 ^ 32;
  f = (s.f + v.f) % 2 ^ 32;
  g = (s.g + v.g) % 2 ^ 32;
  h = (s.h + v.h) % 2 ^ 32;
}

-- The hash value after a block.
unfoldable pub next_hash : Words → List ℕ → Words
unfolding schedule steps
next_hash s p = added s (steps s constants (schedule 48 16 (load_words 16 0 p)))

-- The hash value of a message of `n` blocks.
unfoldable pub hash_blocks : ℕ → Words → List ℕ → Words
hash_blocks zero v p = v
hash_blocks (suc n) v p = hash_blocks n (next_hash v (take 64 p)) (drop 64 p)

round_constants_lem : round_constants ≡ constants
unfolding constants
round_constants_lem = refl

pub init_lem : init.hash ≡ initial
unfolding init initial
init_lem = refl

extend-schedule : (n t : ℕ) (w : List ℕ) → extend n t w ≡ schedule n t w
unfolding extend schedule
extend-schedule zero t w = refl
extend-schedule (suc n) t w =
    let x = get_or w (t - 15) 0 in
    let y = get_or w (t - 2) 0 in
    let e : (((get_or w (t - 16) 0 + small_sum 7 18 3 x) % 2 ^ 32 + get_or w (t - 7) 0) % 2 ^ 32
            + small_sum 17 19 10 y)
          % 2 ^ 32
        ≡ (small_sum 17 19 10 y + get_or w (t - 7) 0 + small_sum 7 18 3 x + get_or w (t - 16) 0)
          % 2 ^ 32 =
      omega arith in
    extend-schedule n (t + 1) _ ∙ ap (λ (z : ℕ). schedule n (t + 1) (w ++ z ∷ [])) e

-- The sums, taken once.
t1_lem :
    (h s c k w z : ℕ)
    → (z + ((((h + s) % 2 ^ 32 + c) % 2 ^ 32 + k) % 2 ^ 32 + w) % 2 ^ 32) % 2 ^ 32
      ≡ (z + (h + s + c + k + w)) % 2 ^ 32
t1_lem h s c k w z = omega arith

t2_lem :
    (h s c k w x y : ℕ)
    → (((((h + s) % 2 ^ 32 + c) % 2 ^ 32 + k) % 2 ^ 32 + w) % 2 ^ 32 + (x + y) % 2 ^ 32) % 2 ^ 32
      ≡ (h + s + c + k + w + (x + y)) % 2 ^ 32
t2_lem h s c k w x y = omega arith

with_sums : Words → ℕ → ℕ → Words
with_sums v a e = record { a = a; b = v.a; c = v.b; d = v.c; e = e; f = v.e; g = v.f; h = v.g }

round-step : (v : Words) (k w : ℕ) → round v k w ≡ step v k w
unfolding round step with_sums
round-step v k w =
    let s = sum 6 11 25 v.e in
    let c = ch v.e v.f v.g in
    let x = sum 2 13 22 v.a in
    let y = maj v.a v.b v.c in ap₂ (with_sums v) (t2_lem v.h s c k w x y) (t1_lem v.h s c k w v.d)

rounds-steps : (v : Words) (ks ws : List ℕ) → rounds v ks ws ≡ steps v ks ws
unfolding rounds steps
rounds-steps v (k ∷ ks) (w ∷ ws) =
    ap (λ (u : Words). rounds u ks ws) (round-step v k w) ∙ rounds-steps (step v k w) ks ws
rounds-steps v [] ws = refl
rounds-steps v (k ∷ ks) [] = refl

pub block-next_hash : (s : Words) (p : List ℕ) → block s p ≡ next_hash s p
unfolding block next_hash
block-next_hash s p =
    let w = load_words 16 0 p in
    ap (added s) (
      ap (rounds s round_constants) (extend-schedule 48 16 w)
      ∙ ap (λ (ks : List ℕ). rounds s ks (schedule 48 16 w)) round_constants_lem
      ∙ rounds-steps s constants (schedule 48 16 w))
