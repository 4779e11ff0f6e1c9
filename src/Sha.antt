-- ===== src/Sha.antt =====
-- seed/seed_builder.c, lines 26 to 97: SHA-256. An `unsigned int` is a number below 2 ^ 32 and an
-- `unsigned long long` one below 2 ^ 64; `len & 63` is written `len % 64`.
mod Stream
mod Standard
mod Padding
mod Tests
use Prim.Native.Nat.{bit_and, bit_or, bit_xor}
use atlanage.Prelude.{
  ℕ, zero, suc, ◌+◌, ◌-◌, ◌*◌, ◌/◌, ◌%◌, ◌^◌, List, [], ◌∷◌, ◌++◌, min, ◌==◌, if◌then◌else◌, length,
  get_or, set, take, drop, replicate,
}

-- The eight words of the hash, and the working variables `a` to `h` of a block.
pub record Words : Type 0 where
  pub a : ℕ
  pub b : ℕ
  pub c : ℕ
  pub d : ℕ
  pub e : ℕ
  pub f : ℕ
  pub g : ℕ
  pub h : ℕ

-- `Sha256`
pub record Sha256 : Type 0 where
  pub buf : List ℕ
  pub len : ℕ
  pub hash : Words

-- `unsigned int` addition and `~`
abbrev pub add32 : ℕ → ℕ → ℕ
add32 x y = (x + y) % 2 ^ 32

abbrev pub not32 : ℕ → ℕ
not32 x = 2 ^ 32 - 1 - x

-- `sha_rotr`
unfoldable pub rotr : ℕ → ℕ → ℕ
rotr x n = bit_or (x / 2 ^ n) (x * 2 ^ (32 - n) % 2 ^ 32)

abbrev pub xor3 : ℕ → ℕ → ℕ → ℕ
xor3 x y z = bit_xor (bit_xor x y) z

-- `K`
abbrev pub round_constants : List ℕ
round_constants =
    0x428a2f98 ∷ 0x71374491 ∷ 0xb5c0fbcf ∷ 0xe9b5dba5 ∷ 0x3956c25b ∷ 0x59f111f1 ∷ 0x923f82a4
    ∷ 0xab1c5ed5 ∷ 0xd807aa98 ∷ 0x12835b01 ∷ 0x243185be ∷ 0x550c7dc3 ∷ 0x72be5d74 ∷ 0x80deb1fe
    ∷ 0x9bdc06a7 ∷ 0xc19bf174 ∷ 0xe49b69c1 ∷ 0xefbe4786 ∷ 0x0fc19dc6 ∷ 0x240ca1cc ∷ 0x2de92c6f
    ∷ 0x4a7484aa ∷ 0x5cb0a9dc ∷ 0x76f988da ∷ 0x983e5152 ∷ 0xa831c66d ∷ 0xb00327c8 ∷ 0xbf597fc7
    ∷ 0xc6e00bf3 ∷ 0xd5a79147 ∷ 0x06ca6351 ∷ 0x14292967 ∷ 0x27b70a85 ∷ 0x2e1b2138 ∷ 0x4d2c6dfc
    ∷ 0x53380d13 ∷ 0x650a7354 ∷ 0x766a0abb ∷ 0x81c2c92e ∷ 0x92722c85 ∷ 0xa2bfe8a1 ∷ 0xa81a664b
    ∷ 0xc24b8b70 ∷ 0xc76c51a3 ∷ 0xd192e819 ∷ 0xd6990624 ∷ 0xf40e3585 ∷ 0x106aa070 ∷ 0x19a4c116
    ∷ 0x1e376c08 ∷ 0x2748774c ∷ 0x34b0bcb5 ∷ 0x391c0cb3 ∷ 0x4ed8aa4a ∷ 0x5b9cca4f ∷ 0x682e6ff3
    ∷ 0x748f82ee ∷ 0x78a5636f ∷ 0x84c87814 ∷ 0x8cc70208 ∷ 0x90befffa ∷ 0xa4506ceb ∷ 0xbef9a3f7
    ∷ 0xc67178f2 ∷ []

-- `w[0]` to `w[15]`: `rounds` words of four bytes each, from byte `i` on.
unfoldable pub load_words : ℕ → ℕ → List ℕ → List ℕ
load_words zero i p = []
load_words (suc rounds) i p =
    bit_or (bit_or (get_or p i 0 * 2 ^ 24) (get_or p (i + 1) 0 * 2 ^ 16))
      (bit_or (get_or p (i + 2) 0 * 2 ^ 8) (get_or p (i + 3) 0))
    ∷ load_words rounds (i + 4) p

-- `w[16]` to `w[63]`, from index `i` on.
unfoldable pub extend : ℕ → ℕ → List ℕ → List ℕ
unfolding rotr
extend zero i w = w
extend (suc rounds) i w =
    let w15 = get_or w (i - 15) 0 in
    let w2 = get_or w (i - 2) 0 in
    let s0 = xor3 (rotr w15 7) (rotr w15 18) (w15 / 2 ^ 3) in
    let s1 = xor3 (rotr w2 17) (rotr w2 19) (w2 / 2 ^ 10) in
    extend rounds (i + 1)
      (w ++ add32 (add32 (add32 (get_or w (i - 16) 0) s0) (get_or w (i - 7) 0)) s1 ∷ [])

-- One of the 64 rounds, with its constant and its word.
unfoldable pub round : Words → ℕ → ℕ → Words
unfolding rotr
round v k w =
    let s1 = xor3 (rotr v.e 6) (rotr v.e 11) (rotr v.e 25) in
    let ch = bit_xor (bit_and v.e v.f) (bit_and (not32 v.e) v.g) in
    let t1 = add32 (add32 (add32 (add32 v.h s1) ch) k) w in
    let s0 = xor3 (rotr v.a 2) (rotr v.a 13) (rotr v.a 22) in
    let maj = xor3 (bit_and v.a v.b) (bit_and v.a v.c) (bit_and v.b v.c) in
    let t2 = add32 s0 maj in
    record {
      a = add32 t1 t2;
      b = v.a;
      c = v.b;
      d = v.c;
      e = add32 v.d t1;
      f = v.e;
      g = v.f;
      h = v.g;
    }

unfoldable pub rounds : Words → List ℕ → List ℕ → Words
unfolding round
rounds v (k ∷ ks) (w ∷ ws) = rounds (round v k w) ks ws
rounds v [] ws = v
rounds v (k ∷ ks) [] = v

-- `sha_block` on the hash and the bytes of a block.
unfoldable pub block : Words → List ℕ → Words
unfolding load_words extend rounds
block s p =
    let v = rounds s round_constants (extend 48 16 (load_words 16 0 p)) in
    record {
      a = add32 s.a v.a;
      b = add32 s.b v.b;
      c = add32 s.c v.c;
      d = add32 s.d v.d;
      e = add32 s.e v.e;
      f = add32 s.f v.f;
      g = add32 s.g v.g;
      h = add32 s.h v.h;
    }

-- `sha_init`; the buffer is not initialised, and no byte of it is read before it is written.
unfoldable pub init : Sha256
init = record {
  buf = replicate 64 0;
  len = 0;
  hash = record {
    a = 0x6a09e667;
    b = 0xbb67ae85;
    c = 0x3c6ef372;
    d = 0xa54ff53a;
    e = 0x510e527f;
    f = 0x9b05688c;
    g = 0x1f83d9ab;
    h = 0x5be0cd19;
  };
}

-- `memcpy` into a buffer from index `i` on.
unfoldable pub copy : List ℕ → ℕ → List ℕ → List ℕ
copy buf i [] = buf
copy buf i (x ∷ xs) = copy (set buf i x) (i + 1) xs

-- The block at the end of a round of `sha_update`, when the buffer is full.
unfoldable pub flush : Sha256 → Sha256
flush s = if s.len % 64 == 0 then record s { hash = block s.hash s.buf } else s

-- The loop of `sha_update`, on fuel: each round takes at least one byte.
unfoldable pub update_loop : ℕ → Sha256 → List ℕ → Sha256
unfolding copy flush
update_loop zero s p = s
update_loop (suc fuel) s p =
    let off = s.len % 64 in
    let n = min (64 - off) (length p) in
    let s' = flush (record s { buf = copy s.buf off (take n p); len = (s.len + n) % 2 ^ 64 }) in
    let rest = update_loop fuel s' (drop n p) in if length p == 0 then s else rest

-- `sha_update`
unfoldable pub update : Sha256 → List ℕ → Sha256
unfolding update_loop
update s p = update_loop (length p) s p

-- `while ((len & 63) != 56) sha_update(s, &zero, 1)`, on fuel.
unfoldable pub pad_loop : ℕ → Sha256 → Sha256
unfolding update
pad_loop zero s = s
pad_loop (suc fuel) s =
    let rest = pad_loop fuel (update s (0 ∷ [])) in if s.len % 64 == 56 then s else rest

-- The eight bytes of a number, the highest first, and the four.
unfoldable pub bytes8 : ℕ → List ℕ
bytes8 n =
    n / 2 ^ 56 % 256
    ∷ n / 2 ^ 48 % 256
    ∷ n / 2 ^ 40 % 256
    ∷ n / 2 ^ 32 % 256
    ∷ n / 2 ^ 24 % 256
    ∷ n / 2 ^ 16 % 256
    ∷ n / 2 ^ 8 % 256
    ∷ n % 256
    ∷ []

unfoldable pub bytes4 : ℕ → List ℕ
bytes4 n = n / 2 ^ 24 % 256 ∷ n / 2 ^ 16 % 256 ∷ n / 2 ^ 8 % 256 ∷ n % 256 ∷ []

-- `sha_final` up to the output: the state after the padding. One byte of padding is always there,
-- and at most 63 zeros follow it.
unfoldable pub pad : Sha256 → Sha256
unfolding pad_loop bytes8
pad s = update (pad_loop 64 (update s (0x80 ∷ []))) (bytes8 (s.len * 8 % 2 ^ 64))

-- The output of `sha_final`.
unfoldable pub digest : Words → List ℕ
unfolding bytes4
digest v =
    bytes4 v.a
    ++ (bytes4 v.b
        ++ (bytes4 v.c
            ++ (bytes4 v.d ++ (bytes4 v.e ++ (bytes4 v.f ++ (bytes4 v.g ++ bytes4 v.h))))))

-- `sha_final`
unfoldable pub final : Sha256 → List ℕ
unfolding pad digest
final s = digest (pad s).hash
