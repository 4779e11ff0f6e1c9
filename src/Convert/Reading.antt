-- ===== src/Convert/Reading.antt =====
-- Integers printed and read back.
use atlanage.Prelude.{
  ℕ, suc, ◌-◌, ◌^◌, ◌%◌, ◌≡◌, ◌<◌, ◌∙◌, refl, ap, true, false, List, some, arith, ltb, ◌==◌,
  Bool-cases, inl, inr,
}
use atlanage.Prelude.Int.{pos_part, neg_part}
use atlanage.Word.{Memory, is_int, is_real_ptr, from_int, to_int, signed, value_to_int, type_string}
use atlanage.Word.Exact.{from_int-to_int}
use atlanage.Convert.Numbers.{ascii_to_int, int64}
use atlanage.Convert.Decimal.{ascii_to_int-print_int}
use atlanage.Convert.{Objects, obj_to_string, int_to_string, convert_to_int}

-- `atoll` reads white space, a sign and digits.
pub record HasAtoll (m : Memory) : Type 0 where
  pub reads : (bytes : List ℕ) → m.atoll bytes ≡ int64 (ascii_to_int bytes)

int64-signed : (w : ℕ) → w < 2 ^ 64 → int64 (signed w) ≡ w
int64-signed w h = elim (Bool-cases (ltb w (2 ^ 63))) [
  | inl e ↦ rw e (omega arith)
  | inr e ↦
      let a : (2 ^ 64 - w - 1) % 2 ^ 64 ≡ 2 ^ 64 - w - 1 = omega arith in rw (e, a) (omega arith)
]

to_int-range : (v : ℕ) → v < 2 ^ 64 → to_int v < 2 ^ 64
unfolding to_int
to_int-range v h = ground arith

to_int-short :
    (v : ℕ)
    → v < 2 ^ 64
    → (pos_part (signed (to_int v)) < 10 ^ 19) × (neg_part (signed (to_int v)) < 10 ^ 19)
unfolding to_int
to_int-short v h = (ground arith, ground arith)

-- A text is read by `atoll`.
value_to_int-text :
    (m : Memory) (s : ℕ)
    → is_real_ptr s ≡ true
    → m.type_id s ≡ type_string
    → value_to_int m s ≡ m.atoll (m.string_data s)
unfolding value_to_int
value_to_int-text m s real t =
    let a : is_int s ≡ false = ground (arith, real) in
    let b : (s == 4) ≡ false = ground (arith, real) in
    let c : (s == 2) ≡ false = ground (arith, real) in
    let d : (s == 0) ≡ false = ground (arith, real) in
    let r : ltb 4096 s ≡ true = ground (arith, real) in rw (a, b, c, d, r, t) refl

-- `xt_convert_to_int` reads the text that `xt_obj_to_string` gives for an integer as that integer,
-- if `atoll` reads white space, a sign and digits.
pub convert_to_int-text :
    (o : Objects) (fuel v s : ℕ)
    → HasAtoll o.memory
    → v < 2 ^ 64
    → is_int v ≡ true
    → is_real_ptr s ≡ true
    → o.memory.type_id s ≡ type_string
    → obj_to_string o (suc fuel) v ≡ some (o.memory.string_data s)
    → convert_to_int o.memory s ≡ v
unfolding convert_to_int obj_to_string
convert_to_int-text o fuel v s atoll small tagged real t e =
    let printed : o.memory.string_data s ≡ int_to_string (to_int v) = cc (rw tagged at e) in
    let (p, n) = to_int-short v small in
    let w =
      value_to_int-text o.memory s real t
      ∙ atoll.reads (o.memory.string_data s)
      ∙ ap (λ bytes. int64 (ascii_to_int bytes)) printed
      ∙ ap int64 (ascii_to_int-print_int (signed (to_int v)) p n)
      ∙ int64-signed (to_int v) (to_int-range v small) in
    ap from_int w ∙ from_int-to_int v small tagged
