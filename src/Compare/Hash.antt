-- ===== src/Compare/Hash.antt =====
-- Equal keys hash alike, as long as no text holds a zero byte.
use atlanage.Prelude.{ℕ, ◌≡◌, arith, ap}
use atlanage.Word.{Memory}
use atlanage.Compare.{hash_value, hash_bytes}
use atlanage.Compare.Equality.{c_string, key_of}

-- The text of the value, if it is one, has no zero byte within its length.
abbrev pub HasPlainText : Memory → ℕ → Type 0
HasPlainText m v = c_string (m.string_data v) ≡ m.string_data v

-- Values that `xt_eq` takes for equal have one hash, if no text among the two has a zero byte within
-- its length.
pub hash_value-key_of :
    (m : Memory) (a b : ℕ)
    → HasPlainText m a
    → HasPlainText m b
    → key_of m a ≡ key_of m b
    → hash_value m a ≡ hash_value m b
unfolding hash_value key_of
hash_value-key_of m a b pa pb e = ground (arith, ap (hash_bytes 5381) pa, ap (hash_bytes 5381) pb)
