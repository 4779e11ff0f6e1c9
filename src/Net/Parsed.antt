-- ===== src/Net/Parsed.antt =====
-- Printed addresses are read back.
use atlanage.Prelude.{
  ℕ, suc, ◌+◌, ◌^◌, ◌≡◌, ◌<◌, ◌∙◌, refl, sym, ap, Bool, true, false, ◌||◌, List, [], ◌∷◌, ◌++◌,
  append_assoc, append-nil, some, arith, ltb, ◌==◌, min, length, take, drop, length-append,
}
use atlanage.Prelude.Int.{pos}
use atlanage.Json.Value.{decimal}
use atlanage.Json.Parser.{is_digit}
use atlanage.Json.Decimal.{AreDigits, decimal-AreDigits}
use atlanage.Convert.Numbers.{number_of, ascii_to_int}
use atlanage.Convert.Decimal.{ascii_to_int-decimal}
use atlanage.Net.Address.{index_of, host_size, host_of, parse_url, parse_address}

abbrev pub has_byte : ℕ → List ℕ → Bool
has_byte c [] = false
has_byte c (d ∷ p) = (d == c) || has_byte c p

index_of-append :
    (c : ℕ) (p q : List ℕ) → has_byte c p ≡ false → index_of c (p ++ c ∷ q) ≡ some (length p)
unfolding index_of
index_of-append c [] q h = let e : (c == c) ≡ true = ground arith in rw e refl
index_of-append c (d ∷ p) q h =
    let e : (d == c) ≡ false = ground (arith, h) in
    rw (e, index_of-append c p q (ground (arith, h))) refl

has_byte-append : (c : ℕ) (p q : List ℕ) → has_byte c (p ++ q) ≡ (has_byte c p || has_byte c q)
has_byte-append c [] q = refl
has_byte-append c (d ∷ p) q = ground (arith, has_byte-append c p q)

has_byte-AreDigits :
    (c : ℕ) (ds : List ℕ) → is_digit c ≡ false → AreDigits ds → has_byte c ds ≡ false
has_byte-AreDigits c [] n h = refl
has_byte-AreDigits c (d ∷ ds) n (h, hs) = ground (arith, n, h, has_byte-AreDigits c ds n hs)

take-append : (p q : List ℕ) → take (length p) (p ++ q) ≡ p
take-append [] q = refl
take-append (c ∷ p) q = ap (λ (r : List ℕ). c ∷ r) (take-append p q)

drop-append : (p q : List ℕ) → drop (length p) (p ++ q) ≡ q
drop-append [] q = refl
drop-append (c ∷ p) q = drop-append p q

drop-append_suc : (p q : List ℕ) (c : ℕ) → drop (length p + 1) (p ++ c ∷ q) ≡ q
drop-append_suc p q c =
    let e : length p + 1 ≡ length (p ++ c ∷ []) = omega (arith, length-append p (c ∷ [])) in
    rw e (
      ap (drop (length (p ++ c ∷ []))) (sym (append_assoc p (c ∷ []) q))
      ∙ drop-append (p ++ c ∷ []) q)

-- A host that fits in its buffer.
host_of_lem : (p q : List ℕ) → length p < host_size → host_of (length p) (p ++ q) ≡ p
host_of_lem p q h = let e : min (length p) 255 ≡ length p = omega arith in rw e (take-append p q)

-- `xt_net_http_get` reads the host, the port and the path of a URL in which they are written one
-- after the other, if the host fits in its buffer and has neither a colon nor a slash and if an
-- `int` holds the port.
pub parse_url-decimal :
    (host path : List ℕ) (n : ℕ)
    → has_byte b':' host ≡ false
    → has_byte b'/' host ≡ false
    → length host < host_size
    → n < 2 ^ 31
    → parse_url (host ++ b':' ∷ (decimal n ++ b'/' ∷ path))
      ≡ record { host = host; port = pos n; path = b'/' ∷ path }
unfolding parse_url number_of
parse_url-decimal host path n no_colon no_slash short h =
    let front = host ++ b':' ∷ decimal n in
    let whole : front ++ b'/' ∷ path ≡ host ++ b':' ∷ (decimal n ++ b'/' ∷ path) =
      append_assoc host (b':' ∷ decimal n) (b'/' ∷ path) in
    let clear : has_byte b'/' front ≡ false =
      has_byte-append b'/' host (b':' ∷ decimal n)
      ∙ rw (no_slash, has_byte-AreDigits b'/' (decimal n) refl (decimal-AreDigits n)) refl in
    let colon = index_of-append b':' host (decimal n ++ b'/' ∷ path) no_colon in
    let slash = ap (index_of b'/') (sym whole) ∙ index_of-append b'/' front path clear in
    let before : ltb (length host) (length front) ≡ true =
      ground (arith, length-append host (b':' ∷ decimal n)) in
    let rest = ap (drop (length front)) (sym whole) ∙ drop-append front (b'/' ∷ path) in
    let port =
      ap ascii_to_int (drop-append_suc host (decimal n ++ b'/' ∷ path) b':')
      ∙ ascii_to_int-decimal n (b'/' ∷ path) (omega arith) refl in
    rw
      (colon, slash, before, host_of_lem host (b':' ∷ (decimal n ++ b'/' ∷ path)) short, rest, port)
      refl

-- `xt_connect` reads the host and the port of an address in which they are written one after the
-- other, if the host fits in its buffer and has no colon and if the port is not zero and an
-- `int` holds it.
pub parse_address-decimal :
    (host : List ℕ) (n : ℕ)
    → has_byte b':' host ≡ false
    → length host < host_size
    → suc n < 2 ^ 31
    → parse_address (host ++ b':' ∷ decimal (suc n)) ≡ (host, pos (suc n))
unfolding parse_address number_of
parse_address-decimal host n no_colon short h =
    let colon = index_of-append b':' host (decimal (suc n)) no_colon in
    let port =
      ap ascii_to_int
        (drop-append_suc host (decimal (suc n)) b':' ∙ sym (append-nil (decimal (suc n))))
      ∙ ascii_to_int-decimal (suc n) [] (omega arith) refl in
    rw (colon, host_of_lem host (b':' ∷ decimal (suc n)) short, port) refl
