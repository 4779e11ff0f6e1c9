-- ===== src/Net/Address.antt =====
-- The addresses in `xt_net_http_get` and `xt_connect`. A text is the list of the bytes before its
-- zero byte.
use atlanage.Prelude.{
  ℕ, zero, suc, ◌+◌, ◌-◌, ◌%◌, ◌^◌, List, [], ◌∷◌, Option, none, some, ltb, ◌==◌, if◌then◌else◌,
  min, length, take, drop,
}
use atlanage.Prelude.Int.{ℤ, pos, negsuc}
use atlanage.Convert.Numbers.{ascii_to_int}

-- `strchr`: the offset of the first such byte.
unfoldable pub index_of : ℕ → List ℕ → Option ℕ
index_of c [] = none
index_of c (d ∷ p) =
    let rest : Option ℕ = elim (index_of c p) [ none ↦ none | some i ↦ some (suc i) ] in
    if d == c then some 0 else rest

-- The host, the port and the path of a URL.
pub record Address : Type 0 where
  pub host : List ℕ
  pub port : ℤ
  pub path : List ℕ

-- A host is cut to the 255 bytes of its buffer.
abbrev pub host_size : ℕ
host_size = 256

abbrev pub host_of : ℕ → List ℕ → List ℕ
host_of size p = take (min size (host_size - 1)) p

abbrev pub slash_path : Option ℕ → List ℕ → List ℕ
slash_path none p = b'/' ∷ []
slash_path (some i) p = drop i p

-- A colon that stands before each slash.
abbrev pub port_colon : Option ℕ → Option ℕ → Option ℕ
port_colon none slash = none
port_colon (some i) none = some i
port_colon (some i) (some j) = if ltb i j then some i else none

abbrev pub host_port : Option ℕ → Option ℕ → List ℕ → List ℕ × ℤ
host_port (some i) slash p = (host_of i p, ascii_to_int (drop (i + 1) p))
host_port none (some j) p = (host_of j p, pos 80)
host_port none none p = (host_of (length p) p, pos 80)

-- The part of `xt_net_http_get` that reads what stands behind `http://`.
unfoldable pub parse_url : List ℕ → Address
unfolding index_of ascii_to_int
parse_url p =
    let slash = index_of b'/' p in
    let parts = host_port (port_colon (index_of b':' p) slash) slash p in
    record { host = parts.0; port = parts.1; path = slash_path slash p }

-- The part of `xt_connect` that reads its address.
abbrev pub port_or_80 : ℤ → ℤ
port_or_80 (pos zero) = pos 80
port_or_80 (pos (suc n)) = pos (suc n)
port_or_80 (negsuc n) = pos 80

unfoldable pub parse_address : List ℕ → List ℕ × ℤ
unfolding index_of ascii_to_int
parse_address p = let parts = host_port (index_of b':' p) none p in (parts.0, port_or_80 parts.1)

-- `(unsigned short)port`
abbrev pub port_bits : ℤ → ℕ
port_bits (pos n) = n % 2 ^ 16
port_bits (negsuc n) = 2 ^ 16 - 1 - n % 2 ^ 16
