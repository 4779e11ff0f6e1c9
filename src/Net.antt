-- ===== src/Net.antt =====
-- runtime/xt_net.c and the methods of a socket in runtime/xt_runtime.c. What the operating system
-- answers is a parameter; the calls that use a socket are listed, in their order.
mod Address
mod Parsed
mod Http
mod Listen
mod Connections
mod Session
mod Buffer
mod Requests
mod Tests
use atlanage.Prelude.{
  ℕ, ◌+◌, ◌-◌, ◌%◌, ◌^◌, ◌++◌, Bool, true, false, List, [], ◌∷◌, Option, none, some, ltb,
}
use atlanage.Prelude.Int.{ℤ, pos, negsuc}
use atlanage.Word.{xt_null, xt_true, from_bool}
use atlanage.Text.Search.{c_str}

-- The calls to the operating system that use a socket.
pub data Call : Type 0 where
  opened : ℕ → Call
  sent : ℕ → List ℕ → Call
  received : ℕ → ℕ → Call
  listening : ℕ → ℕ → Call
  closed : ℕ → Call

-- What the operating system answers: `gethostbyname`, `socket`, `connect` (to an address and a port),
-- `send`, `recv` (up to so many bytes; `none` is an error), the bytes that one `recv` after the other
-- takes until one takes none or fails, `bind`, `listen` and the start of a thread.
pub record Os : Type 0 where
  pub lookup : List ℕ → Option ℕ
  pub socket : Option ℕ
  pub connect : ℕ → ℕ → ℕ → Bool
  pub send : ℕ → List ℕ → ℤ
  pub recv : ℕ → ℕ → Option (List ℕ)
  pub chunks : ℕ → List (List ℕ)
  pub bind : ℕ → ℕ → Bool
  pub listen : ℕ → Bool
  pub thread : Bool

-- `XTSocket`; `XT_INVALID_SOCK` is `none`.
pub record Socket : Type 0 where
  pub sock : Option ℕ
  pub is_closed : Bool
  pub is_listener : Bool

-- `xt_net_new_socket`
abbrev pub new_socket : ℕ → Bool → Socket
new_socket raw listener = record { sock = some raw; is_closed = false; is_listener = listener }

-- `xt_net_close_obj`
abbrev pub close_raw : Option ℕ → List Call
close_raw none = []
close_raw (some raw) = closed raw ∷ []

unfoldable pub close_obj : Socket → Socket × List Call
close_obj s = elim (s.is_closed) [
  | true ↦ (s, [])
  | false ↦ (record s { is_closed = true; sock = none }, close_raw s.sock)
]

-- A number of bytes that is positive.
abbrev pub is_positive : ℤ → Bool
is_positive (pos n) = ltb 0 n
is_positive (negsuc n) = false

-- `n <= 0`
abbrev pub some_bytes : Option (List ℕ) → Option (List ℕ)
some_bytes none = none
some_bytes (some []) = none
some_bytes (some (c ∷ bytes)) = some (c ∷ bytes)

-- What a method returns: null or a number, or a text.
pub data Returned : Type 0 where
  word : ℕ → Returned
  text : List ℕ → Returned

abbrev pub text_or_null : Option (List ℕ) → Returned
text_or_null none = word xt_null
text_or_null (some bytes) = text (c_str bytes)

-- The text of a message; one that is no text is `none`.
abbrev pub message_text : Option (List ℕ) → List ℕ
message_text none = []
message_text (some bytes) = c_str bytes

module _ (os : Os) where
  -- `recv` and `send` on an invalid socket fail.
  abbrev pub recv_raw : Option ℕ → ℕ → Option (List ℕ) × List Call
  recv_raw none max_bytes = (none, [])
  recv_raw (some raw) max_bytes = (os.recv raw max_bytes, received raw max_bytes ∷ [])

  abbrev pub send_raw : Option ℕ → List ℕ → ℤ × List Call
  send_raw none bytes = (negsuc 0, [])
  send_raw (some raw) bytes = (os.send raw bytes, sent raw bytes ∷ [])

  -- `xt_net_read` of an object that is not null
  unfoldable pub read : Socket → ℕ → Option (List ℕ) × List Call
  read s max_bytes = elim (s.is_closed) [
    | true ↦ (none, [])
    | false ↦ let r = recv_raw s.sock max_bytes in (some_bytes r.0, r.1)
  ]

  -- `xt_net_write` of an object that is not null
  unfoldable pub write : Socket → List ℕ → ℤ × List Call
  write s bytes = elim (s.is_closed) [ true ↦ (negsuc 0, []) | false ↦ send_raw s.sock bytes ]

  -- `xt_socket_read_method`
  unfoldable pub read_method : Socket → Returned × List Call
  unfolding read
  read_method s = let r = read s 4096 in (text_or_null r.0, r.1)

  -- `xt_socket_write_method`
  unfoldable pub write_method : Socket → Option (List ℕ) → Returned × List Call
  unfolding write
  write_method s msg =
      let r = write s (message_text msg) in (word (from_bool (is_positive r.0)), r.1)

-- `xt_socket_close_method`
unfoldable pub close_method : Socket → ℕ × (Socket × List Call)
unfolding close_obj
close_method s = (xt_true, close_obj s)
