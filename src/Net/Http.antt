-- ===== src/Net/Http.antt =====
-- `xt_net_http_get` and `xt_http_request`. A text is the list of the bytes before its zero byte.
use atlanage.Prelude.{
  ℕ, ◌+◌, ◌-◌, ◌*◌, Bool, ◌||◌, List, [], ◌∷◌, ◌++◌, Option, none, some, leb, ◌==◌, if◌then◌else◌,
  length, take, drop,
}
use atlanage.Prelude.Int.{ℤ}
use atlanage.Json.Value.{print_int}
use atlanage.Text.Search.{c_str, starts_with, strstr}
use atlanage.Net.{Call, opened, sent, received, closed, Os, is_positive}
use atlanage.Net.Address.{Address, parse_url, port_bits}

-- "http://", and the texts of the errors: "不支持" with "的协议: ", "无法" with "连接到 ", "发送" with
-- "请求失败", "响应为空", "无效", and "HTTP".
abbrev pub http_prefix : List ℕ
http_prefix = b'h' ∷ b't' ∷ b't' ∷ b'p' ∷ b':' ∷ b'/' ∷ b'/' ∷ []

abbrev pub not_supported : List ℕ
not_supported = 0xe4 ∷ 0xb8 ∷ 0x8d ∷ 0xe6 ∷ 0x94 ∷ 0xaf ∷ 0xe6 ∷ 0x8c ∷ 0x81 ∷ []

abbrev protocol : List ℕ
protocol = 0xe7 ∷ 0x9a ∷ 0x84 ∷ 0xe5 ∷ 0x8d ∷ 0x8f ∷ 0xe8 ∷ 0xae ∷ 0xae ∷ b':' ∷ b' ' ∷ []

abbrev pub cannot : List ℕ
cannot = 0xe6 ∷ 0x97 ∷ 0xa0 ∷ 0xe6 ∷ 0xb3 ∷ 0x95 ∷ []

abbrev pub connect_to : List ℕ
connect_to = 0xe8 ∷ 0xbf ∷ 0x9e ∷ 0xe6 ∷ 0x8e ∷ 0xa5 ∷ 0xe5 ∷ 0x88 ∷ 0xb0 ∷ b' ' ∷ []

abbrev pub sending : List ℕ
sending = 0xe5 ∷ 0x8f ∷ 0x91 ∷ 0xe9 ∷ 0x80 ∷ 0x81 ∷ []

abbrev pub request_failed : List ℕ
request_failed =
    0xe8 ∷ 0xaf ∷ 0xb7 ∷ 0xe6 ∷ 0xb1 ∷ 0x82 ∷ 0xe5 ∷ 0xa4 ∷ 0xb1 ∷ 0xe8 ∷ 0xb4 ∷ 0xa5 ∷ []

abbrev pub empty_response : List ℕ
empty_response =
    0xe5 ∷ 0x93 ∷ 0x8d ∷ 0xe5 ∷ 0xba ∷ 0x94 ∷ 0xe4 ∷ 0xb8 ∷ 0xba ∷ 0xe7 ∷ 0xa9 ∷ 0xba ∷ []

abbrev pub not_valid : List ℕ
not_valid = 0xe6 ∷ 0x97 ∷ 0xa0 ∷ 0xe6 ∷ 0x95 ∷ 0x88 ∷ []

abbrev pub http_text : List ℕ
http_text = b'H' ∷ b'T' ∷ b'T' ∷ b'P' ∷ []

-- "(null)"
abbrev null_text : List ℕ
null_text = b'(' ∷ b'n' ∷ b'u' ∷ b'l' ∷ b'l' ∷ b')' ∷ []

abbrev pub crlf : List ℕ
crlf = b'\r' ∷ b'\n' ∷ []

-- "GET ", " HTTP/1.1", "Host: " and "Connection: close" in the request.
abbrev pub request_text : List ℕ → List ℕ → List ℕ
request_text path host =
    (b'G' ∷ b'E' ∷ b'T' ∷ b' ' ∷ [])
    ++ (path
        ++ ((b' ' ∷ b'H' ∷ b'T' ∷ b'T' ∷ b'P' ∷ b'/' ∷ b'1' ∷ b'.' ∷ b'1' ∷ [])
            ++ (crlf
                ++ ((b'H' ∷ b'o' ∷ b's' ∷ b't' ∷ b':' ∷ b' ' ∷ [])
                    ++ (host
                        ++ (crlf
                            ++ ((b'C' ∷ b'o' ∷ b'n' ∷ b'n' ∷ b'e' ∷ b'c' ∷ b't' ∷ b'i' ∷ b'o' ∷ b'n'
                                  ∷ b':' ∷ b' ' ∷ b'c' ∷ b'l' ∷ b'o' ∷ b's' ∷ b'e' ∷ [])
                                ++ (crlf ++ crlf))))))))

-- `snprintf` to a buffer of so many bytes, the last of which is a zero byte.
abbrev pub snprintf : ℕ → List ℕ → List ℕ
snprintf size bytes = take (size - 1) bytes

abbrev pub unsupported_text : List ℕ → List ℕ
unsupported_text url = snprintf 256 (not_supported ++ (protocol ++ url))

abbrev pub cannot_text : Address → List ℕ
cannot_text a = snprintf 256 (cannot ++ (connect_to ++ (a.host ++ b':' ∷ print_int a.port)))

abbrev pub request_of : Address → List ℕ
request_of a = snprintf 1024 (request_text a.path a.host)

-- `http_buf`; `len` is the number of its bytes.
pub record HttpBuf : Type 0 where
  pub data_bytes : List ℕ
  pub cap : ℕ

-- `buf_add`; a size that no `int` holds is undefined in C, and is the number here.
unfoldable pub buf_add : HttpBuf → List ℕ → HttpBuf
buf_add b d =
    let n = length d in
    let grown = if leb b.cap (length b.data_bytes + n) then (b.cap + n) * 2 else b.cap in
    record { data_bytes = b.data_bytes ++ d; cap = grown }

-- `sizeof(chunk)-1`
abbrev pub chunk_size : ℕ
chunk_size = 4096 - 1

-- The loop over `recv`, by the bytes that its calls take: the call that takes none ends it.
unfoldable pub receive : ℕ → List (List ℕ) → HttpBuf → HttpBuf × List Call
unfolding buf_add
receive sock [] b = (b, received sock chunk_size ∷ [])
receive sock ([] ∷ chunks) b = (b, received sock chunk_size ∷ [])
receive sock ((c ∷ chunk) ∷ chunks) b =
    let (all, calls) = receive sock chunks (buf_add b (c ∷ chunk)) in
    (all, received sock chunk_size ∷ calls)

-- What is returned for the bytes of a response and the zero byte behind them.
abbrev pub after_blank : Option (List ℕ × List ℕ) → List ℕ → List ℕ
after_blank none bytes = c_str bytes
after_blank (some (headers, pos)) bytes = c_str (drop 4 pos)

unfoldable pub body_of : HttpBuf → List ℕ
unfolding strstr buf_add
body_of b =
    let bytes = (buf_add b (0 ∷ [])).data_bytes in
    if length b.data_bytes == 0
    then empty_response
    else after_blank (strstr (crlf ++ crlf) bytes) bytes

module _ (os : Os) where
  -- `create_connection` from the address that `resolve_host` finds
  abbrev pub connected : Option ℕ → ℕ → ℕ → Option ℕ × List Call
  connected none address port = (none, [])
  connected (some sock) address port =
      if os.connect sock address port
      then (some sock, opened sock ∷ [])
      else (none, opened sock ∷ closed sock ∷ [])

  abbrev pub resolved : Option ℕ → ℕ → Option ℕ × List Call
  resolved none port = (none, [])
  resolved (some address) port = connected os.socket address port

  -- `create_connection`
  unfoldable pub create_connection : List ℕ → ℤ → Option ℕ × List Call
  create_connection host port = resolved (os.lookup host) (port_bits port)

  -- The part of `xt_net_http_get` that has a socket.
  unfoldable pub exchange : Address → ℕ → List ℕ × List Call
  unfolding receive body_of
  exchange a sock =
      let req = request_of a in
      let (response, calls) = receive sock (os.chunks sock) (record { data_bytes = []; cap = 0 }) in
      if is_positive (os.send sock req)
      then (body_of response, sent sock req ∷ calls ++ closed sock ∷ [])
      else (sending ++ request_failed, sent sock req ∷ closed sock ∷ [])

  abbrev pub requested : Address → Option ℕ × List Call → List ℕ × List Call
  requested a (none, calls) = (cannot_text a, calls)
  requested a (some sock, calls) = let r = exchange a sock in (r.0, calls ++ r.1)

  -- `xt_net_http_get`; a null pointer is `none`.
  unfoldable pub http_get : Option (List ℕ) → List ℕ × List Call
  unfolding create_connection exchange
  http_get none = (unsupported_text null_text, [])
  http_get (some url) =
      let a = parse_url (drop 7 url) in
      let answer = requested a (create_connection a.host a.port) in
      if starts_with http_prefix url then answer else (unsupported_text url, [])

-- `XTResult` with a text.
pub data Result : Type 0 where
  success failure : List ℕ → Result

-- The texts that `xt_http_request` takes for errors.
abbrev pub is_error : List ℕ → Bool
is_error resp =
    starts_with not_supported resp
    || starts_with cannot resp
    || starts_with http_text resp
    || starts_with sending resp

abbrev pub result_of : Option (List ℕ) → Result
result_of none = failure request_failed
result_of (some resp) = if is_error resp then failure resp else success resp

-- `xt_http_request`; a value that points to no text is `none`.
unfoldable pub http_request : Os → Option (List ℕ) → Result
unfolding http_get
http_request os none = failure (b'U' ∷ b'R' ∷ b'L' ∷ not_valid)
http_request os (some url) = result_of (some (http_get os (some (c_str url))).0)
