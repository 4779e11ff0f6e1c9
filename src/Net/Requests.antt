-- ===== src/Net/Requests.antt =====
-- `xt_net_http_get` and `xt_http_request`: their sockets, and what they answer.
use atlanage.Prelude.{
  ℕ, ◌≡◌, ◌∙◌, refl, sym, ap, true, false, List, [], ◌∷◌, ◌++◌, append_assoc, Option, none, some,
  Bool-cases, inl, inr, arith, ◌==◌, if◌then◌else◌, length, length-append, drop,
}
use atlanage.Text.Search.{c_str, starts_with, strstr}
use atlanage.Net.{Call, opened, sent, received, closed, Os, is_positive}
use atlanage.Net.Address.{Address, parse_url, port_bits}
use atlanage.Net.Buffer.{taken, receive-taken}
use atlanage.Text.Found.{extended, strstr-append}
use atlanage.Net.Http.{
  http_prefix, request_of, crlf, HttpBuf, buf_add, receive, body_of, connected, resolved,
  create_connection, exchange, requested, http_get, success, failure, is_error, result_of,
  http_request,
}

-- The calls send to the socket and receive from it.
abbrev pub AreUses : ℕ → List Call → Type 0
AreUses sock [] = Unit
AreUses sock (sent s bytes ∷ calls) = (s ≡ sock) × AreUses sock calls
AreUses sock (received s size ∷ calls) = (s ≡ sock) × AreUses sock calls
AreUses sock (_ ∷ calls) = ⊥

-- No socket is opened, or one is; it is used, then closed, and not touched any more.
pub data IsTidy : List Call → Type 0 where
  unused : IsTidy []
  used :
      (sock : ℕ) (calls : List Call)
      → AreUses sock calls
      → IsTidy (opened sock ∷ calls ++ closed sock ∷ [])

AreUses-receive :
    (sock : ℕ) (chunks : List (List ℕ)) (b : HttpBuf) → AreUses sock (receive sock chunks b).1
unfolding receive
AreUses-receive sock [] b = (refl, tt)
AreUses-receive sock ([] ∷ chunks) b = (refl, tt)
AreUses-receive sock ((c ∷ chunk) ∷ chunks) b =
    (refl, AreUses-receive sock chunks (buf_add b (c ∷ chunk)))

connected-IsTidy :
    (os : Os) (a : Address) (sock : Option ℕ) (address port : ℕ)
    → IsTidy (requested os a (connected os sock address port)).1
unfolding exchange
connected-IsTidy os a none address port = unused
connected-IsTidy os a (some sock) address port = elim (Bool-cases (os.connect sock address port)) [
  | inr e ↦ rw e (used sock [] tt)
  | inl e ↦ elim (Bool-cases (is_positive (os.send sock (request_of a)))) [
    | inl y ↦
        let r = receive sock (os.chunks sock) (record { data_bytes = []; cap = 0 }) in
        rw (e, y)
          (used sock (sent sock (request_of a) ∷ r.1)
            (refl, AreUses-receive sock (os.chunks sock) (record { data_bytes = []; cap = 0 })))
    | inr y ↦ rw (e, y) (used sock (sent sock (request_of a) ∷ []) (refl, tt))
  ]
]

resolved-IsTidy :
    (os : Os) (a : Address) (address : Option ℕ) (port : ℕ)
    → IsTidy (requested os a (resolved os address port)).1
resolved-IsTidy os a none port = unused
resolved-IsTidy os a (some address) port = connected-IsTidy os a os.socket address port

-- Whatever the operating system answers, `xt_net_http_get` opens at most one socket, and closes it
-- exactly once, after all its calls of `send` and `recv`, which all use this socket.
pub http_get-IsTidy : (os : Os) (url : Option (List ℕ)) → IsTidy (http_get os url).1
unfolding http_get create_connection
http_get-IsTidy os none = unused
http_get-IsTidy os (some url) =
    let a = parse_url (drop 7 url) in
    let answer = resolved-IsTidy os a (os.lookup a.host) (port_bits a.port) in
    elim (Bool-cases (starts_with http_prefix url)) [ inl e ↦ rw e answer | inr e ↦ rw e unused ]

-- The host is found and takes the connection and the request, and this is what it answers.
pub record IsAnswered (os : Os) (a : Address) (response : List ℕ) : Type 0 where
  pub address : ℕ
  pub sock : ℕ
  pub resolves : os.lookup a.host ≡ some address
  pub opens : os.socket ≡ some sock
  pub connects : os.connect sock address (port_bits a.port) ≡ true
  pub sends : is_positive (os.send sock (request_of a)) ≡ true
  pub answers : taken (os.chunks sock) ≡ response

http_get_lem :
    (os : Os) (url response : List ℕ)
    → starts_with http_prefix url ≡ true
    → IsAnswered os (parse_url (drop 7 url)) response
    → (cap : ℕ) × ((http_get os (some url)).0
        ≡ body_of (record { data_bytes = response; cap = cap }))
unfolding http_get create_connection exchange
http_get_lem os url response http h =
    let b = (receive h.sock (os.chunks h.sock) (record { data_bytes = []; cap = 0 })).0 in
    let e =
      receive-taken h.sock (os.chunks h.sock) (record { data_bytes = []; cap = 0 }) ∙ h.answers in
    (
      b.cap,
      rw (http, h.resolves, h.opens, h.connects, h.sends)
          (ap (λ d. body_of (record { data_bytes = d; cap = b.cap })) e),
    )

c_str-zero : (p : List ℕ) → c_str (p ++ 0 ∷ []) ≡ c_str p
c_str-zero [] = refl
c_str-zero (c ∷ p) = rw (c_str-zero p) refl

-- The headers end at the first blank line.
body_of_lem :
    (headers body : List ℕ) (cap : ℕ)
    → strstr (crlf ++ crlf) (headers ++ (crlf ++ crlf)) ≡ some (headers, crlf ++ crlf)
    → body_of (record { data_bytes = headers ++ (crlf ++ (crlf ++ body)); cap = cap }) ≡ c_str body
unfolding body_of buf_add
body_of_lem headers body cap h =
    let found =
      strstr-append b'\r' (b'\n' ∷ crlf) (headers ++ (crlf ++ crlf)) (body ++ 0 ∷ []) (rw h refl) in
    let whole = append_assoc headers (crlf ++ (crlf ++ body)) (0 ∷ []) in
    let size = length-append headers (crlf ++ (crlf ++ body)) in
    let full : (length (headers ++ (crlf ++ (crlf ++ body))) == 0) ≡ false = ground (arith, size) in
    let at_body : strstr (crlf ++ crlf) (headers ++ (crlf ++ (crlf ++ (body ++ 0 ∷ []))))
        ≡ some (headers, crlf ++ (crlf ++ (body ++ 0 ∷ []))) =
      ap (strstr (crlf ++ crlf)) (sym (append_assoc headers (crlf ++ crlf) (body ++ 0 ∷ [])))
      ∙ found.1
      ∙ ap (extended (body ++ 0 ∷ [])) h in
    rw (full, whole, at_body) (c_str-zero body)

-- If the host answers with headers, a blank line and a body, `xt_http_request` returns the body up
-- to its first zero byte: as a failure if it starts with a text of an error or with `HTTP`, and as
-- a success otherwise.
pub http_request-body :
    (os : Os) (url headers body : List ℕ)
    → starts_with http_prefix (c_str url) ≡ true
    → strstr (crlf ++ crlf) (headers ++ (crlf ++ crlf)) ≡ some (headers, crlf ++ crlf)
    → IsAnswered os (parse_url (drop 7 (c_str url))) (headers ++ (crlf ++ (crlf ++ body)))
    → http_request os (some url)
      ≡ (if is_error (c_str body) then failure (c_str body) else success (c_str body))
unfolding http_request
http_request-body os url headers body http blank h =
    let (cap, e) = http_get_lem os (c_str url) (headers ++ (crlf ++ (crlf ++ body))) http h in
    ap (λ resp. result_of (some resp)) (e ∙ body_of_lem headers body cap blank)
