-- ===== src/Net/Tests.antt =====
-- Requests to one host, "a", at the address 7; the socket is 3. It answers "O\r\n\r\nhi" in two parts.
use atlanage.Prelude.{
  ℕ, ◌≡◌, refl, true, false, List, [], ◌∷◌, ◌++◌, none, some, arith, ◌==◌, replicate,
}
use atlanage.Prelude.Int.{pos}
use atlanage.Text.Search.{strstr}
use atlanage.Json.Value.{decimal}
use atlanage.Net.{opened, sent, received, closed, Os, new_socket}
use atlanage.Net.Address.{parse_url, parse_address}
use atlanage.Net.Parsed.{parse_url-decimal, parse_address-decimal}
use atlanage.Net.Session.{reads, writes, closes, session, session-before_close}
use atlanage.Net.Http.{
  http_prefix, crlf, request_of, empty_response, http_get, http_request, success, failure,
  not_valid,
}
use atlanage.Net.Requests.{http_get-IsTidy, IsTidy, http_request-body}
use atlanage.Net.Listen.{net_listen}
use atlanage.Net.Connections.{IsListening, net_listen-IsListening}

abbrev host_a : List (List ℕ) → Os
host_a chunks = record {
  lookup = λ host. elim host [ [] ↦ none | _ ↦ some 7 ];
  socket = some 3;
  connect = λ sock address port. port == 80;
  send = λ sock bytes. pos 1;
  recv = λ sock max_bytes. some (b'x' ∷ []);
  chunks = λ sock. chunks;
  bind = λ sock port. true;
  listen = λ sock. true;
  thread = true;
}

abbrev response : List (List ℕ)
response = (b'O' ∷ b'\r' ∷ []) ∷ (b'\n' ∷ b'\r' ∷ b'\n' ∷ b'h' ∷ b'i' ∷ []) ∷ []

-- "http://a"
abbrev url_a : List ℕ
url_a = http_prefix ++ b'a' ∷ []

http_request-body_example : http_request (host_a response) (some url_a) ≡ success (b'h' ∷ b'i' ∷ [])
unfolding parse_url strstr
http_request-body_example =
    http_request-body (host_a response) url_a (b'O' ∷ []) (b'h' ∷ b'i' ∷ []) refl refl (record {
      address = 7;
      sock = 3;
      resolves = refl;
      opens = refl;
      connects = refl;
      sends = refl;
      answers = refl;
    })

-- A host that answers nothing: the text of the error is a success.
empty_is_success : http_request (host_a []) (some url_a) ≡ success empty_response
unfolding http_request parse_url
empty_is_success = refl

-- A body that starts with "HTTP" is a failure.
body_is_failure :
    http_request (host_a ((crlf ++ (crlf ++ b'H' ∷ b'T' ∷ b'T' ∷ b'P' ∷ [])) ∷ [])) (some url_a)
    ≡ failure (b'H' ∷ b'T' ∷ b'T' ∷ b'P' ∷ [])
unfolding http_request parse_url strstr
body_is_failure = refl

-- A request for a path of 1,100 bytes is cut before the path ends.
request_cut :
    request_of (record { host = b'a' ∷ []; port = pos 80; path = replicate 1100 b'/' })
    ≡ b'G' ∷ b'E' ∷ b'T' ∷ b' ' ∷ replicate 1019 b'/'
request_cut = refl

calls_of_get :
    (http_get (host_a response) (some url_a)).1
    ≡ opened 3
      ∷ sent 3 (request_of (parse_url (b'a' ∷ [])))
      ∷ received 3 4095
      ∷ received 3 4095
      ∷ received 3 4095
      ∷ closed 3
      ∷ []
unfolding http_get parse_url
calls_of_get = refl

-- No text at all.
no_url : http_request (host_a response) none ≡ failure (b'U' ∷ b'R' ∷ b'L' ∷ not_valid)
unfolding http_request
no_url = refl

http_get-IsTidy_example : IsTidy (http_get (host_a response) (some url_a)).1
http_get-IsTidy_example = http_get-IsTidy (host_a response) (some url_a)

session-before_close_example :
    session
      (host_a [])
      (reads ∷ writes (some (b'x' ∷ [])) ∷ closes ∷ reads ∷ closes ∷ [])
      (new_socket 3 false)
    ≡ received 3 4096 ∷ sent 3 (b'x' ∷ []) ∷ closed 3 ∷ []
session-before_close_example =
    session-before_close (host_a [])
      (reads ∷ writes (some (b'x' ∷ [])) ∷ closes ∷ reads ∷ closes ∷ []) 3 false

parse_url-decimal_example :
    parse_url (b'a' ∷ b':' ∷ (decimal 81 ++ b'/' ∷ b'i' ∷ []))
    ≡ record { host = b'a' ∷ []; port = pos 81; path = b'/' ∷ b'i' ∷ [] }
parse_url-decimal_example =
    parse_url-decimal (b'a' ∷ []) (b'i' ∷ []) 81 refl refl (omega arith) (omega arith)

parse_address-decimal_example : parse_address (b'a' ∷ b':' ∷ decimal 81) ≡ (b'a' ∷ [], pos 81)
parse_address-decimal_example =
    parse_address-decimal (b'a' ∷ []) 80 refl (omega arith) (omega arith)

net_listen-IsListening_example : IsListening 8080 (net_listen (host_a []) (pos 8080))
net_listen-IsListening_example = net_listen-IsListening (host_a []) (pos 8080)
