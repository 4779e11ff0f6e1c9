-- ===== src/Net/Connections.antt =====
-- The sockets of a listener and of its connections.
use atlanage.Prelude.{
  ℕ, ◌≡◌, refl, Bool, true, false, List, [], ◌∷◌, ◌++◌, Option, none, some, Bool-cases, inl, inr,
}
use atlanage.Prelude.Int.{ℤ}
use atlanage.Net.{Call, opened, listening, closed, Os}
use atlanage.Net.Address.{port_bits}
use atlanage.Net.Session.{Use, before_close, session-before_close}
use atlanage.Net.Listen.{listen_on, net_listen, conn_handler, accept_thread}

-- A thread has the socket, or no socket is left open.
pub data IsListening (port : ℕ) : Bool × Option ℕ × List Call → Type 0 where
  started : (sock : ℕ) → IsListening port (true, some sock, opened sock ∷ listening sock port ∷ [])
  no_socket : IsListening port (false, none, [])
  not_listening : (sock : ℕ) → IsListening port (false, none, opened sock ∷ closed sock ∷ [])
  no_thread :
      (sock : ℕ)
      → IsListening port (false, none, opened sock ∷ listening sock port ∷ closed sock ∷ [])

listen_on-IsListening :
    (os : Os) (sock : Option ℕ) (port : ℕ) → IsListening port (listen_on os sock port)
listen_on-IsListening os none port = no_socket
listen_on-IsListening os (some sock) port = elim (Bool-cases (os.bind sock port)) [
  | inr b ↦ rw b (not_listening sock)
  | inl b ↦ elim (Bool-cases (os.listen sock)) [
    | inr l ↦ rw (b, l) (not_listening sock)
    | inl l ↦ elim (Bool-cases (os.thread)) [
      | inr t ↦ rw (b, l, t) (no_thread sock)
      | inl t ↦ rw (b, l, t) (started sock)
    ]
  ]
]

-- `xt_net_listen` returns 0 only if the socket that it opened listens to the port and a thread has
-- it, and otherwise it has closed it.
pub net_listen-IsListening :
    (os : Os) (port : ℤ) → IsListening (port_bits port) (net_listen os port)
unfolding net_listen
net_listen-IsListening os port = listen_on-IsListening os os.socket (port_bits port)

-- The calls of each connection: what the callback does before it closes, and one close.
abbrev pub served : List (Option ℕ × List Use) → List (List Call)
served [] = []
served ((none, uses) ∷ accepted) = served accepted
served ((some client, uses) ∷ accepted) =
    (before_close client uses ++ closed client ∷ []) ∷ served accepted

-- As long as the listener runs, each connection that `accept` returns is served by its callback and
-- then closed exactly once, whatever the callback does, an error of `accept` ends nothing, and the
-- listener itself is not closed.
pub accept_thread-served :
    (os : Os) (sock : ℕ) (accepted : List (Option ℕ × List Use))
    → accept_thread os true sock accepted ≡ (served accepted, [])
unfolding accept_thread conn_handler
accept_thread-served os sock [] = refl
accept_thread-served os sock ((none, uses) ∷ accepted) = accept_thread-served os sock accepted
accept_thread-served os sock ((some client, uses) ∷ accepted) =
    rw (accept_thread-served os sock accepted, session-before_close os uses client false) refl
