-- ===== src/Net/Listen.antt =====
-- `xt_net_listen`, the thread that accepts connections and those that serve them, and `xt_listen`
-- and `xt_connect` in runtime/xt_runtime.c.
use atlanage.Prelude.{
  ℕ, ◌-◌, ◌%◌, ◌^◌, Bool, true, false, List, [], ◌∷◌, ◌++◌, Option, none, some, ltb, if◌then◌else◌,
}
use atlanage.Prelude.Int.{ℤ, pos, negsuc}
use atlanage.Word.{Memory, is_real_ptr, value_to_int, xt_true}
use atlanage.Json.Value.{print_int}
use atlanage.Text.Search.{c_str}
use atlanage.Net.{Call, opened, listening, closed, Os, Socket, new_socket}
use atlanage.Net.Address.{port_bits, parse_address}
use atlanage.Net.Session.{Use, session}
use atlanage.Net.Http.{snprintf, cannot, connect_to, create_connection}

-- The return code, and the socket that the new thread gets.
abbrev pub listen_failed : List Call → Bool × Option ℕ × List Call
listen_failed calls = (false, none, calls)

-- `xt_net_listen`; true is the return code 0.
abbrev pub listen_on : Os → Option ℕ → ℕ → Bool × Option ℕ × List Call
listen_on os none port = listen_failed []
listen_on os (some sock) port =
    if os.bind sock port
    then (if os.listen sock
        then (if os.thread
            then (true, some sock, opened sock ∷ listening sock port ∷ [])
            else listen_failed (opened sock ∷ listening sock port ∷ closed sock ∷ []))
        else listen_failed (opened sock ∷ closed sock ∷ []))
    else listen_failed (opened sock ∷ closed sock ∷ [])

unfoldable pub net_listen : Os → ℤ → Bool × Option ℕ × List Call
net_listen os port = listen_on os os.socket (port_bits port)

-- `conn_handler`: the callback uses the socket, and then it is released.
unfoldable pub conn_handler : Os → List Use → ℕ → List Call
conn_handler os uses client = session os uses (new_socket client false)

-- `accept_thread`: what `accept` returns, one call after the other, with the use that the callback
-- makes of the connection. `none` is an error. The calls of each connection are made by a thread of
-- its own. The thread ends, and closes its socket, only when `running` is false.
unfoldable pub accept_thread :
    Os → Bool → ℕ → List (Option ℕ × List Use) → List (List Call) × List Call
unfolding conn_handler
accept_thread os false sock accepted = ([], closed sock ∷ [])
accept_thread os true sock [] = ([], [])
accept_thread os true sock ((none, uses) ∷ accepted) = accept_thread os true sock accepted
accept_thread os true sock ((some client, uses) ∷ accepted) =
    let rest = accept_thread os true sock accepted in (conn_handler os uses client ∷ rest.0, rest.1)

-- "回调函数无效", "监听端口 ", " 失败" and "地址无效"
abbrev pub bad_callback : List ℕ
bad_callback =
    0xe5 ∷ 0x9b ∷ 0x9e ∷ 0xe8 ∷ 0xb0 ∷ 0x83 ∷ 0xe5 ∷ 0x87 ∷ 0xbd ∷ 0xe6 ∷ 0x95 ∷ 0xb0 ∷ 0xe6 ∷ 0x97
    ∷ 0xa0 ∷ 0xe6 ∷ 0x95 ∷ 0x88 ∷ []

abbrev pub listen_port : List ℕ
listen_port =
    0xe7 ∷ 0x9b ∷ 0x91 ∷ 0xe5 ∷ 0x90 ∷ 0xac ∷ 0xe7 ∷ 0xab ∷ 0xaf ∷ 0xe5 ∷ 0x8f ∷ 0xa3 ∷ 0x20 ∷ []

abbrev pub not_done : List ℕ
not_done = 0x20 ∷ 0xe5 ∷ 0xa4 ∷ 0xb1 ∷ 0xe8 ∷ 0xb4 ∷ 0xa5 ∷ []

abbrev pub bad_address : List ℕ
bad_address = 0xe5 ∷ 0x9c ∷ 0xb0 ∷ 0xe5 ∷ 0x9d ∷ 0x80 ∷ 0xe6 ∷ 0x97 ∷ 0xa0 ∷ 0xe6 ∷ 0x95 ∷ 0x88 ∷ []

-- The `int` of an `int64_t`.
abbrev pub to_int32 : ℕ → ℤ
to_int32 w = let n = w % 2 ^ 32 in if ltb n (2 ^ 31) then pos n else negsuc (2 ^ 32 - 1 - n)

-- `XTResult` of `xt_listen` and `xt_connect`, with the calls that were made.
pub data Outcome (A : Type 0) : Type 0 where
  done : A → List Call → Outcome A
  error : List ℕ → List Call → Outcome A

abbrev pub listen_result : ℤ → Bool × Option ℕ × List Call → Outcome ℕ
listen_result port (true, thread, calls) = done xt_true calls
listen_result port (false, thread, calls) =
    error (snprintf 64 (listen_port ++ (print_int port ++ not_done))) calls

-- `xt_listen`
unfoldable pub listen : Os → Memory → ℕ → ℕ → Outcome ℕ
unfolding net_listen
listen os m port_val callback_val =
    let port = to_int32 (value_to_int m port_val) in
    if is_real_ptr callback_val
    then listen_result port (net_listen os port)
    else error bad_callback []

-- `xt_net_connect_sock`
abbrev pub connect_sock : Option ℕ × List Call → Option Socket × List Call
connect_sock (none, calls) = (none, calls)
connect_sock (some sock, calls) = (some (new_socket sock false), calls)

abbrev pub connect_result : List ℕ → Option Socket × List Call → Outcome Socket
connect_result addr (none, calls) = error (snprintf 256 (cannot ++ (connect_to ++ addr))) calls
connect_result addr (some s, calls) = done s calls

-- `xt_connect`; an address that is no pointer is `none`.
unfoldable pub connect : Os → Option (List ℕ) → Outcome Socket
unfolding create_connection
connect os none = error bad_address []
connect os (some addr) =
    let parts = parse_address (c_str addr) in
    connect_result (c_str addr) (connect_sock (create_connection os parts.0 parts.1))
