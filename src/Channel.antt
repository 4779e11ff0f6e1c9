-- ===== src/Channel.antt =====
-- runtime/xt_runtime.c, lines 2165 to 2310: the bounded channel `XTChannel`. Each operation runs
-- under the mutex of the channel, and so is one step; what other threads do while a blocking
-- operation waits is a list of turns.
pub mod Queue
pub mod Refine
mod Blocking
mod Select
mod Tests
use atlanage.Prelude.{
  ℕ, zero, suc, ◌+◌, ◌-◌, ◌%◌, Bool, true, false, List, [], ◌∷◌, Option, none, some, ltb, leb, ◌==◌,
  if◌then◌else◌, length, get_or, set, replicate,
}
use atlanage.Word.{is_int, xt_null}
use atlanage.Effect.{Effect, retain, release, wake}

-- `XTChannel`
pub record Channel : Type 0 where
  pub buffer : List ℕ
  pub size : ℕ
  pub capacity : ℕ
  pub head : ℕ
  pub tail : ℕ

-- `xt_channel_new`; `calloc` clears the buffer.
unfoldable pub new : ℕ → Channel
new capacity = record {
  buffer = replicate capacity xt_null;
  size = 0;
  capacity = capacity;
  head = 0;
  tail = 0;
}

-- The store of a value at the tail, on the channel that `chan` points to.
unfoldable pub put : ℕ → Channel → ℕ → Channel × List Effect
put chan c v =
    let old = get_or c.buffer c.tail xt_null in
    let rest = retain v ∷ wake chan ∷ [] in
    (
      record c {
        buffer = set c.buffer c.tail v;
        tail = (c.tail + 1) % c.capacity;
        size = c.size + 1;
      },
      if old == xt_null then rest else release old ∷ rest,
    )

-- The removal of the value at the head, which hands its reference over to the caller.
unfoldable pub take_out : ℕ → Channel → ℕ × Channel × List Effect
take_out chan c = (
  get_or c.buffer c.head xt_null,
  record c {
    buffer = set c.buffer c.head xt_null;
    head = (c.head + 1) % c.capacity;
    size = c.size - 1;
  },
  wake chan ∷ [],
)

-- `xt_channel_send`
unfoldable pub send : ℕ → Channel → ℕ → Channel × List Effect
unfolding put
send chan c v =
    if is_int chan then (c, []) else if leb c.capacity c.size then (c, []) else put chan c v

-- `xt_channel_receive`
unfoldable pub receive : ℕ → Channel → ℕ × Channel × List Effect
unfolding take_out
receive chan c =
    if is_int chan
    then (xt_null, c, [])
    else if c.size == 0
    then (xt_null, c, [])
    else take_out chan c

-- `timeout_ms`: negative, or a number of milliseconds.
pub data Timeout : Type 0 where
  forever : Timeout
  millis : ℕ → Timeout

-- One round of a waiting loop, as the environment answers it: the channel after
-- `xt_scheduler_run`, where the main thread runs the scheduler first; whether the wait on the
-- condition was signalled; and the channel that the thread finds after it.
pub record Turn : Type 0 where
  pub after_run : Option Channel
  pub signalled : Bool
  pub found : Channel

-- How a blocking operation ends, or that it still waits after the turns that are given.
pub data Outcome : Type 0 where
  received : ℕ → Channel → List Effect → Outcome
  sent : Channel → List Effect → Outcome
  gave_up : Channel → Outcome
  waiting : Outcome

abbrev pub is_expired : Timeout → Bool
is_expired forever = false
is_expired (millis zero) = true
is_expired (millis (suc n)) = false

-- `if (timeout_ms > 0) timeout_ms = 0;`
abbrev pub after_wait : Timeout → Timeout
after_wait forever = forever
after_wait (millis n) = millis 0

-- The scheduler is run only under a negative timeout.
abbrev pub run_first : Timeout → Option Channel → Option Channel
run_first forever ran = ran
run_first (millis n) ran = none

abbrev pub received_from : ℕ → Channel → Outcome
received_from chan c = let (v, c', es) = take_out chan c in received v c' es

abbrev pub sent_to : ℕ → Channel → ℕ → Outcome
sent_to chan c v = let (c', es) = put chan c v in sent c' es

-- `xt_channel_receive_blocking` on a channel, by the turns.
unfoldable pub receive_blocking : ℕ → Channel → Timeout → List Turn → Outcome
unfolding take_out
receive_blocking chan c timeout [] =
    if c.size == 0
    then (if is_expired timeout then gave_up c else waiting)
    else received_from chan c
receive_blocking chan c timeout (t ∷ ts) =
    let next = receive_blocking chan t.found (after_wait timeout) ts in
    let wait : Outcome = if t.signalled then next else gave_up t.found in
    let round : Outcome = elim (run_first timeout t.after_run) [
      | none ↦ wait
      | some ran ↦ if ltb 0 ran.size then received_from chan ran else wait
    ] in
    if c.size == 0 then (if is_expired timeout then gave_up c else round) else received_from chan c

-- `xt_channel_send_blocking` on a channel, by the turns.
unfoldable pub send_blocking : ℕ → Channel → ℕ → Timeout → List Turn → Outcome
unfolding put
send_blocking chan c v timeout [] =
    if leb c.capacity c.size
    then (if is_expired timeout then gave_up c else waiting)
    else sent_to chan c v
send_blocking chan c v timeout (t ∷ ts) =
    let next = send_blocking chan t.found v (after_wait timeout) ts in
    let wait : Outcome = if t.signalled then next else gave_up t.found in
    let round : Outcome = elim (run_first timeout t.after_run) [
      | none ↦ wait
      | some ran ↦ if ltb ran.size ran.capacity then sent_to chan ran v else wait
    ] in
    if leb c.capacity c.size
    then (if is_expired timeout then gave_up c else round)
    else sent_to chan c v

-- The first loop of `xt_channel_select`: the first channel with data, from index `i` on. An entry
-- is the word of the array and the size of the channel behind it.
unfoldable pub first_ready : List (ℕ × ℕ) → ℕ → Option ℕ
first_ready [] i = none
first_ready ((chan, size) ∷ cs) i =
    let rest = first_ready cs (i + 1) in
    if is_int chan then rest else if ltb 0 size then some i else rest

-- `timeout_ms -= 100; if (timeout_ms <= 0) return -1;`, `none` for the return.
abbrev pub spend : Timeout → Option Timeout
spend forever = some forever
spend (millis n) = if leb n 100 then none else some (millis (n - 100))

-- `xt_channel_select`: the index, or `none` for -1, or that it still polls after the rounds that
-- are given. A round is the sizes that the next pass over the channels finds; the waits between
-- two passes change nothing.
pub data Selected : Type 0 where
  ready : ℕ → Selected
  nothing : Selected
  polling : Selected

unfoldable pub select_loop : Timeout → List (List (ℕ × ℕ)) → Selected
unfolding first_ready
select_loop timeout [] = polling
select_loop timeout (cs ∷ rounds) =
    let slower : Selected = elim (spend timeout) [
      | none ↦ nothing
      | some left ↦ select_loop left rounds
    ] in
    elim (first_ready cs 0) [
      | some i ↦ ready i
      | none ↦ if is_expired timeout then nothing else slower
    ]

unfoldable pub select : ℕ → Timeout → List (List (ℕ × ℕ)) → Selected
unfolding select_loop
select count timeout rounds = if count == 0 then nothing else select_loop timeout rounds
