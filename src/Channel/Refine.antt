-- ===== src/Channel/Refine.antt =====
-- The operations that do not wait against a bounded queue.
use atlanage.Prelude.{
  get_or-replicate, ℕ, ◌+◌, ◌≡◌, ◌<◌, refl, true, false, List, [], ◌∷◌, ◌++◌, arith, leb, ◌==◌,
  if◌then◌else◌, length, ◌%◌, dec_lt, length-replicate,
}
use atlanage.Word.{is_int, xt_null}
use atlanage.Effect.{Balanced, count-append}
use atlanage.Channel.{Channel, new, put, take_out, send, receive}
use atlanage.Channel.Queue.{
  slots, length-slots, contents, IsValid, contents-put, effects-put, put-IsValid, contents-take_out,
  take_out-IsValid,
}

-- A queue of at most `bound` values, oldest first.
unfoldable pub enqueue : ℕ → List ℕ → ℕ → List ℕ
enqueue bound q v = if leb bound (length q) then q else q ++ v ∷ []

unfoldable pub dequeue : List ℕ → ℕ × List ℕ
dequeue [] = (xt_null, [])
dequeue (x ∷ q) = (x, q)

-- What a client asks of a channel.
pub data Request : Type 0 where
  offer : ℕ → Request
  poll : Request

-- The answers of a channel, and of a queue, to a sequence of requests.
unfoldable pub run : ℕ → Channel → List Request → List ℕ
run chan c [] = []
run chan c (offer v ∷ rs) = run chan (send chan c v).0 rs
run chan c (poll ∷ rs) = let (v, c', es) = receive chan c in v ∷ run chan c' rs

unfoldable pub run_queue : ℕ → List ℕ → List Request → List ℕ
unfolding enqueue dequeue
run_queue bound q [] = []
run_queue bound q (offer v ∷ rs) = run_queue bound (enqueue bound q v) rs
run_queue bound q (poll ∷ rs) = let (v, q') = dequeue q in v ∷ run_queue bound q' rs

length-contents : (c : Channel) → length (contents c) ≡ c.size
unfolding contents
length-contents c = length-slots c.buffer c.capacity c.head c.size

-- A new channel is valid and empty.
pub new-IsValid :
    (capacity : ℕ) → 0 < capacity → IsValid (new capacity) × (contents (new capacity) ≡ [])
unfolding new contents slots
new-IsValid capacity h = (
  record {
    width = length-replicate capacity xt_null;
    room = h;
    filled = omega arith;
    head_in = h;
    tail_at = omega arith;
    cleared = λ j lo hi. get_or-replicate capacity ((0 + j) % capacity) xt_null;
  },
  refl,
)

lt-leb : (a b : ℕ) → a < b → leb b a ≡ false
lt-leb a b h = ground arith

not_lt-leb : (a b : ℕ) → ¬ (a < b) → leb b a ≡ true
not_lt-leb a b h = ground arith

empty_of_length : (xs : List ℕ) → length xs ≡ 0 → xs ≡ []
empty_of_length [] h = refl
empty_of_length (x ∷ xs) h = absurd (omega arith)

module _ (chan : ℕ) (real : is_int chan ≡ false) (c : Channel) (valid : IsValid c) where
  -- `xt_channel_send` on a channel that is not full appends the value, and takes one reference to
  -- it and gives up none; on a full one it does nothing. The channel stays valid.
  pub send_refines :
      (v : ℕ)
      → let (c', es) = send chan c v in
        IsValid c'
        × (contents c' ≡ enqueue c.capacity (contents c) v)
        × Balanced (contents c) es (contents c')
  unfolding send enqueue
  send_refines v = elim (dec_lt c.size c.capacity) [
    | yes free ↦
        rw (real, length-contents c, lt-leb c.size c.capacity free)
          (
            put-IsValid chan v c valid free,
            contents-put chan v c valid free,
            λ w.
                rw (contents-put chan v c valid free, effects-put chan v c valid free)
                  (omega (arith, count-append w (contents c) (v ∷ []))),
          )
    | no full ↦
        rw (real, length-contents c, not_lt-leb c.size c.capacity full) (valid, refl, λ w. refl)
  ]

  -- `xt_channel_receive` returns the oldest value and hands its reference over; on an empty channel
  -- it returns null. The channel stays valid.
  pub receive_refines :
      let (v, c', es) = receive chan c in
      IsValid c'
      × (contents c ≡ (if c.size == 0 then [] else v ∷ contents c'))
      × ((v, contents c') ≡ dequeue (contents c))
  unfolding receive dequeue
  receive_refines = elim (dec_lt 0 c.size) [
    | yes left ↦
        let n : (c.size == 0) ≡ false = ground arith in
        let e = contents-take_out chan c valid left in
        rw (real, n) (take_out-IsValid chan c valid left, e, rw e)
    | no none_left ↦
        let n : (c.size == 0) ≡ true = ground arith in
        let e : contents c ≡ [] = empty_of_length (contents c) (omega (arith, length-contents c)) in
        rw (real, n) (valid, e, rw e)
  ]

capacity-send : (chan : ℕ) (c : Channel) (v : ℕ) → (send chan c v).0.capacity ≡ c.capacity
unfolding send put
capacity-send chan c v = ground arith

capacity-receive : (chan : ℕ) (c : Channel) → (receive chan c).1.capacity ≡ c.capacity
unfolding receive take_out
capacity-receive chan c = ground arith

-- No sequence of sends and receives tells a valid channel from the bounded queue of its contents.
pub run_refines :
    (chan : ℕ) (rs : List Request) (c : Channel)
    → is_int chan ≡ false
    → IsValid c
    → run chan c rs ≡ run_queue c.capacity (contents c) rs
unfolding run run_queue
run_refines chan [] c real valid = refl
run_refines chan (offer v ∷ rs) c real valid =
    let (valid', e, b) = send_refines chan real c valid v in
    rw (run_refines chan rs (send chan c v).0 real valid', capacity-send, e)
run_refines chan (poll ∷ rs) c real valid =
    let (valid', e, d) = receive_refines chan real c valid in
    rw (run_refines chan rs (receive chan c).1 real valid', capacity-receive, ← d)
