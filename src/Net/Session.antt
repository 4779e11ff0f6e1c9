-- ===== src/Net/Session.antt =====
-- The uses of one socket object, from `xt_net_new_socket` to its release, which closes it.
use atlanage.Prelude.{◌≡◌, refl, ℕ, Bool, true, List, [], ◌∷◌, ◌++◌, Option, none}
use atlanage.Net.{
  Call, sent, received, closed, Os, Socket, new_socket, close_obj, read_method, write_method,
  message_text, close_method,
}

-- A call of a method.
pub data Use : Type 0 where
  reads : Use
  writes : Option (List ℕ) → Use
  closes : Use

module _ (os : Os) where
  abbrev pub use_socket : Use → Socket → Socket × List Call
  use_socket reads s = (s, (read_method os s).1)
  use_socket (writes msg) s = (s, (write_method os s msg).1)
  use_socket closes s = (close_method s).1

  -- The calls, with those of the release of the object at the end.
  abbrev pub session : List Use → Socket → List Call
  session [] s = (close_obj s).1
  session (u ∷ us) s = let after = use_socket u s in after.1 ++ session us after.0

-- The calls that the methods make before the first one that closes.
abbrev pub before_close : ℕ → List Use → List Call
before_close raw [] = []
before_close raw (reads ∷ us) = received raw 4096 ∷ before_close raw us
before_close raw (writes msg ∷ us) = sent raw (message_text msg) ∷ before_close raw us
before_close raw (closes ∷ us) = []

session-closed :
    (os : Os) (us : List Use) (listener : Bool)
    → session os us (record { sock = none; is_closed = true; is_listener = listener }) ≡ []
unfolding close_obj read_method write_method close_method
session-closed os [] listener = refl
session-closed os (reads ∷ us) listener = session-closed os us listener
session-closed os (writes msg ∷ us) listener = session-closed os us listener
session-closed os (closes ∷ us) listener = session-closed os us listener

-- However its methods are called, a socket is read and written only before the first call that
-- closes it, and it is closed exactly once, after that: when it is released, if no call closed it.
pub session-before_close :
    (os : Os) (us : List Use) (raw : ℕ) (listener : Bool)
    → session os us (new_socket raw listener) ≡ before_close raw us ++ closed raw ∷ []
unfolding close_obj read_method write_method close_method
session-before_close os [] raw listener = refl
session-before_close os (reads ∷ us) raw listener =
    rw (session-before_close os us raw listener) refl
session-before_close os (writes msg ∷ us) raw listener =
    rw (session-before_close os us raw listener) refl
session-before_close os (closes ∷ us) raw listener = rw (session-closed os us listener) refl
