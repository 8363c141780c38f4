-- ===== src/Relay/Forward.antt =====
-- relay-node/src/main.rs: the two copy loops of a connection, under `select!`. `handle_connection`
-- and `handle_rfcomm_connection` are the same code over another kind of stream.
use res_qterra_engine.Common.{
  ℕ, zero, suc, String, Option, none, some, List, [], ◌∷◌, ◌++◌, Result, ok, err, take, drop,
}
use res_qterra_engine.Connection.Loop.{min}

-- One direction: the bytes that the sender will still send, those that are read and not yet
-- written, and those that the other side got.
pub record Copy : Type 0 where
  pub incoming : List ℕ
  pub held : List ℕ
  pub written : List ℕ

abbrev pub stream_of : List ℕ → Copy
stream_of bytes = record { incoming = bytes; held = []; written = [] }

-- What the socket answers when the loop goes on: so many bytes that have come (0 is the end of the
-- stream), and so many that it takes, or errors. The loop uses the one for which it waits.
pub record Ready : Type 0 where
  pub reads : Result String ℕ
  pub writes : Result String ℕ

abbrev pub buffer_size : ℕ
buffer_size = 4096

-- How a loop ends: `break`, or an error passed on by `?`.
abbrev pub Ending : Type 0
Ending = Result String Unit

-- `read(&mut buf).await?`, for which no byte is held.
abbrev pub read_round : Copy → Result String ℕ → Copy × Option Ending
read_round c (err e) = (c, some (err e))
read_round c (ok zero) = (c, some (ok tt))
read_round c (ok (suc n)) = (
  record c {
    incoming = drop (min (suc n) buffer_size) c.incoming;
    held = take (min (suc n) buffer_size) c.incoming;
  },
  none,
)

-- One write of `write_all(&buf[..n]).await?`, which goes on until all is written, and fails where a
-- write takes nothing.
abbrev pub write_round : Copy → Result String ℕ → Copy × Option Ending
write_round c (err e) = (c, some (err e))
write_round c (ok zero) = (c, some (err "failed to write whole buffer"))
write_round c (ok (suc n)) =
    (record c { held = drop (suc n) c.held; written = c.written ++ take (suc n) c.held }, none)

unfoldable pub copy_round : Copy → Ready → Copy × Option Ending
copy_round c ready = elim c.held [
  | [] ↦ read_round c ready.reads
  | b ∷ bs ↦ write_round c ready.writes
]

-- Both directions, and the branch of the `select!` that goes on.
pub record Relay : Type 0 where
  pub edge_to_server : Copy
  pub server_to_edge : Copy

pub data Turn : Type 0 where
  up : Ready → Turn
  down : Ready → Turn

unfoldable pub turn : Relay → Turn → Relay × Option Ending
unfolding copy_round
turn r (up ready) =
    let (c, ended) = copy_round r.edge_to_server ready in (record r { edge_to_server = c }, ended)
turn r (down ready) =
    let (c, ended) = copy_round r.server_to_edge ready in (record r { server_to_edge = c }, ended)

-- The first loop that ends, ends both.
unfoldable pub forward : Relay → List Turn → Relay × Option Ending
unfolding turn
forward r [] = (r, none)
forward r (t ∷ ts) =
    let (r', ended) = turn r t in
    let rest = forward r' ts in elim ended [ some ending ↦ (r', some ending) | none ↦ rest ]

-- The handler: nothing is forwarded where the server cannot be reached.
unfoldable pub handle_connection : Relay → Ending → List Turn → Relay × Option Ending
unfolding forward
handle_connection r (err e) turns = (r, some (err e))
handle_connection r (ok connected) turns = forward r turns

unfoldable pub handle_rfcomm_connection : Relay → Ending → List Turn → Relay × Option Ending
unfolding forward
handle_rfcomm_connection r (err e) turns = (r, some (err e))
handle_rfcomm_connection r (ok connected) turns = forward r turns
