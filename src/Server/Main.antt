-- ===== src/Server/Main.antt =====
-- server/src/main.rs: `main`, which accepts connections and spawns a task for each, and the tasks
-- beside it.
pub mod Heard
use res_qterra_engine.Common.{
  ℕ, ◌≡◌, refl, ap, ◌∙◌, String, Bool, true, false, Option, none, some, List, [], ◌∷◌, ◌++◌, Result,
  ok, err, get_elem?, modify,
}
use res_qterra_engine.Proto.{Envelope}
use res_qterra_engine.Codec.{Prost}
use res_qterra_engine.Sessions.Session.{
  DroneSession, Read, Received, message, closed, waiting, new_session, recv,
}
use res_qterra_engine.Server.{Server, Moment, on_message, on_disconnect, new_server}
use res_qterra_engine.Server.Invariant.{
  IsServed, message-IsServed, disconnect-IsServed, new_server-IsServed,
}
use res_qterra_engine.Server.Tasks.{
  DemoClock, Turn, reap, retry, cleanup, demo, turn, turn-IsServed,
}

-- A spawned `handle_drone_session`: its session, what its socket will still answer, the messages that
-- it has handed to `handle_envelope`, and whether it has returned.
pub record Connection : Type 0 where
  pub session : DroneSession
  pub incoming : List Read
  pub heard : List Envelope
  pub over : Bool

-- The program while `main` accepts; `ended` holds the error with which `main` has returned.
pub record Program : Type 0 where
  pub server : Server
  pub connections : List Connection
  pub ended : Option String

abbrev pub main : Result String (Unit {0}) → Program
main (ok bound) = record { server = new_server; connections = []; ended = none }
main (err e) = record { server = new_server; connections = []; ended = some e }

-- A socket that is accepted: its writer, its address, the time, and what it will answer.
pub record Accepted : Type 0 where
  pub writer : ℕ
  pub addr : String
  pub now : ℕ
  pub incoming : List Read

abbrev pub new_connection : Accepted → Connection
new_connection a = record {
  session = new_session a.writer a.addr a.now;
  incoming = a.incoming;
  heard = [];
  over = false;
}

-- The parts of the tasks of the heartbeat monitor, the timeout tracker and the demo sender.
pub data Background : Type 0 where
  reaps : List String → Background
  retries : ℕ → ℕ → ℕ → Background
  cleans : (ℕ → ℕ) → Background
  sends : DemoClock → Background

abbrev pub as_turn : Background → Turn
as_turn (reaps ids) = reap ids
as_turn (retries judged resent id) = retry judged resent id
as_turn (cleans now) = cleanup now
as_turn (sends t) = demo t

pub data Happening : Type 0 where
  accepts : Result String Accepted → Happening
  receives : ℕ → Moment → Happening
  background : Background → Happening

module _ {D N : Type 0} (p : Prost Envelope D N) (up : ℕ → Bool) where
  -- A round of `handle_drone_session`, by the answer of `recv`.
  received : Server → Connection → Moment → DroneSession × Received → Server × Connection
  unfolding on_message on_disconnect
  received x c t (session, message e rest) = (
    on_message p up x session t e,
    record c { session = session; incoming = rest; heard = c.heard ++ e ∷ [] },
  )
  received x c t (session, closed) =
      (on_disconnect x session, record c { session = session; over = true })
  received x c t (session, waiting) = (x, record c { session = session; incoming = [] })

  round : Server → Connection → Moment → Bool → Server × Connection
  unfolding received recv
  round x c t true = (x, c)
  round x c t false = received x c t (recv p c.session t.noted c.incoming)

  round_of : Program → ℕ → Moment → Option Connection → Program
  unfolding round
  round_of q k t none = q
  round_of q k t (some c) =
      let (server, c') = round q.server c t c.over in
      record q { server = server; connections = modify (λ _. c') q.connections k }

  -- `listener.accept().await?`: an error ends `main`, and with it all tasks.
  accept_next : Program → Result String Accepted → Program
  accept_next q (ok a) = record q { connections = q.connections ++ new_connection a ∷ [] }
  accept_next q (err e) = record q { ended = some e }

  -- Nothing happens after `main` has returned: the runtime of tokio drops all tasks.
  while_running : Program → Happening → Option String → Program
  unfolding accept_next round_of turn
  while_running q h (some e) = q
  while_running q (accepts accepted) none = accept_next q accepted
  while_running q (receives k t) none = round_of q k t (get_elem? q.connections k)
  while_running q (background b) none = record q { server = turn p up q.server (as_turn b) }

  unfoldable pub run : Program → List Happening → Program
  unfolding while_running
  run q [] = q
  run q (h ∷ hs) = run (while_running q h q.ended) hs

  received-IsServed :
      (x : Server) (c : Connection) (t : Moment) (r : DroneSession × Received)
      → IsServed x
      → IsServed (received x c t r).0
  unfolding received
  received-IsServed x c t (session, message e rest) v = message-IsServed p up x session t e v
  received-IsServed x c t (session, closed) v = disconnect-IsServed p up x session v
  received-IsServed x c t (session, waiting) v = v

  round-IsServed :
      (x : Server) (c : Connection) (t : Moment) (over : Bool)
      → IsServed x
      → IsServed (round x c t over).0
  unfolding round
  round-IsServed x c t true v = v
  round-IsServed x c t false v = received-IsServed x c t (recv p c.session t.noted c.incoming) v

  happening-IsServed :
      (q : Program) (h : Happening) (ended : Option String)
      → IsServed q.server
      → IsServed (while_running q h ended).server
  unfolding while_running accept_next
  happening-IsServed q h (some e) v = v
  happening-IsServed q (accepts (ok a)) none v = v
  happening-IsServed q (accepts (err e)) none v = v
  happening-IsServed q (receives k t) none v = of_connection (get_elem? q.connections k)
    where
      of_connection : (o : Option Connection) → IsServed (round_of q k t o).server
      of_connection none = unfold round_of in v
      of_connection (some c) = unfold round_of in round-IsServed q.server c t c.over v
  happening-IsServed q (background b) none v = turn-IsServed p up q.server (as_turn b) v

  run_from : (q : Program) (hs : List Happening) → IsServed q.server → IsServed (run q hs).server
  unfolding run
  run_from q [] v = v
  run_from q (h ∷ hs) v = run_from (while_running q h q.ended) hs (happening-IsServed q h q.ended v)

  -- Whatever is accepted, arrives and falls due, in whatever order, from the start of the server on:
  -- each device stands at most once in the table of sessions, under its own name, which is not empty,
  -- and each command at most once in the table of commands, under its own identifier and with no more
  -- retries than it may have.
  pub run-IsServed :
      (bound : Result String (Unit {0})) (hs : List Happening)
      → IsServed (run (main bound) hs).server
  run-IsServed (ok bound) hs = run_from (main (ok bound)) hs new_server-IsServed
  run-IsServed (err e) hs = run_from (main (err e)) hs new_server-IsServed

  pub run-append :
      (q : Program) (hs later : List Happening) → run q (hs ++ later) ≡ run (run q hs) later
  unfolding run
  run-append q [] later = refl
  run-append q (h ∷ hs) later = run-append (while_running q h q.ended) hs later
