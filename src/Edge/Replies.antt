-- ===== src/Edge/Replies.antt =====
-- What the edge answers to the commands of the server.
use res_qterra_engine.Common.{
  ◌≡◌, refl, ◌∙◌, sym, Option, none, some, true, List, [], ◌∷◌, ◌++◌, append_assoc, append-nil,
}
use res_qterra_engine.Proto.{Header, Payload, command, heartbeat, ack, telemetry, sensor_data}
use res_qterra_engine.Executor.{Clock, execute}
use res_qterra_engine.Executor.Answers.{Request, execute_all}
use res_qterra_engine.Connection
use res_qterra_engine.Connection.{ConnectionEvent, received}
use res_qterra_engine.Edge.{
  Edge, Moment, Happening, event, ticks, action_taken, handle_server_message, handle_payload,
  handle_event, step, run,
}

-- The commands of an envelope: one, if it has a header and a command.
abbrev pub requested : Clock → Option Header → Option Payload → List Request
requested t (some h) (some (command c)) = (t, c, h) ∷ []
requested t _ _ = []

-- The commands that arrive, in order.
abbrev pub requests : List Happening → List Request
requests [] = []
requests (event t (received e) ∷ hs) = requested t.clock e.header e.payload ++ requests hs
requests (_ ∷ hs) = requests hs

-- The connection takes every message.
abbrev pub AllOpen : List Happening → Type 0
AllOpen [] = Unit
AllOpen (event t e ∷ hs) = (t.sender_open ≡ true) × AllOpen hs
AllOpen (_ ∷ hs) = AllOpen hs

-- The edge `y` has answered the requests that came after `x`.
abbrev pub Answered : Edge → List Request → Edge → Type 0
Answered x rs y =
    let (executor, answers) = execute_all x.cmd_executor rs in
    (y.cmd_executor ≡ executor) × (y.outbound ≡ x.outbound ++ answers)

Answered-payload :
    (x y : Edge) (t : Moment) (h : Header) (o : Option Payload) (rs : List Request)
    → t.sender_open ≡ true
    → Answered (handle_payload x t h o) rs y
    → Answered x (requested t.clock (some h) o ++ rs) y
unfolding handle_payload execute_all
Answered-payload x y t h (some (command c)) rs up (executor, answers) =
    let answer = (execute x.cmd_executor t.clock c h).1 in
    let later = (execute_all (execute x.cmd_executor t.clock c h).0 rs).1 in
    (executor, answers ∙ rw up (append_assoc x.outbound (answer ∷ []) later))
Answered-payload x y t h (some (heartbeat b)) rs up v = v
Answered-payload x y t h (some (ack a)) rs up v = v
Answered-payload x y t h (some (telemetry a)) rs up v = v
Answered-payload x y t h (some (sensor_data a)) rs up v = v
Answered-payload x y t h none rs up v = v

Answered-message :
    (x y : Edge) (t : Moment) (h : Option Header) (o : Option Payload) (rs : List Request)
    → t.sender_open ≡ true
    → Answered (handle_server_message x t (record { header = h; payload = o })) rs y
    → Answered x (requested t.clock h o ++ rs) y
unfolding handle_server_message
Answered-message x y t none o rs up v = v
Answered-message x y t (some h) o rs up v = Answered-payload x y t h o rs up v

-- The edge answers every command that arrives with a header once, in the order of arrival, as the
-- executor answers them one after the other, and sends nothing else, as long as the connection
-- takes the answers.
pub run-Answered :
    (x : Edge) (hs : List Happening) → AllOpen hs → Answered x (requests hs) (run x hs)
unfolding run step handle_event execute_all
run-Answered x [] up = (refl, sym (append-nil x.outbound))
run-Answered x (event t (received e) ∷ hs) (open_now, up) =
    Answered-message x (run x (event t (received e) ∷ hs)) t e.header e.payload (requests hs)
      open_now (run-Answered (handle_server_message x t e) hs up)
run-Answered x (event t (Connection.connected a) ∷ hs) up = run-Answered x hs up.1
run-Answered x (event t (Connection.disconnected a) ∷ hs) up = run-Answered x hs up.1
run-Answered x (event t (Connection.connection_failed a) ∷ hs) up = run-Answered x hs up.1
run-Answered x (event t (Connection.transport_switched a b) ∷ hs) up = run-Answered x hs up.1
run-Answered x (ticks now ∷ hs) up = run-Answered (step x (ticks now)) hs up
run-Answered x (action_taken ∷ hs) up = run-Answered (step x action_taken) hs up
