-- ===== src/System/Tests.antt =====
-- A command to return home, sent by the server and answered by the edge.
use res_qterra_engine.Common.{
  ◌≡◌, refl, none, true, List, [], ◌∷◌, ok, err, arith, nat_key, string_key,
}
use res_qterra_engine.Proto.{Command, Header}
use res_qterra_engine.Connection.Beats.{beats, beats-IsProst}
use res_qterra_engine.Executor.{CommandExecutor, Clock, new_executor, execute}
use res_qterra_engine.Sessions.Handle.{SessionHandle}
use res_qterra_engine.Dispatcher.{send_command}
use res_qterra_engine.Dispatcher.Tracking.{pending_at}
use res_qterra_engine.Server.{Server, Moment, new_server, handle_envelope}
use res_qterra_engine.Codec.{new_decoder}
use res_qterra_engine.Connection.{default_config}
use res_qterra_engine.Connection.Active.{Activity, ticked, Active, opened, handle_connection}
use res_qterra_engine.Connection.Active.Sending.{sent}
use res_qterra_engine.Sessions.Session.{DroneSession}
use res_qterra_engine.Sessions.Session.Rounds.{then_closed}
use res_qterra_engine.Relay.Config.{default_relay}
use res_qterra_engine.Relay.Forward.{up}
use res_qterra_engine.Relay.Messages.{between}
use res_qterra_engine.Relay.Node.{
  tcp_handler, Task, spawned, forwarding, tcp_accepts, proceeds, server_answers, turns_once,
  Happening, run,
}
use res_qterra_engine.Server.Session.{Serves, handle_drone_session}
use res_qterra_engine.System.Path.{run-Serves}
use res_qterra_engine.System.{answer-settles}

abbrev come_home : Command
come_home = record {
  command_id = 7;
  cmd_type = 3;
  expires_at_ms = 31000;
  priority = 1;
  params = none;
}

abbrev from_server : Header
from_server = record { device_id = "server"; sequence_id = 1; timestamp_ms = 1000; msg_type = 2 }

abbrev clock : Clock
clock = record { started = 1001; checked = 1002; handled = 1003; stamped = 1004 }

-- The server after the command, which it tracks though the drone is not connected.
abbrev server : Server
server = record new_server {
  dispatcher =
      (send_command beats (λ c. true) new_server.session_manager 1000 1001 new_server.dispatcher []
        "edge-001" come_home).dispatcher;
}

abbrev handle : SessionHandle
handle = record {
  device_id = "edge-001";
  addr = "10.0.0.1:5000";
  writer = 1;
  connected_at = 1000;
  last_heartbeat = 1000;
}

abbrev now : Moment
now = record { noted = 2000; registered = 2001; beaten = 2002; stamped = 900002 }

abbrev edge : CommandExecutor
edge = new_executor "edge-001" 1000

answer-settles_example :
    pending_at 7
      (handle_envelope beats
        (λ c. true)
        server
        handle
        now
        (execute edge clock come_home from_server).1).dispatcher
    ≡ none
answer-settles_example =
    answer-settles beats (λ c. true) edge clock come_home from_server server handle now 7

-- One heartbeat of the edge, of which the relay has read and passed on seven bytes, and four.
abbrev one_beat : List Activity
one_beat = ticked 0 1000 none ∷ []

abbrev after_beat : Active
after_beat = record {
  sequence_id = 1;
  decoder = new_decoder;
  written = 0 ∷ 0 ∷ 0 ∷ 3 ∷ 1 ∷ 0 ∷ 1000 ∷ [];
  events = [];
}

beat_run : handle_connection beats default_config (opened 0) one_beat ≡ (after_beat, none)
unfolding handle_connection
beat_run = refl

abbrev relaying : List Happening
relaying =
    proceeds 0 (server_answers (ok tt))
    ∷ proceeds 0 (turns_once (up (record { reads = ok 9; writes = ok 1 })))
    ∷ tcp_accepts (err "too many open files")
    ∷ proceeds 0 (turns_once (up (record { reads = ok 1; writes = ok 4 })))
    ∷ []

abbrev relay_task : Task
relay_task = record (spawned tcp_handler "127.0.0.1:8080" (between after_beat.written [])) {
  relay = record (between after_beat.written []) {
    edge_to_server = record {
      incoming = [];
      held = 1 ∷ 0 ∷ 1000 ∷ [];
      written = 0 ∷ 0 ∷ 0 ∷ 3 ∷ [];
    };
  };
  stage = forwarding;
}

abbrev new_drone : DroneSession
new_drone = record { handle = record handle { device_id = "" }; decoder = new_decoder }

run-Serves_example :
    Serves beats-IsProst
      (λ c. true)
      server
      new_drone
      (now ∷ now ∷ [])
      (1 ∷ 0 ∷ 1000 ∷ [])
      (sent default_config 0 one_beat)
      (handle_drone_session beats
        (λ c. true)
        server
        new_drone
        (now ∷ now ∷ [])
        (then_closed ((0 ∷ []) ∷ (0 ∷ 0 ∷ 3 ∷ []) ∷ [])))
unfolding beats-IsProst run
run-Serves_example =
    run-Serves beats-IsProst (λ c. true) default_config 0 one_beat after_beat default_relay
      tcp_handler [] [] relaying (tcp_accepts (ok (between after_beat.written []))) (ok tt)
      (up (record { reads = ok 9; writes = ok 1 })
        ∷ up (record { reads = ok 1; writes = ok 4 })
        ∷ [])
      relay_task server new_drone (now ∷ now ∷ []) ((0 ∷ []) ∷ (0 ∷ 0 ∷ 3 ∷ []) ∷ [])
      ((1, 0, 1000, refl), tt) beat_run refl refl refl refl refl (omega arith)
