-- ===== src/Edge.antt =====
-- src/main.rs: the main loop of the edge device, which hands the messages of the server to the
-- command executor and the safety monitor.
pub mod FlightEvents
pub mod Idle
pub mod Replies
pub mod Start
mod Tests
use res_qterra_engine.Common.{ℕ, Option, none, some, true, Bool, List, [], ◌∷◌, ◌++◌, if◌then◌else◌}
use res_qterra_engine.Proto.{
  Envelope, Payload, Header, command, heartbeat, ack, telemetry, sensor_data,
}
use res_qterra_engine.Executor.{CommandExecutor, Clock, new_executor, execute}
use res_qterra_engine.Monitor
use res_qterra_engine.Monitor.{
  SafetyMonitor, new_monitor, start_monitoring, tick, update_server_heartbeat, try_recv_action,
}
use res_qterra_engine.Connection.{
  ConnectionEvent, connected, disconnected, received, connection_failed, transport_switched,
}

-- The parts that the main loop owns, and what it has sent to the connection manager. The executor
-- has a counter of sequence numbers of its own, which starts at 1000.
pub record Edge : Type 0 where
  pub cmd_executor : CommandExecutor
  pub safety_monitor : SafetyMonitor
  pub outbound : List Envelope

abbrev pub started : SafetyMonitor → SafetyMonitor
started m = record m { monitoring_active = true }

-- The edge when the main loop begins, with the monitoring started.
unfoldable pub new_edge : Edge
unfolding new_executor new_monitor
new_edge = record {
  cmd_executor = new_executor "edge-001" 1000;
  safety_monitor = started new_monitor;
  outbound = [];
}

-- What a message meets: the readings of the clock, and whether the connection still takes messages.
pub record Moment : Type 0 where
  pub clock : Clock
  pub now : ℕ
  pub sender_open : Bool

-- `conn.send(ack_envelope)`: a failure is only reported.
send_ack : Edge → Bool → CommandExecutor × Envelope → Edge
send_ack x up (executor, answer) = record x {
  cmd_executor = executor;
  outbound = if up then x.outbound ++ answer ∷ [] else x.outbound;
}

-- The `match` on the payload.
handle_payload : Edge → Moment → Header → Option Payload → Edge
unfolding send_ack execute update_server_heartbeat
handle_payload x t header (some (command c)) =
    send_ack x t.sender_open (execute x.cmd_executor t.clock c header)
handle_payload x t header (some (heartbeat hb)) = record x {
  safety_monitor = update_server_heartbeat x.safety_monitor t.now;
}
handle_payload x t header _ = x

unfoldable pub handle_server_message : Edge → Moment → Envelope → Edge
unfolding handle_payload
handle_server_message x t envelope = elim envelope.header [
  | none ↦ x
  | some header ↦ handle_payload x t header envelope.payload
]

-- The `match` of the main loop on an event of the connection; the other events are only reported.
unfoldable pub handle_event : Edge → Moment → ConnectionEvent → Edge
unfolding handle_server_message
handle_event x t (received envelope) = handle_server_message x t envelope
handle_event x t _ = x

-- What happens on the edge: events of the connection, whole ticks of the monitoring task, and
-- actions taken out of the channel by `handle_safety_actions`, which only reports them. The events
-- of the flight controller reach neither the executor nor the monitor.
pub data Happening : Type 0 where
  event : Moment → ConnectionEvent → Happening
  ticks : ℕ → Happening
  action_taken : Happening

unfoldable pub step : Edge → Happening → Edge
unfolding handle_event tick try_recv_action
step x (event t e) = handle_event x t e
step x (ticks now) = record x { safety_monitor = (tick x.safety_monitor now).0 }
step x action_taken = record x { safety_monitor = (try_recv_action x.safety_monitor).0 }

unfoldable pub run : Edge → List Happening → Edge
unfolding step
run x [] = x
run x (h ∷ hs) = run (step x h) hs
