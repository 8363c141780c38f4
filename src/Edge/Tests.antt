-- ===== src/Edge/Tests.antt =====
-- The edge on a command to return home.
use res_qterra_engine.Common.{◌≡◌, refl, none, some, true, false, List, [], ◌∷◌}
use res_qterra_engine.Proto.{Command, Header, command, ack_rejected, ack_status_to_i32}
use res_qterra_engine.Executor.{Clock, execute}
use res_qterra_engine.Executor.Verdict.{status_of}
use res_qterra_engine.Connection.{received}
use res_qterra_engine.Edge.{Happening, event, ticks, new_edge, run}
use res_qterra_engine.Edge.Idle.{rth_never_done}
use res_qterra_engine.Edge.Replies.{run-Answered, Answered}
use res_qterra_engine.Edge.FlightEvents.{handle_fc_events, handle_fc_events-all_read}
use res_qterra_engine.Mavlink.Floats.{Floats}
use res_qterra_engine.Mavlink.Messages.{other}
use res_qterra_engine.Mavlink.Link.{
  default_fc_config, new_link, polled, polled_message, poll_failed, FcAttempt, fc_opens, fc_refused,
  connection_loop,
}
use res_qterra_engine.Mavlink.Telemetry.{new_reader, process_all}

abbrev come_home : Command
come_home = record {
  command_id = 7;
  cmd_type = 3;
  expires_at_ms = 31000;
  priority = 1;
  params = none;
}

abbrev from_server : Header
from_server = record { device_id = "server"; sequence_id = 3; timestamp_ms = 1000; msg_type = 2 }

abbrev clock : Clock
clock = record { started = 1001; checked = 1002; handled = 1003; stamped = 1004 }

abbrev arrival : Happening
arrival =
    event (record { clock = clock; now = 1001; sender_open = true })
      (received (record { header = some from_server; payload = some (command come_home) }))

rth_never_done_example :
    status_of
      (execute
        (run new_edge (arrival ∷ ticks 2000 ∷ [])).cmd_executor
        clock
        come_home
        from_server).1.payload
    ≡ some (ack_status_to_i32 ack_rejected)
rth_never_done_example = rth_never_done (arrival ∷ ticks 2000 ∷ []) clock come_home from_server refl

run-Answered_example :
    Answered new_edge
      ((clock, come_home, from_server) ∷ [])
      (run new_edge (arrival ∷ ticks 2000 ∷ []))
run-Answered_example = run-Answered new_edge (arrival ∷ ticks 2000 ∷ []) (refl, tt)

-- A link over which one message comes before the read fails.
abbrev flights : List FcAttempt
flights =
    fc_refused "no port"
    ∷ fc_opens (polled (polled_message (other 1)) ∷ polled (poll_failed "reset") ∷ [])
    ∷ fc_opens (polled (polled_message (other 2)) ∷ [])
    ∷ []

abbrev toy : Floats
toy = record {
  f64_of_i32 = λ n. n;
  f64_mul = λ a b. a;
  f64_div = λ a b. a;
  i32_of_f64 = λ a. a;
  f32_of_i16 = λ n. n;
  f32_of_u16 = λ n. n;
  f32_of_i32 = λ n. n;
  f32_of_u32 = λ n. n;
  u32_of_f32 = λ a. a;
  f32_mul = λ a b. a;
  f32_div = λ a b. a;
  f32_sqrt = λ a. a;
  f32_gt = λ a b. false;
}

handle_fc_events-all_read_example :
    handle_fc_events toy
      (λ bs. "")
      (new_reader 0)
      (connection_loop default_fc_config new_link flights).0.events
    ≡ process_all toy (λ bs. "") (new_reader 0) (other 1 ∷ other 2 ∷ [])
handle_fc_events-all_read_example =
    handle_fc_events-all_read toy (λ bs. "") default_fc_config (new_reader 0) flights
