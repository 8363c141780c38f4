-- ===== src/Dispatcher/Tests.antt =====
-- The dispatcher's theorems on a table with one command.
use res_qterra_engine.Common.{◌≡◌, refl, none, some, [], ◌∷◌, arith, Result, ok, err}
use res_qterra_engine.Common.Dict
use res_qterra_engine.Proto.{Envelope, Command, Ack, cmd_rth}
use res_qterra_engine.Codec.{Prost}
use res_qterra_engine.Sessions.Handle.{SendError, not_connected}
use res_qterra_engine.Dispatcher.{PendingCommand, CommandDispatcher, retry_command}
use res_qterra_engine.Dispatcher.Tracking.{pending_at, IsTracked}
use res_qterra_engine.Dispatcher.Acks.{retry_command-pending_at}

abbrev rth : PendingCommand
rth = record {
  command_id = 7;
  sequence_id = 3;
  device_id = "edge-001";
  cmd_type = cmd_rth;
  sent_at = 1000;
  expires_at = 31000;
  retries = 2;
  max_retries = 3;
}

abbrev one_sent : CommandDispatcher
one_sent = record { sequence_id = 3; last_command_id = 7; pending = (7, rth) ∷ [] }

one_sent-IsTracked : IsTracked one_sent
unfolding Dict.get
one_sent-IsTracked = record { unique = (refl, tt); own = ((refl, omega arith, omega arith), tt) }

-- A serialiser whose messages are empty.
abbrev blank : Prost Envelope Unit Unit
blank = record { encoded_len = λ e. 0; encode = λ e buf. ok buf; decode = λ b. err tt }

abbrev status_request : Command
status_request = record {
  command_id = 8;
  cmd_type = 4;
  expires_at_ms = 0;
  priority = 0;
  params = none;
}

abbrev no_drone : Result (SendError Unit Unit) (Unit {0})
no_drone = err (not_connected "edge-001")

abbrev done : Ack
done = record {
  ack_sequence_id = 3;
  command_id = 7;
  status = 4;
  message = "";
  processing_time_ms = 12;
}

retry_command-pending_at_example :
    pending_at 7 (retry_command one_sent 5000 5001 7).0
    ≡ some (record rth { retries = 3; sent_at = 5001 })
unfolding Dict.get
retry_command-pending_at_example = retry_command-pending_at one_sent 5000 5001 7 7
