-- ===== src/Proto/Builders.antt =====
-- shared/src/lib.rs: the safety constants and the builders of messages. The clock reading of
-- `now_ms` is an argument, named `now`.
use res_qterra_engine.Common.{ℕ, String, Bool, false, ltb, ◌==◌, if◌then◌else◌}
use res_qterra_engine.Proto.Enums.{
  DroneState, MessageType, AckStatus, ack_received, ack_completed, ack_failed, ack_rejected,
  ack_expired, drone_state_to_i32, message_type_to_i32, ack_status_to_i32,
}
use res_qterra_engine.Proto.Messages.{Header, Heartbeat, Ack, Command}

abbrev pub heartbeat_interval_ms : ℕ
heartbeat_interval_ms = 1000

abbrev pub heartbeat_timeout_ms : ℕ
heartbeat_timeout_ms = 10000

abbrev pub command_ack_timeout_ms : ℕ
command_ack_timeout_ms = 3000

abbrev pub command_max_retries : ℕ
command_max_retries = 3

abbrev pub command_max_age_ms : ℕ
command_max_age_ms = 30000

abbrev pub battery_critical_percent : ℕ
battery_critical_percent = 20

abbrev pub new_header : String → MessageType → ℕ → ℕ → Header
new_header device_id msg_type sequence_id now = record {
  device_id = device_id;
  sequence_id = sequence_id;
  timestamp_ms = now;
  msg_type = message_type_to_i32 msg_type;
}

abbrev pub new_heartbeat : ℕ → DroneState → ℕ → Bool → Heartbeat
new_heartbeat uptime_ms state pending_commands healthy = record {
  uptime_ms = uptime_ms;
  state = drone_state_to_i32 state;
  pending_commands = pending_commands;
  healthy = healthy;
}

abbrev ack_of : ℕ → ℕ → AckStatus → String → ℕ → Ack
ack_of sequence_id command_id status message processing_time_ms = record {
  ack_sequence_id = sequence_id;
  command_id = command_id;
  status = ack_status_to_i32 status;
  message = message;
  processing_time_ms = processing_time_ms;
}

unfoldable pub received : ℕ → ℕ → Ack
received sequence_id command_id = ack_of sequence_id command_id ack_received "" 0

unfoldable pub completed : ℕ → ℕ → ℕ → Ack
completed sequence_id command_id processing_time_ms =
    ack_of sequence_id command_id ack_completed "" processing_time_ms

unfoldable pub failed : ℕ → ℕ → String → Ack
failed sequence_id command_id message = ack_of sequence_id command_id ack_failed message 0

unfoldable pub rejected : ℕ → ℕ → String → Ack
rejected sequence_id command_id message = ack_of sequence_id command_id ack_rejected message 0

unfoldable pub expired : ℕ → ℕ → Ack
expired sequence_id command_id = ack_of sequence_id command_id ack_expired "Command expired" 0

-- `Command::is_expired`: an expiry of 0 is none.
unfoldable pub command_is_expired : Command → ℕ → Bool
command_is_expired c now = if c.expires_at_ms == 0 then false else ltb c.expires_at_ms now
