-- ===== src/Executor.antt =====
-- src/command/executor.rs: the executor of commands on the edge device. The readings of the clock
-- are an argument; the counter of sequence numbers is the executor's own, as in src/main.rs.
pub mod Handlers
pub mod Answers
pub mod Verdict
pub mod Pending
mod Tests
use res_qterra_engine.Common.{
  ℕ, ◌+◌, ◌-◌, ◌%◌, ◌^◌, String, Option, none, some, List, [], ◌∷◌, ◌++◌, ltb, ◌==◌, ◌&&◌,
  if◌then◌else◌, length, Bool,
}
use res_qterra_engine.Proto.{
  DroneState, drone_idle, CommandType, cmd_unknown, cmd_mission_start, cmd_mission_abort, cmd_rth,
  cmd_status_request, cmd_config_update, cmd_emergency_stop, command_type_try_from, AckStatus,
  ack_rejected, ack_completed, ack_failed, ack_accepted, ack_expired, ack_status_to_i32, msg_ack,
  Command, Header, Envelope, ack, new_header,
}
use Handlers.{
  HandlerContext, CommandResult, completed, failed, rejected, pending, handle_mission_start,
  handle_mission_abort, handle_rth, handle_status_request, handle_config_update,
  handle_emergency_stop,
}

pub record PendingCommand : Type 0 where
  pub command_id : ℕ  -- u64
  pub sequence_id : ℕ  -- u64
  pub cmd_type : CommandType
  pub started_at : ℕ  -- u64

pub record CommandExecutor : Type 0 where
  pub device_id : String
  pub sequence_id : ℕ  -- u64
  pub current_state : DroneState
  pub pending_commands : List PendingCommand

-- What `now_ms()` answers at its calls, in their order: at the start of `execute`, at the test of
-- the expiry, after the handler, and in the header of the answer.
pub record Clock : Type 0 where
  pub started : ℕ
  pub checked : ℕ
  pub handled : ℕ
  pub stamped : ℕ

unfoldable pub new_executor : String → ℕ → CommandExecutor
new_executor device_id sequence_id = record {
  device_id = device_id;
  sequence_id = sequence_id;
  current_state = drone_idle;
  pending_commands = [];
}

unfoldable pub set_state : CommandExecutor → DroneState → CommandExecutor
set_state x state = record x { current_state = state }

unfoldable pub pending_count : CommandExecutor → ℕ
pending_count x = length x.pending_commands % 2 ^ 32

-- `unwrap_or(CmdUnknown)`.
abbrev pub command_type : Command → CommandType
command_type c = elim (command_type_try_from c.cmd_type) [ some t ↦ t | none ↦ cmd_unknown ]

unfoldable pub create_ack :
    CommandExecutor → ℕ → ℕ → AckStatus → String → ℕ → ℕ → CommandExecutor × Envelope
create_ack x ack_sequence_id command_id status message processing_time_ms now =
    let seq = (x.sequence_id + 1) % 2 ^ 64 in
    (
      record x { sequence_id = seq },
      record {
        header = some (new_header x.device_id msg_ack seq now);
        payload = some (
            ack (record {
              ack_sequence_id = ack_sequence_id;
              command_id = command_id;
              status = ack_status_to_i32 status;
              message = message;
              processing_time_ms = processing_time_ms;
            }));
      },
    )

-- The `match` on the type of the command.
unfoldable pub dispatch : CommandType → HandlerContext → Command → CommandResult
unfolding handle_status_request handle_mission_start handle_mission_abort handle_rth
    handle_config_update handle_emergency_stop
dispatch cmd_status_request ctx command = handle_status_request ctx command
dispatch cmd_mission_start ctx command = handle_mission_start ctx command
dispatch cmd_mission_abort ctx command = handle_mission_abort ctx command
dispatch cmd_rth ctx command = handle_rth ctx command
dispatch cmd_config_update ctx command = handle_config_update ctx command
dispatch cmd_emergency_stop ctx command = handle_emergency_stop ctx command
dispatch cmd_unknown ctx command = rejected "Unknown command type"

-- `now_ms() - start_time` in 64 bits: the clock may have been set back.
abbrev pub processing_time : Clock → ℕ
processing_time t = (t.handled + 2 ^ 64 - t.started) % 2 ^ 64

add_pending : CommandExecutor → Clock → Command → Header → CommandExecutor
add_pending x t command header = record x {
  pending_commands =
      x.pending_commands
      ++ record {
        command_id = command.command_id;
        sequence_id = header.sequence_id;
        cmd_type = command_type command;
        started_at = t.started;
      }
        ∷ [];
}

-- The `match` that turns the result into an ACK.
unfoldable pub respond :
    CommandExecutor → Clock → Command → Header → CommandResult → CommandExecutor × Envelope
unfolding create_ack add_pending
respond x t command header (completed message) =
    create_ack x header.sequence_id command.command_id ack_completed message (processing_time t)
      t.stamped
respond x t command header (failed message) =
    create_ack x header.sequence_id command.command_id ack_failed message (processing_time t)
      t.stamped
respond x t command header (rejected message) =
    create_ack x header.sequence_id command.command_id ack_rejected message (processing_time t)
      t.stamped
respond x t command header pending =
    create_ack (add_pending x t command header) header.sequence_id command.command_id ack_accepted
      "Command accepted, executing" (processing_time t) t.stamped

abbrev pub is_expired_at : Command → ℕ → Bool
is_expired_at command now = ltb 0 command.expires_at_ms && ltb command.expires_at_ms now

unfoldable pub execute : CommandExecutor → Clock → Command → Header → CommandExecutor × Envelope
unfolding dispatch respond create_ack
execute x t command header =
    if is_expired_at command t.checked
    then create_ack x header.sequence_id command.command_id ack_expired
        "Command expired before execution" 0 t.stamped
    else respond x t command header (
        dispatch (command_type command)
          (record {
            device_id = x.device_id;
            current_state = x.current_state;
            command_id = command.command_id;
          })
          command)

-- `position` and `remove`: the first pending command with the identifier is taken out.
remove_first : ℕ → List PendingCommand → List PendingCommand × Option PendingCommand
remove_first command_id [] = ([], none)
remove_first command_id (c ∷ cs) =
    let (rest, found) = remove_first command_id cs in
    if c.command_id == command_id then (cs, some c) else (c ∷ rest, found)

unfoldable pub complete_pending : CommandExecutor → ℕ → CommandExecutor × Option PendingCommand
unfolding remove_first
complete_pending x command_id =
    let (left, found) = remove_first command_id x.pending_commands in
    (record x { pending_commands = left }, found)
