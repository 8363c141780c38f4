-- ===== src/Executor/Tests.antt =====
-- The executor on concrete commands.
use res_qterra_engine.Common.{◌≡◌, refl, some, List, [], ◌∷◌}
use res_qterra_engine.Proto.{
  drone_in_mission, drone_idle, cmd_rth, cmd_mission_abort, Command, Header, ack_status_to_i32,
  ack_rejected, mission_abort, command_type_to_i32,
}
use res_qterra_engine.StateMachine.{same_state}
use res_qterra_engine.Executor.{
  CommandExecutor, Clock, PendingCommand, new_executor, set_state, execute,
}
use res_qterra_engine.Executor.Verdict.{status_of, execute-verdict}

abbrev in_mission : CommandExecutor
unfolding new_executor set_state
in_mission = set_state (new_executor "edge-001" 1000) drone_in_mission

abbrev clock : Clock
clock = record { started = 50; checked = 51; handled = 60; stamped = 61 }

abbrev abort : Command
abort = record {
  command_id = 7;
  cmd_type = command_type_to_i32 cmd_mission_abort;
  expires_at_ms = 0;
  priority = 1;
  params = some (mission_abort (record { reason = "wind"; action = 1 }));
}

abbrev server_header : Header
server_header = record { device_id = "server"; sequence_id = 3; timestamp_ms = 49; msg_type = 2 }

execute-verdict_example :
    status_of (execute in_mission clock abort server_header).1.payload ≡ some 4
unfolding in_mission same_state
execute-verdict_example = execute-verdict in_mission clock abort server_header

rth_rejected_when_idle :
    status_of
      (execute
        (set_state in_mission drone_idle)
        clock
        (record abort { cmd_type = command_type_to_i32 cmd_rth })
        server_header).1.payload
    ≡ some (ack_status_to_i32 ack_rejected)
unfolding execute in_mission
rth_rejected_when_idle = refl

abbrev waiting : List PendingCommand
waiting =
    record { command_id = 1; sequence_id = 1; cmd_type = cmd_rth; started_at = 5 }
    ∷ record { command_id = 2; sequence_id = 2; cmd_type = cmd_rth; started_at = 6 }
    ∷ []

abbrev busy : CommandExecutor
busy = record in_mission { pending_commands = waiting }
