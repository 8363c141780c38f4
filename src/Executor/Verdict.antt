-- ===== src/Executor/Verdict.antt =====
-- Which commands are carried out: the handlers against a description of what is allowed.
use res_qterra_engine.Common.{
  ℕ, ◌≡◌, Option, none, some, Bool, true, false, ◌&&◌, ◌||◌, not, arith, if◌then◌else◌,
}
use res_qterra_engine.Proto.{
  DroneState, drone_idle, drone_preflight, drone_armed, drone_in_mission, CommandType, cmd_unknown,
  cmd_mission_start, cmd_mission_abort, cmd_rth, cmd_config_update, cmd_emergency_stop, AckStatus,
  ack_rejected, ack_completed, ack_expired, ack_status_to_i32, Params, mission_start, mission_abort,
  config_update, Payload, Command, Header, ack,
}
use res_qterra_engine.StateMachine.{same_state}
use res_qterra_engine.Executor.{CommandExecutor, Clock, command_type, is_expired_at, execute}

-- The parameters that a type of command cannot do without are there.
abbrev pub has_params : CommandType → Option Params → Bool
has_params cmd_mission_start (some (mission_start m)) = true
has_params cmd_mission_start _ = false
has_params cmd_mission_abort (some (mission_abort a)) = true
has_params cmd_mission_abort _ = false
has_params cmd_config_update (some (config_update c)) = true
has_params cmd_config_update _ = false
has_params cmd_unknown _ = false
has_params _ _ = true

-- The states in which a type of command is carried out: a mission starts on the ground, idle or
-- armed, is aborted only while it runs, and a drone that is not flying does not return home.
abbrev pub state_allows : CommandType → DroneState → Bool
state_allows cmd_mission_start s = same_state s drone_idle || same_state s drone_armed
state_allows cmd_mission_abort s = same_state s drone_in_mission
state_allows cmd_rth s = not (same_state s drone_idle || same_state s drone_preflight)
state_allows _ s = true

abbrev pub status_of : Option Payload → Option ℕ
status_of (some (ack a)) = some a.status
status_of _ = none

abbrev pub verdict : DroneState → Command → AckStatus
verdict s c =
    if state_allows (command_type c) s && has_params (command_type c) c.params
    then ack_completed
    else ack_rejected

-- A command that has expired when it is looked at is answered EXPIRED. Any other is answered
-- COMPLETED exactly if the state allows it and its parameters are there, and REJECTED if not;
-- no command is answered FAILED or ACCEPTED.
pub execute-verdict :
    (x : CommandExecutor) (t : Clock) (c : Command) (h : Header)
    → status_of (execute x t c h).1.payload
      ≡ some (
          ack_status_to_i32
            (if is_expired_at c t.checked then ack_expired else verdict x.current_state c))
unfolding execute same_state
execute-verdict x t c h = ground arith

-- An emergency stop that has not expired is carried out in every state, whatever its parameters.
pub emergency_stop_always :
    (x : CommandExecutor) (t : Clock) (c : Command) (h : Header)
    → command_type c ≡ cmd_emergency_stop
    → is_expired_at c t.checked ≡ false
    → status_of (execute x t c h).1.payload ≡ some (ack_status_to_i32 ack_completed)
emergency_stop_always x t c h stop fresh = rw (execute-verdict x t c h, fresh, stop)
