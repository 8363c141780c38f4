-- ===== src/Executor/Handlers.antt =====
-- src/command/handlers/*.rs: one handler for each type of command. Their `println!` lines are left
-- out.
use res_qterra_engine.Common.{ℕ, String, Option, some, length}
use res_qterra_engine.Common.Text.{◌<>◌, show}
use res_qterra_engine.Proto.{
  DroneState, drone_idle, drone_preflight, drone_armed, drone_in_mission, drone_returning_home,
  drone_landing, drone_emergency, Params, mission_start, mission_abort, rth, config_update, Command,
}
use res_qterra_engine.StateMachine.{debug_state}

pub record HandlerContext : Type 0 where
  pub device_id : String
  pub current_state : DroneState
  pub command_id : ℕ  -- u64

pub data CommandResult : Type 0 where
  completed failed rejected : String → CommandResult
  pending : CommandResult

-- `handle_mission_start` after the check of the state.
start_with : Option Params → CommandResult
start_with (some (mission_start m)) = completed ("Mission " <> (m.mission_id <> " accepted"))
start_with _ = rejected "Missing mission parameters"

start_from : DroneState → Command → CommandResult
unfolding start_with
start_from drone_armed command = start_with command.params
start_from drone_idle command = start_with command.params
start_from drone_in_mission command = rejected "Already in mission"
start_from drone_returning_home command = rejected "Cannot start mission while returning/landing"
start_from drone_landing command = rejected "Cannot start mission while returning/landing"
start_from drone_emergency command = rejected "Cannot start mission in emergency state"
start_from state command = rejected ("Invalid state for mission start: " <> debug_state state)

unfoldable pub handle_mission_start : HandlerContext → Command → CommandResult
unfolding start_from
handle_mission_start ctx command = start_from ctx.current_state command

abort_with : Option Params → CommandResult
abort_with (some (mission_abort a)) = completed ("Mission aborted: " <> a.reason)
abort_with _ = rejected "Missing abort parameters"

abort_from : DroneState → Command → CommandResult
unfolding abort_with
abort_from drone_in_mission command = abort_with command.params
abort_from state command = rejected ("Not in mission (state: " <> (debug_state state <> ")"))

unfoldable pub handle_mission_abort : HandlerContext → Command → CommandResult
unfolding abort_from
handle_mission_abort ctx command = abort_from ctx.current_state command

rth_with : Option Params → CommandResult
rth_with (some (rth r)) = completed "RTH initiated"
rth_with _ = completed "RTH initiated with defaults"

rth_from : DroneState → Command → CommandResult
unfolding rth_with
rth_from drone_idle command = rejected "Drone is not flying, RTH not needed"
rth_from drone_preflight command = rejected "Drone is not flying, RTH not needed"
rth_from drone_returning_home command = completed "Already returning home"
rth_from drone_landing command = completed "Already landing"
rth_from _ command = rth_with command.params

unfoldable pub handle_rth : HandlerContext → Command → CommandResult
unfolding rth_from
handle_rth ctx command = rth_from ctx.current_state command

unfoldable pub handle_status_request : HandlerContext → Command → CommandResult
handle_status_request ctx command = completed ("Status: " <> debug_state ctx.current_state)

config_with : Option Params → CommandResult
config_with (some (config_update c)) =
    completed ("Applied " <> (show (length c.config) <> " config entries"))
config_with _ = rejected "Missing config parameters"

unfoldable pub handle_config_update : HandlerContext → Command → CommandResult
unfolding config_with
handle_config_update ctx command = config_with command.params

unfoldable pub handle_emergency_stop : HandlerContext → Command → CommandResult
handle_emergency_stop ctx command = completed "EMERGENCY STOP EXECUTED - Motors killed"
