-- ===== src/StateMachine/Results.antt =====
-- What `process_event` answers, against the state that it leaves.
use res_qterra_engine.Common.{◌≡◌, arith}
use res_qterra_engine.Proto.{DroneState, drone_emergency, drone_returning_home}
use res_qterra_engine.StateMachine.{
  SafetyStateMachine, SafetyEvent, TransitionResult, success, invalid, emergency_rth,
  emergency_stop, process_event,
}

-- The state that an answer announces, given the state before.
abbrev pub announced : TransitionResult → DroneState
announced (success s) = s
announced (invalid from event) = from
announced (emergency_rth reason) = drone_returning_home
announced (emergency_stop reason) = drone_emergency

-- Every answer announces the state that the machine is left in, on every branch: a success names
-- the new state, an invalid event the unchanged one, an emergency RTH means returning home and an
-- emergency stop means emergency.
pub process_event-announced :
    (m : SafetyStateMachine) (e : SafetyEvent)
    → announced (process_event m e).1 ≡ (process_event m e).0.current_state
unfolding process_event
process_event-announced m e = ground arith

-- An event never touches the heartbeat time, the battery level or the geofence flag.
pub process_event_frame :
    (m : SafetyStateMachine) (e : SafetyEvent)
    → ((process_event m e).0.last_server_heartbeat_ms ≡ m.last_server_heartbeat_ms)
      × ((process_event m e).0.battery_percent ≡ m.battery_percent)
      × ((process_event m e).0.is_geofenced ≡ m.is_geofenced)
unfolding process_event
process_event_frame m e = ground arith

-- An invalid answer names the state and the event, and leaves the whole machine as it was.
pub invalid_unchanged :
    (m : SafetyStateMachine) (e e' : SafetyEvent) (from : DroneState)
    → (process_event m e).1 ≡ invalid from e'
    → ((process_event m e).0 ≡ m) × (from ≡ m.current_state) × (e' ≡ e)
unfolding process_event
invalid_unchanged m e e' from h = ground arith
