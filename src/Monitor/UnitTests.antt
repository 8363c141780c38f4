-- ===== src/Monitor/UnitTests.antt =====
-- The unit tests of src/safety/monitor.rs.
use res_qterra_engine.Common.{◌≡◌, refl, Bool, true, false, ◌&&◌, [], ◌∷◌}
use res_qterra_engine.Common.Asserts.{all_pass, is_none}
use res_qterra_engine.Proto.{DroneState, drone_idle, drone_returning_home, drone_emergency}
use res_qterra_engine.StateMachine
use res_qterra_engine.StateMachine.{
  same_state, preflight_complete, armed, takeoff_started, mission_started,
}
use res_qterra_engine.Monitor.{
  SafetyAction, stop_now, state_changed, new_monitor, state, process_event, update_server_heartbeat,
  try_recv_action, trigger_rth, trigger_emergency,
}

-- `matches!` on an action.
abbrev is_change_to : DroneState → SafetyAction → Bool
unfolding same_state
is_change_to s (state_changed from to) = same_state to s
is_change_to s _ = false

abbrev is_stop : SafetyAction → Bool
is_stop (stop_now reason) = true
is_stop _ = false

test_safety_monitor_creation : Bool
unfolding new_monitor StateMachine.new same_state
test_safety_monitor_creation = same_state (state new_monitor) drone_idle

-- The clock of the update is `now_ms()`; any reading does.
test_heartbeat_update : Bool
unfolding new_monitor update_server_heartbeat try_recv_action
test_heartbeat_update = is_none (try_recv_action (update_server_heartbeat new_monitor 1000)).1

test_manual_rth : Bool
unfolding new_monitor StateMachine.new process_event StateMachine.process_event trigger_rth
    is_change_to
test_manual_rth =
    let m = (process_event new_monitor preflight_complete).0 in
    let m = (process_event m armed).0 in
    let m = (process_event m takeoff_started).0 in
    let m = (process_event m mission_started).0 in
    is_change_to drone_returning_home (trigger_rth m).1

test_emergency_stop : Bool
unfolding new_monitor StateMachine.new trigger_emergency StateMachine.process_event same_state
test_emergency_stop =
    let (m, action) = trigger_emergency new_monitor in
    is_stop action && same_state (state m) drone_emergency

tests_pass :
    all_pass (
      test_safety_monitor_creation ∷ test_heartbeat_update ∷ test_manual_rth ∷ test_emergency_stop
      ∷ [])
    ≡ true
unfolding test_safety_monitor_creation test_heartbeat_update test_manual_rth test_emergency_stop
tests_pass = refl
