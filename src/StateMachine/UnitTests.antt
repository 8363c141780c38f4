-- ===== src/StateMachine/UnitTests.antt =====
-- The unit tests of shared/src/state_machine.rs.
use res_qterra_engine.Common.{◌≡◌, refl, Bool, true, false, not, ◌&&◌, [], ◌∷◌, ◌+◌}
use res_qterra_engine.Common.Asserts.{all_pass}
use res_qterra_engine.Proto.{
  DroneState, drone_idle, drone_preflight, drone_armed, drone_taking_off, drone_in_mission,
  drone_returning_home, drone_landing, drone_emergency, heartbeat_timeout_ms,
}
use res_qterra_engine.StateMachine.{
  TransitionResult, success, invalid, emergency_rth, emergency_stop, new, process_event,
  process_events, is_heartbeat_timed_out, update_heartbeat, same_state, preflight_complete, armed,
  takeoff_started, mission_started, rth_triggered, landing_started, landed, heartbeat_timeout,
  emergency_triggered,
}

-- `matches!` on a result.
abbrev pub is_success : DroneState → TransitionResult → Bool
unfolding same_state
is_success state (success to) = same_state to state
is_success state _ = false

abbrev pub is_emergency_rth : TransitionResult → Bool
is_emergency_rth (emergency_rth reason) = true
is_emergency_rth _ = false

abbrev pub is_emergency_stop : TransitionResult → Bool
is_emergency_stop (emergency_stop reason) = true
is_emergency_stop _ = false

abbrev pub is_invalid : TransitionResult → Bool
is_invalid (invalid at event) = true
is_invalid _ = false

test_initial_state : Bool
unfolding new same_state
test_initial_state = same_state new.current_state drone_idle

test_normal_mission_flow : Bool
unfolding new process_event is_success
test_normal_mission_flow =
    let (fsm, result) = process_event new preflight_complete in
    is_success drone_preflight result
    && (let (fsm, result) = process_event fsm armed in
        is_success drone_armed result
        && (let (fsm, result) = process_event fsm takeoff_started in
            is_success drone_taking_off result
            && (let (fsm, result) = process_event fsm mission_started in
                is_success drone_in_mission result
                && (let (fsm, result) = process_event fsm rth_triggered in
                    is_success drone_returning_home result
                    && (let (fsm, result) = process_event fsm landing_started in
                        is_success drone_landing result
                        && is_success drone_idle (process_event fsm landed).1)))))

test_heartbeat_timeout_triggers_rth : Bool
unfolding new process_events process_event same_state
test_heartbeat_timeout_triggers_rth =
    let fsm =
      process_events new (preflight_complete ∷ armed ∷ takeoff_started ∷ mission_started ∷ []) in
    let (fsm', result) = process_event fsm heartbeat_timeout in
    same_state fsm.current_state drone_in_mission
    && is_emergency_rth result
    && same_state fsm'.current_state drone_returning_home

test_emergency_from_any_state : Bool
unfolding new process_event same_state
test_emergency_from_any_state =
    let (fsm, result) = process_event new emergency_triggered in
    is_emergency_stop result && same_state fsm.current_state drone_emergency

test_invalid_transition : Bool
unfolding new process_event same_state
test_invalid_transition =
    let (fsm, result) = process_event new armed in
    is_invalid result && same_state fsm.current_state drone_idle

test_heartbeat_timeout_detection : Bool
unfolding new is_heartbeat_timed_out update_heartbeat
test_heartbeat_timeout_detection =
    let fsm = update_heartbeat new 1000 in
    not (is_heartbeat_timed_out new 1000)
    && not (is_heartbeat_timed_out fsm 2000)
    && is_heartbeat_timed_out fsm (1000 + heartbeat_timeout_ms + 1)

tests_pass :
    all_pass (
      test_initial_state ∷ test_normal_mission_flow ∷ test_heartbeat_timeout_triggers_rth
      ∷ test_emergency_from_any_state ∷ test_invalid_transition ∷ test_heartbeat_timeout_detection
      ∷ [])
    ≡ true
unfolding test_initial_state test_normal_mission_flow test_heartbeat_timeout_triggers_rth
    test_emergency_from_any_state test_invalid_transition test_heartbeat_timeout_detection
tests_pass = refl
