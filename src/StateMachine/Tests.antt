-- ===== src/StateMachine/Tests.antt =====
-- Runs of the state machine on the flights of shared/src/state_machine.rs, and its theorems at
-- concrete machines.
use mathlib.Core.List.{Sublistᴰ}
use res_qterra_engine.Common.{◌≡◌, refl, ◌↔◌, ◌⊎◌, true, false, List, [], ◌∷◌}
use res_qterra_engine.Proto.{drone_idle, drone_preflight, drone_in_mission, drone_returning_home}
use res_qterra_engine.StateMachine.{
  SafetyStateMachine, SafetyEvent, success, invalid, emergency_rth, new, process_event,
  process_events, check_safety, is_heartbeat_timed_out, is_valid_transition, preflight_complete,
  armed, takeoff_started, mission_started, rth_triggered, landing_started, landed,
  heartbeat_timeout, battery_critical,
}
use res_qterra_engine.StateMachine.Transitions.{state_after, PreflightRth, step-is_valid_transition}
use res_qterra_engine.StateMachine.Failsafe.{forced_idempotent, process_events-check_safety}
use res_qterra_engine.StateMachine.Arming.{process_events-gone_through}

abbrev to_mission : List SafetyEvent
to_mission = preflight_complete ∷ armed ∷ takeoff_started ∷ mission_started ∷ []

abbrev flying : SafetyStateMachine
flying = record {
  current_state = drone_in_mission;
  last_server_heartbeat_ms = 1000;
  battery_percent = 15;
  is_geofenced = false;
}

normal_mission_flow : (process_events new to_mission).current_state ≡ drone_in_mission
unfolding process_events new
normal_mission_flow = refl

mission_and_back :
    (process_events flying (rth_triggered ∷ landing_started ∷ landed ∷ [])).current_state
    ≡ drone_idle
unfolding process_events
mission_and_back = refl

heartbeat_timeout_triggers_rth :
    (process_event flying heartbeat_timeout).1 ≡ emergency_rth "Server heartbeat timeout"
unfolding process_event
heartbeat_timeout_triggers_rth = refl

arm_needs_preflight : (process_event new armed).1 ≡ invalid drone_idle armed
unfolding process_event new
arm_needs_preflight = refl

step-is_valid_transition_example :
    ((e : SafetyEvent) × (state_after drone_preflight e flying ≡ drone_returning_home)) ↔ (
      (is_valid_transition drone_preflight drone_returning_home ≡ true)
      ⊎ PreflightRth drone_preflight drone_returning_home)
step-is_valid_transition_example =
    step-is_valid_transition flying drone_preflight drone_returning_home

forced_idempotent_example :
    let safe = (process_event flying heartbeat_timeout).0 in
    process_event safe battery_critical ≡ (safe, success safe.current_state)
forced_idempotent_example =
    forced_idempotent flying heartbeat_timeout battery_critical "Server heartbeat timeout"
      "Battery critical" refl refl

process_events-check_safety_example :
    process_events flying (check_safety flying 20000)
    ≡ record flying { current_state = drone_returning_home }
unfolding is_heartbeat_timed_out
process_events-check_safety_example = process_events-check_safety flying 20000

process_events-gone_through_example : Sublistᴰ to_mission (armed ∷ to_mission)
unfolding process_events new
process_events-gone_through_example = process_events-gone_through (armed ∷ to_mission)
