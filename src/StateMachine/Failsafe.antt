-- ===== src/StateMachine/Failsafe.antt =====
-- The safety events: emergency, heartbeat loss, battery and geofence.
use res_qterra_engine.Common.{
  ℕ, ◌≡◌, ◌≢◌, ◌↔◌, true, false, ◌||◌, Bool, Option, some, none, String, arith, if◌then◌else◌,
}
use res_qterra_engine.Proto.{
  DroneState, drone_unknown, drone_idle, drone_preflight, drone_armed, drone_taking_off,
  drone_in_mission, drone_returning_home, drone_landing, drone_emergency,
}
use res_qterra_engine.StateMachine.{
  SafetyStateMachine, SafetyEvent, success, invalid, emergency_rth, process_event, process_events,
  check_safety, is_heartbeat_timed_out, is_battery_critical, heartbeat_timeout, battery_critical,
  geofence_breach, emergency_triggered, emergency_cleared, takeoff_complete, mission_started,
}

abbrev pub is_active : DroneState → Bool
is_active drone_preflight = true
is_active drone_armed = true
is_active drone_taking_off = true
is_active drone_in_mission = true
is_active _ = false

-- The reason that the three events give which force a return to home.
abbrev pub forced_reason : SafetyEvent → Option String
forced_reason heartbeat_timeout = some "Server heartbeat timeout"
forced_reason battery_critical = some "Battery critical"
forced_reason geofence_breach = some "Geofence breach"
forced_reason _ = none

-- The state after an event that forces a return to home.
abbrev pub failsafe_target : DroneState → DroneState
failsafe_target drone_unknown = drone_emergency
failsafe_target drone_idle = drone_idle
failsafe_target drone_landing = drone_landing
failsafe_target drone_emergency = drone_emergency
failsafe_target _ = drone_returning_home

-- Each of the three events brings an active drone home, puts a drone in an unknown state into
-- emergency, and leaves every other state alone; the answer is an emergency RTH, with the reason of
-- the event, exactly if the drone was active.
pub forced-failsafe_target :
    (m : SafetyStateMachine) (e : SafetyEvent) (reason : String)
    → forced_reason e ≡ some reason
    → ((process_event m e).0 ≡ record m { current_state = failsafe_target m.current_state })
      × (((process_event m e).1 ≡ emergency_rth reason) ↔ (is_active m.current_state ≡ true))
unfolding process_event
forced-failsafe_target m e reason h = ground arith

-- After one of the three events no further one of them changes the machine.
pub forced_idempotent :
    (m : SafetyStateMachine) (e e' : SafetyEvent) (r r' : String)
    → forced_reason e ≡ some r
    → forced_reason e' ≡ some r'
    → let safe = (process_event m e).0 in process_event safe e' ≡ (safe, success safe.current_state)
unfolding process_event
forced_idempotent m e e' r r' h h' = ground arith

-- An emergency stop is taken from every state, and only an explicit clearing leaves it.
pub emergency_latched :
    (m : SafetyStateMachine) (e : SafetyEvent)
    → e ≢ emergency_cleared
    → let stopped = (process_event m emergency_triggered).0 in
      (stopped.current_state ≡ drone_emergency)
      × ((process_event stopped e).0.current_state ≡ drone_emergency)
unfolding process_event
emergency_latched m e h = ground arith

-- Handling all that `check_safety` reports: if the heartbeat has timed out or the battery is
-- critical, an active drone returns home (an unknown state goes to emergency, a safe one stays),
-- and otherwise nothing changes.
pub process_events-check_safety :
    (m : SafetyStateMachine) (now : ℕ)
    → process_events m (check_safety m now) ≡ (
        if is_heartbeat_timed_out m now || is_battery_critical m
        then record m { current_state = failsafe_target m.current_state }
        else m)
unfolding process_events check_safety process_event
process_events-check_safety m now = ground arith

-- Once takeoff is reported complete the machine is idle: it refuses to start the mission, and a
-- lost heartbeat, a critical battery or a geofence breach no longer brings the drone home.
pub takeoff_complete_disarms :
    (m : SafetyStateMachine) (e : SafetyEvent) (reason : String)
    → m.current_state ≡ drone_taking_off
    → forced_reason e ≡ some reason
    → let up = (process_event m takeoff_complete).0 in
      ((process_event up e).1 ≡ success drone_idle)
      × ((process_event up e).0 ≡ up)
      × ((process_event up mission_started).1 ≡ invalid drone_idle mission_started)
unfolding process_event
takeoff_complete_disarms m e reason flying h = ground arith
