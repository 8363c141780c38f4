-- ===== src/StateMachine.antt =====
-- shared/src/state_machine.rs: the safety state machine of the drone. A method on `&mut self`
-- returns the new machine and its result.
pub mod Results
pub mod Transitions
pub mod Failsafe
pub mod Timing
pub mod Arming
mod Tests
mod UnitTests
use res_qterra_engine.Common.{
  ℕ, ◌-◌, String, Option, none, some, Bool, true, false, List, [], ◌∷◌, ◌++◌, ltb, leb, ◌==◌,
  if◌then◌else◌,
}
use res_qterra_engine.Common.Text.{◌<>◌}
use res_qterra_engine.Proto.{
  DroneState, drone_unknown, drone_idle, drone_preflight, drone_armed, drone_taking_off,
  drone_in_mission, drone_returning_home, drone_landing, drone_emergency, heartbeat_timeout_ms,
  battery_critical_percent, drone_state_to_i32,
}

pub data SafetyEvent : Type 0 where
  initialized preflight_complete armed takeoff_started takeoff_complete : SafetyEvent
  mission_started mission_complete rth_triggered rth_complete landing_started : SafetyEvent
  landed emergency_triggered emergency_cleared heartbeat_timeout : SafetyEvent
  battery_critical geofence_breach command_timeout : SafetyEvent

pub data TransitionResult : Type 0 where
  success : DroneState → TransitionResult
  invalid : DroneState → SafetyEvent → TransitionResult
  emergency_rth : String → TransitionResult
  emergency_stop : String → TransitionResult

pub record SafetyStateMachine : Type 0 where
  pub current_state : DroneState
  pub last_server_heartbeat_ms : ℕ  -- u64
  pub battery_percent : ℕ  -- u32
  pub is_geofenced : Bool

-- What `{:?}` prints of a state.
abbrev pub debug_state : DroneState → String
debug_state drone_unknown = "DroneUnknown"
debug_state drone_idle = "DroneIdle"
debug_state drone_preflight = "DronePreflight"
debug_state drone_armed = "DroneArmed"
debug_state drone_taking_off = "DroneTakingOff"
debug_state drone_in_mission = "DroneInMission"
debug_state drone_returning_home = "DroneReturningHome"
debug_state drone_landing = "DroneLanding"
debug_state drone_emergency = "DroneEmergency"

unfoldable pub new : SafetyStateMachine
new = record {
  current_state = drone_idle;
  last_server_heartbeat_ms = 0;
  battery_percent = 100;
  is_geofenced = false;
}

unfoldable pub update_heartbeat : SafetyStateMachine → ℕ → SafetyStateMachine
update_heartbeat m timestamp_ms = record m { last_server_heartbeat_ms = timestamp_ms }

unfoldable pub update_battery : SafetyStateMachine → ℕ → SafetyStateMachine
update_battery m percent = record m { battery_percent = percent }

-- `saturating_sub` is the truncated subtraction.
unfoldable pub is_heartbeat_timed_out : SafetyStateMachine → ℕ → Bool
is_heartbeat_timed_out m current_time_ms =
    if m.last_server_heartbeat_ms == 0
    then false
    else ltb heartbeat_timeout_ms (current_time_ms - m.last_server_heartbeat_ms)

unfoldable pub is_battery_critical : SafetyStateMachine → Bool
is_battery_critical m = leb m.battery_percent battery_critical_percent

-- The `match` of `get_next_state`.
unfoldable pub next_state : DroneState → SafetyEvent → Option DroneState
next_state drone_idle initialized = some drone_idle
next_state drone_idle preflight_complete = some drone_preflight
next_state drone_preflight armed = some drone_armed
next_state drone_armed takeoff_started = some drone_taking_off
next_state drone_taking_off takeoff_complete = some drone_idle
next_state drone_taking_off mission_started = some drone_in_mission
next_state drone_in_mission mission_complete = some drone_idle
next_state drone_in_mission rth_triggered = some drone_returning_home
next_state drone_returning_home rth_complete = some drone_landing
next_state drone_returning_home landing_started = some drone_landing
next_state drone_landing landed = some drone_idle
next_state drone_emergency emergency_cleared = some drone_idle
next_state drone_armed rth_triggered = some drone_returning_home
next_state drone_taking_off rth_triggered = some drone_returning_home
next_state _ _ = none

unfoldable pub get_next_state : SafetyStateMachine → SafetyEvent → Option DroneState
unfolding next_state
get_next_state m event = next_state m.current_state event

-- The `match` of `trigger_safety_rth`.
safety_rth : DroneState → SafetyStateMachine → String → SafetyStateMachine × TransitionResult
safety_rth drone_idle m reason = (m, success drone_idle)
safety_rth drone_landing m reason = (m, success drone_landing)
safety_rth drone_returning_home m reason = (m, success drone_returning_home)
safety_rth drone_emergency m reason = (m, success drone_emergency)
safety_rth drone_unknown m reason =
    (record m { current_state = drone_emergency }, emergency_stop (reason <> " (unknown state)"))
safety_rth _ m reason = (record m { current_state = drone_returning_home }, emergency_rth reason)

unfoldable pub trigger_safety_rth :
    SafetyStateMachine → String → SafetyStateMachine × TransitionResult
unfolding safety_rth
trigger_safety_rth m reason = safety_rth m.current_state m reason

-- The last part of `process_event`, on the result of `get_next_state`.
normal_transition :
    SafetyStateMachine → SafetyEvent → Option DroneState → SafetyStateMachine × TransitionResult
normal_transition m event (some state) = (record m { current_state = state }, success state)
normal_transition m event none = (m, invalid m.current_state event)

unfoldable pub process_event :
    SafetyStateMachine → SafetyEvent → SafetyStateMachine × TransitionResult
unfolding trigger_safety_rth normal_transition get_next_state
process_event m emergency_triggered = (
  record m { current_state = drone_emergency },
  emergency_stop ("Emergency triggered from " <> debug_state m.current_state),
)
process_event m heartbeat_timeout = trigger_safety_rth m "Server heartbeat timeout"
process_event m battery_critical = trigger_safety_rth m "Battery critical"
process_event m geofence_breach = trigger_safety_rth m "Geofence breach"
process_event m event = normal_transition m event (get_next_state m event)

unfoldable pub check_safety : SafetyStateMachine → ℕ → List SafetyEvent
unfolding is_heartbeat_timed_out is_battery_critical
check_safety m current_time_ms =
    (if is_heartbeat_timed_out m current_time_ms then heartbeat_timeout ∷ [] else [])
    ++ (if is_battery_critical m then battery_critical ∷ [] else [])

-- The specific transitions of `is_valid_transition`.
specific_transition : DroneState → DroneState → Bool
specific_transition _ drone_emergency = true
specific_transition drone_idle drone_preflight = true
specific_transition drone_preflight drone_armed = true
specific_transition drone_armed drone_taking_off = true
specific_transition drone_taking_off drone_in_mission = true
specific_transition drone_taking_off drone_idle = true
specific_transition drone_in_mission drone_returning_home = true
specific_transition drone_in_mission drone_idle = true
specific_transition drone_returning_home drone_landing = true
specific_transition drone_landing drone_idle = true
specific_transition drone_emergency drone_idle = true
specific_transition drone_armed drone_returning_home = true
specific_transition drone_taking_off drone_returning_home = true
specific_transition _ _ = false

-- `a == b` on states.
unfoldable pub same_state : DroneState → DroneState → Bool
same_state a b = drone_state_to_i32 a == drone_state_to_i32 b

unfoldable pub is_valid_transition : DroneState → DroneState → Bool
unfolding same_state specific_transition
is_valid_transition from to = if same_state from to then true else specific_transition from to

-- The events of a run of the machine, one after the other.
unfoldable pub process_events : SafetyStateMachine → List SafetyEvent → SafetyStateMachine
unfolding process_event
process_events m [] = m
process_events m (e ∷ es) = process_events (process_event m e).0 es
