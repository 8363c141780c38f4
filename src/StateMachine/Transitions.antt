-- ===== src/StateMachine/Transitions.antt =====
-- The transitions that the machine makes, against the table `is_valid_transition`.
use res_qterra_engine.Common.{◌≡◌, subst, ◌↔◌, ◌⊎◌, true, arith}
use res_qterra_engine.Proto.{
  DroneState, drone_idle, drone_preflight, drone_armed, drone_taking_off, drone_in_mission,
  drone_returning_home, drone_landing, drone_emergency,
}
use res_qterra_engine.StateMachine.{
  SafetyStateMachine, SafetyEvent, process_event, is_valid_transition, preflight_complete, armed,
  takeoff_started, takeoff_complete, mission_started, rth_triggered, mission_complete, rth_complete,
  landed, emergency_triggered, emergency_cleared, heartbeat_timeout, command_timeout,
}

abbrev pub state_after : DroneState → SafetyEvent → SafetyStateMachine → DroneState
state_after s e m = (process_event (record m { current_state = s }) e).0.current_state

-- The one transition that the machine makes and the table refuses.
abbrev pub PreflightRth : DroneState → DroneState → Type 0
PreflightRth from to = (from ≡ drone_preflight) × (to ≡ drone_returning_home)

pub transition-listed :
    (m : SafetyStateMachine) (from : DroneState) (e : SafetyEvent)
    → (is_valid_transition from (state_after from e m) ≡ true)
      ⊎ PreflightRth from (state_after from e m)
unfolding process_event is_valid_transition
transition-listed m from e = ground arith

-- An event that makes a listed transition.
abbrev witness_event : DroneState → DroneState → SafetyEvent
witness_event _ drone_emergency = emergency_triggered
witness_event drone_idle drone_preflight = preflight_complete
witness_event drone_preflight drone_armed = armed
witness_event drone_preflight drone_returning_home = heartbeat_timeout
witness_event drone_armed drone_taking_off = takeoff_started
witness_event drone_taking_off drone_in_mission = mission_started
witness_event drone_taking_off drone_idle = takeoff_complete
witness_event drone_in_mission drone_returning_home = rth_triggered
witness_event drone_in_mission drone_idle = mission_complete
witness_event drone_returning_home drone_landing = rth_complete
witness_event drone_landing drone_idle = landed
witness_event drone_emergency drone_idle = emergency_cleared
witness_event drone_armed drone_returning_home = rth_triggered
witness_event drone_taking_off drone_returning_home = rth_triggered
witness_event _ _ = command_timeout

listed-reached :
    (m : SafetyStateMachine) (from to : DroneState)
    → (is_valid_transition from to ≡ true) ⊎ PreflightRth from to
    → state_after from (witness_event from to) m ≡ to
unfolding process_event is_valid_transition
listed-reached m from to h = ground arith

-- The machine can go from one state to another by a single event exactly if the table lists the
-- pair, or the pair is from preflight to returning home.
pub step-is_valid_transition :
    (m : SafetyStateMachine) (from to : DroneState)
    → ((e : SafetyEvent) × (state_after from e m ≡ to))
      ↔ ((is_valid_transition from to ≡ true) ⊎ PreflightRth from to)
step-is_valid_transition m from to = (forward, backward)
  where
    forward :
        ((e : SafetyEvent) × (state_after from e m ≡ to))
        → ((is_valid_transition from to ≡ true) ⊎ PreflightRth from to)
    forward (e, p) =
        subst (λ s. (is_valid_transition from s ≡ true) ⊎ PreflightRth from s) p
          (transition-listed m from e)

    backward :
        ((is_valid_transition from to ≡ true) ⊎ PreflightRth from to)
        → ((e : SafetyEvent) × (state_after from e m ≡ to))
    backward h = (witness_event from to, listed-reached m from to h)
