-- ===== src/Monitor/Race.antt =====
-- The monitoring task gives up the lock between its transition and the send of its action.
use res_qterra_engine.Common.{◌≡◌, refl, some, [], ◌∷◌, ◌++◌, String, true, arith}
use res_qterra_engine.Proto.{DroneState, drone_emergency, drone_returning_home}
use res_qterra_engine.StateMachine
use res_qterra_engine.StateMachine.{SafetyEvent}
use res_qterra_engine.StateMachine.Failsafe.{forced_reason, is_active}
use res_qterra_engine.Monitor.{
  SafetyMonitor, state, trigger_emergency, auto_transition, send_auto, return_to_home, stop_now,
}
use res_qterra_engine.Monitor.Actions.{replay_all, replay_all-append}

auto_transition-forced :
    (m : SafetyMonitor) (e : SafetyEvent) (reason : String)
    → is_active (state m) ≡ true
    → forced_reason e ≡ some reason
    → auto_transition m e ≡ (
      record m { fsm = record m.fsm { current_state = drone_returning_home } },
      some (return_to_home reason),
    )
unfolding auto_transition StateMachine.process_event
auto_transition-forced m e reason active h = ground arith

-- If an emergency stop comes between the task's transition and the send of its action, while the
-- drone is active, the machine is in emergency, but the return home is sent after the stop: a
-- receiver of the actions ends up in the belief that the drone is returning home.
pub send_auto-after_emergency :
    (m : SafetyMonitor) (e : SafetyEvent) (reason : String) (seen : DroneState)
    → is_active (state m) ≡ true
    → forced_reason e ≡ some reason
    → let (changed, action) = auto_transition m e in
      let sent = send_auto (trigger_emergency changed).0 action in
      (state sent ≡ drone_emergency) × (replay_all seen sent.queue ≡ drone_returning_home)
unfolding trigger_emergency send_auto StateMachine.process_event
send_auto-after_emergency m e reason seen active h =
    rw (auto_transition-forced m e reason active h) (
      refl,
      replay_all-append seen
          (m.queue ++ stop_now "Emergency triggered from DroneReturningHome" ∷ [])
          (return_to_home reason),
    )
