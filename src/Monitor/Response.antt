-- ===== src/Monitor/Response.antt =====
-- What a tick of the monitoring task and a battery report do to a drone in flight.
use res_qterra_engine.Common.{
  ℕ, leb, ◌≡◌, ◌≢◌, ◌⊎◌, true, false, String, [], ◌∷◌, ◌++◌, ◌||◌, arith, if◌then◌else◌,
}
use res_qterra_engine.Proto.{drone_unknown, drone_returning_home}
use res_qterra_engine.StateMachine
use res_qterra_engine.StateMachine.{is_heartbeat_timed_out, is_battery_critical}
use res_qterra_engine.StateMachine.Failsafe.{is_active}
use res_qterra_engine.Monitor.{
  SafetyMonitor, return_to_home, state, tick, auto_event, update_battery,
}

abbrev pub alarm_reason : SafetyMonitor → ℕ → String
alarm_reason m now =
    if is_heartbeat_timed_out m.fsm now then "Server heartbeat timeout" else "Battery critical"

-- One uninterrupted tick of an active monitor, when the heartbeat has timed out or the battery is
-- critical: a drone in flight or preflight is returning home, exactly one action is sent, and it
-- gives the reason, the heartbeat first.
pub tick_alarm :
    (m : SafetyMonitor) (now : ℕ)
    → m.monitoring_active ≡ true
    → is_active (state m) ≡ true
    → (is_heartbeat_timed_out m.fsm now || is_battery_critical m.fsm) ≡ true
    → tick m now ≡ (
      record m {
        fsm = record m.fsm { current_state = drone_returning_home };
        queue = m.queue ++ return_to_home (alarm_reason m now) ∷ [];
      },
      true,
    )
unfolding tick auto_event StateMachine.check_safety StateMachine.process_event
tick_alarm m now on active alarm = ground arith

-- A tick changes nothing and sends nothing if there is no alarm, or if the drone is already in a
-- safe state (idle, landing, returning home or emergency).
pub tick_quiet :
    (m : SafetyMonitor) (now : ℕ)
    → m.monitoring_active ≡ true
    → (((is_heartbeat_timed_out m.fsm now || is_battery_critical m.fsm) ≡ false)
        ⊎ ((is_active (state m) ≡ false) × (state m ≢ drone_unknown)))
    → tick m now ≡ (m, true)
unfolding tick auto_event StateMachine.check_safety StateMachine.process_event
tick_quiet m now on calm = ground arith

-- A battery report of 20 percent or less at once sends a drone in flight or preflight home, with
-- one action; a higher one only records the level.
pub update_battery_response :
    (m : SafetyMonitor) (percent : ℕ)
    → is_active (state m) ≡ true
    → update_battery m percent ≡ (
        if leb percent 20
        then record m {
          fsm = record m.fsm { current_state = drone_returning_home; battery_percent = percent };
          queue = m.queue ++ return_to_home "Battery critical" ∷ [];
        }
        else record m { fsm = record m.fsm { battery_percent = percent } })
unfolding update_battery StateMachine.process_event StateMachine.update_battery
    StateMachine.is_battery_critical
update_battery_response m percent active = ground arith
