-- ===== src/Monitor/Tests.antt =====
-- The tests of src/safety/monitor.rs, and the theorems about the monitor at concrete runs.
use res_qterra_engine.Common.{◌≡◌, refl, none, true, false, [], ◌∷◌, inr}
use res_qterra_engine.Proto.{drone_in_mission, drone_returning_home, drone_emergency}
use res_qterra_engine.StateMachine
use res_qterra_engine.StateMachine.{
  SafetyStateMachine, SafetyEvent, emergency_triggered, heartbeat_timeout, battery_critical,
  preflight_complete, armed,
}
use res_qterra_engine.Monitor.{
  SafetyMonitor, stop_now, state_changed, state, new_monitor, process_event, tick, set_battery,
  trigger_rth, trigger_emergency, start_monitoring, auto_transition, send_auto,
}
use res_qterra_engine.Monitor.Actions.{replay_all, process_event-replay}
use res_qterra_engine.Monitor.Response.{tick_quiet}
use res_qterra_engine.Monitor.Race.{send_auto-after_emergency}
use res_qterra_engine.Monitor.Interleaving.{
  Running, start, Step, Reach, check, begin, event, battery_event, next, here, observer_in_step,
}

abbrev in_flight : SafetyMonitor
in_flight = record {
  fsm = record {
    current_state = drone_in_mission;
    last_server_heartbeat_ms = 1000;
    battery_percent = 15;
    is_geofenced = false;
  };
  queue = [];
  monitoring_active = true;
}

manual_rth : (trigger_rth in_flight).1 ≡ state_changed drone_in_mission drone_returning_home
unfolding trigger_rth StateMachine.process_event
manual_rth = refl

emergency_stops : (trigger_emergency new_monitor).1 ≡ stop_now "Emergency triggered from DroneIdle"
unfolding trigger_emergency StateMachine.process_event new_monitor StateMachine.new
emergency_stops = refl

second_start_panics : start_monitoring in_flight ≡ none
unfolding start_monitoring
second_start_panics = refl

process_event-replay_example :
    replay_all drone_in_mission (process_event in_flight emergency_triggered).0.queue
    ≡ state (process_event in_flight emergency_triggered).0
process_event-replay_example =
    process_event-replay in_flight emergency_triggered drone_in_mission refl

abbrev returning : SafetyMonitor
returning = record in_flight { fsm = record in_flight.fsm { current_state = drone_returning_home } }

tick_quiet_example : tick returning 20000 ≡ (returning, true)
tick_quiet_example = tick_quiet returning 20000 refl (inr (refl, λ e. cc))

-- The drone is in preflight when the task finds the battery critical.
abbrev preflight : Running
preflight = record start { monitor = (process_event start.monitor preflight_complete).0 }

-- A caller has found the battery critical, and the drone is armed before it gets to process that.
abbrev low : Running
low = record preflight { monitor = (set_battery preflight.monitor 5).0; critical = 1 }

abbrev raised_low : Running
raised_low = record low { monitor = (process_event low.monitor armed).0 }

abbrev handled : Running
handled = record raised_low {
  monitor = (process_event raised_low.monitor battery_critical).0;
  critical = 0;
}

handled_reached : Reach start handled
unfolding new_monitor StateMachine.update_battery StateMachine.is_battery_critical
handled_reached =
    next
      (next (next (next here (event preflight_complete refl)) (Step.battery 5 refl))
        (event armed refl))
      (battery_event 0 refl refl)

observer_in_step_example : replay_all handled.seen handled.monitor.queue ≡ state handled.monitor
observer_in_step_example = observer_in_step handled_reached

send_auto-after_emergency_example :
    let (changed, action) = auto_transition in_flight battery_critical in
    let sent = send_auto (trigger_emergency changed).0 action in
    (state sent ≡ drone_emergency) × (replay_all drone_in_mission sent.queue ≡ drone_returning_home)
send_auto-after_emergency_example =
    send_auto-after_emergency in_flight battery_critical "Battery critical" drone_in_mission refl
      refl

-- The battery is found critical while the drone is idle, and preflight is complete before the task
-- gets to process that.
abbrev active : SafetyMonitor
active = record new_monitor { monitoring_active = true }

abbrev started : Running
started = record start { monitor = active }

abbrev weak : Running
weak = record started { monitor = (set_battery active 5).0; critical = 1 }

abbrev found : Running
found = record weak { pending = battery_critical ∷ [] }

abbrev raised : Running
raised = record found { monitor = (process_event found.monitor preflight_complete).0 }

raised_reached : Reach start raised
unfolding new_monitor start_monitoring StateMachine.check_safety StateMachine.process_event
    StateMachine.new StateMachine.update_battery StateMachine.is_battery_critical
raised_reached =
    next
      (next (next (next here (begin active refl refl)) (Step.battery 5 refl))
        (check 1000 refl refl refl))
      (event preflight_complete refl)
