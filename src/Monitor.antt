-- ===== src/Monitor.antt =====
-- src/safety/monitor.rs: the safety monitor of the edge device. The unbounded channel of actions is
-- a list, oldest first; its receiver lives as long as the monitor, so a send always succeeds.
pub mod Actions
pub mod Response
pub mod Interleaving
pub mod Race
mod Tests
mod UnitTests
use res_qterra_engine.Common.{
  ℕ, String, Option, none, some, Bool, true, false, not, List, [], ◌∷◌, ◌++◌, if◌then◌else◌,
}
use res_qterra_engine.Proto.{DroneState}
use res_qterra_engine.StateMachine
use res_qterra_engine.StateMachine.{
  SafetyStateMachine, SafetyEvent, TransitionResult, success, invalid, emergency_rth,
  emergency_stop, rth_triggered, emergency_triggered, mission_started, mission_complete,
  battery_critical, same_state,
}

pub data SafetyAction : Type 0 where
  return_to_home : String → SafetyAction
  stop_now : String → SafetyAction
  state_changed : DroneState → DroneState → SafetyAction
  no_action : SafetyAction

pub record SafetyMonitor : Type 0 where
  pub fsm : SafetyStateMachine
  pub queue : List SafetyAction
  pub monitoring_active : Bool

unfoldable pub new_monitor : SafetyMonitor
new_monitor = record { fsm = StateMachine.new; queue = []; monitoring_active = false }

abbrev pub state : SafetyMonitor → DroneState
state m = m.fsm.current_state

-- The `match` of `process_event`, on the state before and the result.
unfoldable pub action_of : DroneState → TransitionResult → SafetyAction
unfolding same_state
action_of from (success to) = if not (same_state from to) then state_changed from to else no_action
action_of from (invalid at event) = no_action
action_of from (emergency_rth reason) = return_to_home reason
action_of from (emergency_stop reason) = stop_now reason

-- `action_tx.send`, unless there is no action.
unfoldable pub send_action : SafetyMonitor → SafetyAction → SafetyMonitor
send_action m no_action = m
send_action m action = record m { queue = m.queue ++ action ∷ [] }

unfoldable pub process_event : SafetyMonitor → SafetyEvent → SafetyMonitor × SafetyAction
unfolding send_action action_of
process_event m event =
    let (fsm, result) = StateMachine.process_event m.fsm event in
    let action = action_of m.fsm.current_state result in
    (send_action (record m { fsm = fsm }) action, action)

unfoldable pub update_server_heartbeat : SafetyMonitor → ℕ → SafetyMonitor
update_server_heartbeat m now = record m { fsm = StateMachine.update_heartbeat m.fsm now }

-- `update_battery` until it gives up the lock, and whether `process_event` follows.
abbrev pub set_battery : SafetyMonitor → ℕ → SafetyMonitor × Bool
set_battery m percent =
    let fsm = StateMachine.update_battery m.fsm percent in
    (record m { fsm = fsm }, StateMachine.is_battery_critical fsm)

-- All of it, where no other call comes between its two parts.
unfoldable pub update_battery : SafetyMonitor → ℕ → SafetyMonitor
unfolding process_event
update_battery m percent =
    let (m', low) = set_battery m percent in
    if low then (process_event m' battery_critical).0 else m'

unfoldable pub trigger_rth : SafetyMonitor → SafetyMonitor × SafetyAction
unfolding process_event
trigger_rth m = process_event m rth_triggered

unfoldable pub trigger_emergency : SafetyMonitor → SafetyMonitor × SafetyAction
unfolding process_event
trigger_emergency m = process_event m emergency_triggered

unfoldable pub start_mission : SafetyMonitor → SafetyMonitor × SafetyAction
unfolding process_event
start_mission m = process_event m mission_started

unfoldable pub complete_mission : SafetyMonitor → SafetyMonitor × SafetyAction
unfolding process_event
complete_mission m = process_event m mission_complete

pop_action : List SafetyAction → SafetyMonitor → SafetyMonitor × Option SafetyAction
pop_action [] m = (m, none)
pop_action (action ∷ rest) m = (record m { queue = rest }, some action)

-- `try_recv_action`; `recv_action` waits until it would not be `none`.
unfoldable pub try_recv_action : SafetyMonitor → SafetyMonitor × Option SafetyAction
unfolding pop_action
try_recv_action m = pop_action m.queue m

-- `none` is the panic on a second start.
unfoldable pub start_monitoring : SafetyMonitor → Option SafetyMonitor
start_monitoring m =
    if m.monitoring_active then none else some (record m { monitoring_active = true })

unfoldable pub stop : SafetyMonitor → SafetyMonitor
stop m = record m { monitoring_active = false }

-- The `match` of the monitoring task, whose last branch skips the send.
unfoldable pub auto_action : DroneState → TransitionResult → Option SafetyAction
unfolding same_state
auto_action from (success to) =
    if not (same_state from to) then some (state_changed from to) else none
auto_action from (emergency_rth reason) = some (return_to_home reason)
auto_action from (emergency_stop reason) = some (stop_now reason)
auto_action from (invalid at event) = none

unfoldable pub send_auto : SafetyMonitor → Option SafetyAction → SafetyMonitor
send_auto m none = m
send_auto m (some action) = record m { queue = m.queue ++ action ∷ [] }

-- The part of the task's inner loop under the lock: the transition, and the action still to send.
unfoldable pub auto_transition : SafetyMonitor → SafetyEvent → SafetyMonitor × Option SafetyAction
unfolding auto_action
auto_transition m event =
    let (fsm, result) = StateMachine.process_event m.fsm event in
    (record m { fsm = fsm }, auto_action m.fsm.current_state result)

-- One event of the inner loop when no other call comes between the transition and the send.
unfoldable pub auto_event : SafetyMonitor → SafetyEvent → SafetyMonitor
unfolding send_auto auto_transition
auto_event m event = let (m', action) = auto_transition m event in send_auto m' action

unfoldable pub auto_events : SafetyMonitor → List SafetyEvent → SafetyMonitor
unfolding auto_event
auto_events m [] = m
auto_events m (e ∷ es) = auto_events (auto_event m e) es

-- One tick of the task that nothing interrupts; the Boolean says whether the task goes on.
unfoldable pub tick : SafetyMonitor → ℕ → SafetyMonitor × Bool
unfolding auto_events
tick m now =
    if m.monitoring_active
    then (auto_events m (StateMachine.check_safety m.fsm now), true)
    else (m, false)
