-- ===== src/Monitor/Actions.antt =====
-- The actions in the channel tell the whole story of the state.
use res_qterra_engine.Common.{
  ℕ, ◌≡◌, refl, ap, ◌∙◌, sym, List, [], ◌∷◌, ◌++◌, arith, Bool-cases, inl, inr,
}
use res_qterra_engine.Proto.{DroneState, drone_returning_home, drone_emergency}
use res_qterra_engine.StateMachine
use res_qterra_engine.StateMachine.{
  SafetyStateMachine, SafetyEvent, TransitionResult, success, invalid, emergency_rth,
  emergency_stop, battery_critical,
}
use res_qterra_engine.Monitor.{
  SafetyAction, return_to_home, stop_now, state_changed, no_action, SafetyMonitor, state, action_of,
  send_action, process_event, auto_event, update_battery,
}

-- The state of the drone for one who knows it only from the actions received.
abbrev pub replay : DroneState → SafetyAction → DroneState
replay s (return_to_home reason) = drone_returning_home
replay s (stop_now reason) = drone_emergency
replay s (state_changed from to) = to
replay s no_action = s

abbrev pub replay_all : DroneState → List SafetyAction → DroneState
replay_all s [] = s
replay_all s (a ∷ rest) = replay_all (replay s a) rest

pub replay_all-append :
    (s : DroneState) (rest : List SafetyAction) (a : SafetyAction)
    → replay_all s (rest ++ a ∷ []) ≡ replay (replay_all s rest) a
replay_all-append s [] a = refl
replay_all-append s (b ∷ rest) a = replay_all-append (replay s b) rest a

replay-action_of :
    (m : SafetyStateMachine) (e : SafetyEvent)
    → let (m', result) = StateMachine.process_event m e in
      replay m.current_state (action_of m.current_state result) ≡ m'.current_state
unfolding StateMachine.process_event action_of
replay-action_of m e = ground arith

send_action-replay :
    (m : SafetyMonitor) (a : SafetyAction) (seen : DroneState)
    → replay_all seen (send_action m a).queue ≡ replay (replay_all seen m.queue) a
unfolding send_action
send_action-replay m no_action seen = refl
send_action-replay m (return_to_home r) seen = replay_all-append seen m.queue (return_to_home r)
send_action-replay m (stop_now r) seen = replay_all-append seen m.queue (stop_now r)
send_action-replay m (state_changed s t) seen = replay_all-append seen m.queue (state_changed s t)

send_action-fsm : (m : SafetyMonitor) (a : SafetyAction) → (send_action m a).fsm ≡ m.fsm
unfolding send_action
send_action-fsm m a = ground arith

-- An event and what the monitor sends for it keep an observer of the channel in step.
pub process_event-replay :
    (m : SafetyMonitor) (e : SafetyEvent) (seen : DroneState)
    → replay_all seen m.queue ≡ state m
    → replay_all seen (process_event m e).0.queue ≡ state (process_event m e).0
unfolding process_event
process_event-replay m e seen h =
    let fsm = (StateMachine.process_event m.fsm e).0 in
    let action = action_of m.fsm.current_state (StateMachine.process_event m.fsm e).1 in
    send_action-replay (record m { fsm = fsm }) action seen
    ∙ ap (λ (s : DroneState). replay s action) h
    ∙ replay-action_of m.fsm e
    ∙ ap (λ (f : SafetyStateMachine). f.current_state)
        (sym (send_action-fsm (record m { fsm = fsm }) action))

-- The task sends what `process_event` would send.
pub auto_event-process_event :
    (m : SafetyMonitor) (e : SafetyEvent) → auto_event m e ≡ (process_event m e).0
unfolding auto_event process_event
auto_event-process_event m e = ground arith

pub update_battery-replay :
    (m : SafetyMonitor) (percent : ℕ) (seen : DroneState)
    → replay_all seen m.queue ≡ state m
    → replay_all seen (update_battery m percent).queue ≡ state (update_battery m percent)
unfolding update_battery
update_battery-replay m percent seen h =
    let m' = record m { fsm = StateMachine.update_battery m.fsm percent } in
    elim (Bool-cases (StateMachine.is_battery_critical m'.fsm)) [
      | inl low ↦
          rw low (
            process_event-replay m' battery_critical seen (unfold StateMachine.update_battery in h))
      | inr fine ↦ rw fine (unfold StateMachine.update_battery in h)
    ]
