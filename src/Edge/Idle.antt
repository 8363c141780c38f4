-- ===== src/Edge/Idle.antt =====
-- The main loop never tells the executor or the state machine that the drone flies.
use res_qterra_engine.Common.{
  ℕ, ◌≡◌, refl, ◌∙◌, ap, Option, none, some, List, [], ◌∷◌, arith, if◌then◌else◌,
}
use res_qterra_engine.Proto.{
  drone_idle, cmd_rth, ack_rejected, ack_expired, ack_status_to_i32, Command, Header, Envelope,
  Payload, command, heartbeat, ack, telemetry, sensor_data,
}
use res_qterra_engine.StateMachine
use res_qterra_engine.Executor.{CommandExecutor, Clock, execute, is_expired_at, command_type}
use res_qterra_engine.Executor.Answers.{execute-answers}
use res_qterra_engine.Executor.Verdict.{execute-verdict, status_of}
use res_qterra_engine.Monitor.{SafetyMonitor, state, tick, try_recv_action, auto_event}
use res_qterra_engine.Connection
use res_qterra_engine.Connection.{ConnectionEvent, received}
use res_qterra_engine.Edge.{
  Edge, Moment, Happening, event, ticks, action_taken, new_edge, handle_server_message,
  handle_payload, handle_event, step, run,
}

pub record IsGrounded (x : Edge) : Type 0 where
  pub executor_idle : x.cmd_executor.current_state ≡ drone_idle
  pub machine_idle : state x.safety_monitor ≡ drone_idle
  pub nothing_sent : x.safety_monitor.queue ≡ []

tick-grounded :
    (m : SafetyMonitor) (now : ℕ)
    → state m ≡ drone_idle
    → m.queue ≡ []
    → (state (tick m now).0 ≡ drone_idle) × ((tick m now).0.queue ≡ [])
unfolding tick auto_event StateMachine.check_safety StateMachine.process_event
tick-grounded m now idle empty = ground arith

take-grounded :
    (m : SafetyMonitor)
    → state m ≡ drone_idle
    → m.queue ≡ []
    → (state (try_recv_action m).0 ≡ drone_idle) × ((try_recv_action m).0.queue ≡ [])
unfolding try_recv_action
take-grounded m idle empty = ground arith

execute-state :
    (x : CommandExecutor) (t : Clock) (c : Command) (h : Header)
    → (execute x t c h).0.current_state ≡ x.current_state
execute-state x t c h = ap (λ r. r.current_state) (execute-answers x t c h).2

payload-IsGrounded :
    (x : Edge) (t : Moment) (h : Header) (o : Option Payload)
    → IsGrounded x
    → IsGrounded (handle_payload x t h o)
unfolding handle_payload StateMachine.update_heartbeat
payload-IsGrounded x t h (some (command c)) v = record {
  executor_idle = execute-state x.cmd_executor t.clock c h ∙ v.executor_idle;
  machine_idle = v.machine_idle;
  nothing_sent = v.nothing_sent;
}
payload-IsGrounded x t h (some (heartbeat b)) v = record {
  executor_idle = v.executor_idle;
  machine_idle = v.machine_idle;
  nothing_sent = v.nothing_sent;
}
payload-IsGrounded x t h (some (ack a)) v = v
payload-IsGrounded x t h (some (telemetry a)) v = v
payload-IsGrounded x t h (some (sensor_data a)) v = v
payload-IsGrounded x t h none v = v

message-IsGrounded :
    (x : Edge) (t : Moment) (e : Envelope) → IsGrounded x → IsGrounded (handle_server_message x t e)
unfolding handle_server_message
message-IsGrounded x t e v = by_header e.header e.payload
  where
    by_header :
        (h : Option Header) (o : Option Payload)
        → IsGrounded (handle_server_message x t (record { header = h; payload = o }))
    by_header none o = v
    by_header (some h) o = payload-IsGrounded x t h o v

step-IsGrounded : (x : Edge) (h : Happening) → IsGrounded x → IsGrounded (step x h)
unfolding step handle_event
step-IsGrounded x (event t (received e)) v = message-IsGrounded x t e v
step-IsGrounded x (event t (Connection.connected a)) v = v
step-IsGrounded x (event t (Connection.disconnected a)) v = v
step-IsGrounded x (event t (Connection.connection_failed a)) v = v
step-IsGrounded x (event t (Connection.transport_switched a b)) v = v
step-IsGrounded x (ticks now) v =
    let (idle, empty) = tick-grounded x.safety_monitor now v.machine_idle v.nothing_sent in
    record { executor_idle = v.executor_idle; machine_idle = idle; nothing_sent = empty }
step-IsGrounded x action_taken v =
    let (idle, empty) = take-grounded x.safety_monitor v.machine_idle v.nothing_sent in
    record { executor_idle = v.executor_idle; machine_idle = idle; nothing_sent = empty }

-- Whatever the server sends and however often the monitor checks, an edge that is grounded stays
-- so: its executor and its state machine are idle, and the monitor has sent no action.
pub run-IsGrounded : (x : Edge) (hs : List Happening) → IsGrounded x → IsGrounded (run x hs)
unfolding run
run-IsGrounded x [] v = v
run-IsGrounded x (h ∷ hs) v = run-IsGrounded (step x h) hs (step-IsGrounded x h v)

pub new_edge-IsGrounded : IsGrounded new_edge
unfolding new_edge StateMachine.new
new_edge-IsGrounded = record { executor_idle = refl; machine_idle = refl; nothing_sent = refl }

-- Whatever the server has sent and however often the monitor has checked since the start, a command
-- to return home is never carried out: it is answered EXPIRED if its time has passed, and REJECTED
-- otherwise.
pub rth_never_done :
    (hs : List Happening) (t : Clock) (c : Command) (h : Header)
    → command_type c ≡ cmd_rth
    → status_of (execute (run new_edge hs).cmd_executor t c h).1.payload
      ≡ some (ack_status_to_i32 (if is_expired_at c t.checked then ack_expired else ack_rejected))
unfolding StateMachine.same_state
rth_never_done hs t c h home =
    execute-verdict (run new_edge hs).cmd_executor t c h
    ∙ rw ((run-IsGrounded new_edge hs new_edge-IsGrounded).executor_idle, home) refl
