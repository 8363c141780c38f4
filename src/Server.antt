-- ===== src/Server.antt =====
-- server/src/main.rs: what the server does with the messages of a drone, with the end of a
-- connection, and on the ticks of the heartbeat monitor.
pub mod Knowledge
pub mod Invariant
pub mod Session
pub mod Tasks
pub mod Main
mod Tests
use res_qterra_engine.Common.{
  ℕ, ◌%◌, ◌^◌, String, Option, none, some, true, Bool, List, [], ◌∷◌, if◌then◌else◌, string_key,
  nat_key,
}
use res_qterra_engine.Common.Text.{is_empty}
use res_qterra_engine.Proto.{
  DroneState, drone_unknown, drone_state_try_from, Envelope, Header, Payload, heartbeat, command,
  ack, telemetry, sensor_data, msg_heartbeat, new_header, new_heartbeat,
}
use res_qterra_engine.Codec.{Prost}
use res_qterra_engine.Sessions
use res_qterra_engine.Sessions.{
  SessionManager, new_manager, register, unregister, update_state, remove_dead_sessions,
}
use res_qterra_engine.Sessions.Handle.{SessionHandle, Wire, send}
use res_qterra_engine.Sessions.Session.{DroneSession, accept}
use res_qterra_engine.Dispatcher.{
  CommandDispatcher, new_dispatcher, handle_ack, next_sequence_id, pending_count_for,
}

-- What the tasks of the server share. The counter of sequence numbers is the dispatcher's.
pub record Server : Type 0 where
  pub session_manager : SessionManager
  pub dispatcher : CommandDispatcher
  pub wire : Wire

unfoldable pub new_server : Server
unfolding new_manager new_dispatcher
new_server = record { session_manager = new_manager; dispatcher = new_dispatcher 0; wire = [] }

-- The readings of the clocks: when a heartbeat is noted in the session, at the registration, when
-- the table notes the heartbeat, and in the header of the response.
pub record Moment : Type 0 where
  pub noted : ℕ
  pub registered : ℕ
  pub beaten : ℕ
  pub stamped : ℕ

-- `DroneState::try_from(..).unwrap_or(DroneUnknown)`.
abbrev pub drone_state : ℕ → DroneState
drone_state code = elim (drone_state_try_from code) [ some s ↦ s | none ↦ drone_unknown ]

-- The end of `handle_drone_session`.
unfoldable pub on_disconnect : Server → DroneSession → Server
unfolding unregister
on_disconnect x session =
    if is_empty session.handle.device_id
    then x
    else record x { session_manager = unregister x.session_manager session.handle.device_id }

module _ {D N : Type 0} (p : Prost Envelope D N) (up : ℕ → Bool) where
  -- The response to a heartbeat; a failed send is only reported.
  respond_heartbeat : Server → SessionHandle → Moment → String → Server
  unfolding next_sequence_id pending_count_for send
  respond_heartbeat x handle t device_id =
      let (dispatcher, seq) = next_sequence_id x.dispatcher in
      let response : Envelope = record {
        header = some (new_header "server" msg_heartbeat seq t.stamped);
        payload = some (
            heartbeat (
              new_heartbeat 0 drone_unknown (pending_count_for dispatcher device_id % 2 ^ 32)
                true));
      } in
      record x { dispatcher = dispatcher; wire = (send p up handle response x.wire).0 }

  -- The `match` on the payload.
  handle_payload : Server → SessionHandle → Moment → String → Option Payload → Server
  unfolding respond_heartbeat update_state Sessions.update_heartbeat handle_ack
  handle_payload x handle t device_id (some (heartbeat hb)) =
      let beaten = Sessions.update_heartbeat x.session_manager device_id t.beaten in
      respond_heartbeat
        (record x { session_manager = update_state beaten device_id (drone_state hb.state) }) handle
        t device_id
  handle_payload x handle t device_id (some (telemetry tel)) = record x {
    session_manager = update_state x.session_manager device_id (drone_state tel.state);
  }
  handle_payload x handle t device_id (some (ack a)) = record x {
    dispatcher = handle_ack x.dispatcher device_id a;
  }
  handle_payload x handle t device_id _ = x

  unfoldable pub handle_envelope : Server → SessionHandle → Moment → Envelope → Server
  unfolding handle_payload
  handle_envelope x handle t envelope = elim envelope.header [
    | none ↦ x
    | some header ↦ handle_payload x handle t header.device_id envelope.payload
  ]

  -- One round of the loop of `handle_drone_session`, for a message that `recv` has returned: the
  -- session is registered anew with each message, once its device is known.
  unfoldable pub on_message : Server → DroneSession → Moment → Envelope → Server
  unfolding register handle_envelope
  on_message x session t envelope =
      let registered =
        if is_empty session.handle.device_id
        then x.session_manager
        else register x.session_manager session.handle t.registered in
      handle_envelope (record x { session_manager = registered }) session.handle t envelope

  -- `handle_drone_session` over the messages that its connection delivers.
  unfoldable pub serve : Server → DroneSession → List (Moment × Envelope) → Server
  unfolding accept on_message on_disconnect
  serve x session [] = on_disconnect x session
  serve x session ((t, e) ∷ rest) =
      let accepted = accept session t.noted e in serve (on_message x accepted t e) accepted rest

-- A tick of `heartbeat_monitor`; `locked` is the server when the tick takes the write lock.
unfoldable pub monitor_tick : Server → (String → ℕ) → Server → Server
unfolding remove_dead_sessions
monitor_tick x now locked = record locked {
  session_manager = (remove_dead_sessions x.session_manager now locked.session_manager).0;
}
