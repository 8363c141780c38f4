-- ===== src/Server/Knowledge.antt =====
-- What the server knows of a drone after a message.
use mathlib.Core.Option
use res_qterra_engine.Common.{
  ℕ, ◌≡◌, refl, ap, String, Option, none, some, Bool, false, arith, if◌then◌else◌, string_key,
  nat_key,
}
use res_qterra_engine.Common.Text.{is_empty}
use res_qterra_engine.Common.Dict.{get-adjust}
use res_qterra_engine.Proto.{
  DroneState, drone_unknown, Envelope, Header, Payload, heartbeat, command, ack, telemetry,
  sensor_data,
}
use res_qterra_engine.Codec.{Prost}
use res_qterra_engine.Sessions
use res_qterra_engine.Sessions.{SessionEntry, SessionManager, register, update_state}
use res_qterra_engine.Sessions.Handle.{SessionHandle}
use res_qterra_engine.Sessions.Session.{DroneSession}
use res_qterra_engine.Sessions.Registry.{entry_at, fresh, entry_at-register}
use res_qterra_engine.Server.{
  Server, Moment, drone_state, respond_heartbeat, handle_payload, handle_envelope, on_message,
}

-- The state that a message reports; none is reported by an ACK, sensor data or a command.
abbrev pub reported : Option Payload → DroneState
reported (some (heartbeat hb)) = drone_state hb.state
reported (some (telemetry tel)) = drone_state tel.state
reported _ = drone_unknown

-- The time of the last heartbeat that the table holds after a message.
abbrev pub last_seen : Moment → Option Payload → ℕ
last_seen t (some (heartbeat hb)) = t.beaten
last_seen t _ = t.registered

-- The entry of a drone after a message.
abbrev pub known : SessionHandle → Moment → Option Payload → SessionEntry
known handle t o = record {
  handle = handle;
  info = record {
    device_id = handle.device_id;
    addr = handle.addr;
    state = reported o;
    last_heartbeat = last_seen t o;
    connected_at = t.registered;
    pending_commands = 0;
  };
}

abbrev same : SessionHandle → String → Bool
same handle j = string_key.beq handle.device_id j

abbrev with_state : DroneState → SessionEntry → SessionEntry
with_state s e = record e { info = record e.info { state = s } }

abbrev with_heartbeat : ℕ → SessionEntry → SessionEntry
with_heartbeat now e = record e { info = record e.info { last_heartbeat = now } }

entry_at-update_state :
    (m : SessionManager) (id j : String) (s : DroneState)
    → entry_at j (update_state m id s)
      ≡ (if string_key.beq id j then Option.map (with_state s) (entry_at j m) else entry_at j m)
unfolding update_state
entry_at-update_state m id j s = get-adjust id j (with_state s) m.sessions

entry_at-update_heartbeat :
    (m : SessionManager) (id j : String) (now : ℕ)
    → entry_at j (Sessions.update_heartbeat m id now) ≡ (
        if string_key.beq id j
        then Option.map (with_heartbeat now) (entry_at j m)
        else entry_at j m)
unfolding Sessions.update_heartbeat
entry_at-update_heartbeat m id j now = get-adjust id j (with_heartbeat now) m.sessions

module _ {D N : Type 0} (p : Prost Envelope D N) (up : ℕ → Bool) where
  respond_frame :
      (x : Server) (handle : SessionHandle) (t : Moment) (id : String)
      → (respond_heartbeat p up x handle t id).session_manager ≡ x.session_manager
  unfolding respond_heartbeat
  respond_frame x handle t id = refl

  payload-known :
      (x : Server) (handle : SessionHandle) (t : Moment) (o : Option Payload) (j : String)
      (old : Option SessionEntry)
      → entry_at j x.session_manager
        ≡ (if same handle j then some (fresh handle t.registered) else old)
      → entry_at j (handle_payload p up x handle t handle.device_id o).session_manager
        ≡ (if same handle j then some (known handle t o) else old)
  unfolding handle_payload
  payload-known x handle t (some (heartbeat hb)) j old h = ground (
    arith,
    ap (entry_at j) (
        respond_frame
          (record x {
            session_manager =
                update_state (Sessions.update_heartbeat x.session_manager handle.device_id t.beaten)
                  handle.device_id (drone_state hb.state);
          })
          handle t handle.device_id),
    entry_at-update_state (Sessions.update_heartbeat x.session_manager handle.device_id t.beaten)
        handle.device_id j (drone_state hb.state),
    entry_at-update_heartbeat x.session_manager handle.device_id j t.beaten,
  )
  payload-known x handle t (some (telemetry tel)) j old h =
      ground
        (arith, entry_at-update_state x.session_manager handle.device_id j (drone_state tel.state))
  payload-known x handle t (some (ack a)) j old h = h
  payload-known x handle t (some (command c)) j old h = h
  payload-known x handle t (some (sensor_data d)) j old h = h
  payload-known x handle t none j old h = h

  registered-fresh :
      (m : SessionManager) (handle : SessionHandle) (now : ℕ) (j : String)
      → is_empty handle.device_id ≡ false
      → entry_at j (register m handle now)
        ≡ (if same handle j then some (fresh handle now) else entry_at j m)
  registered-fresh m handle now j named = ground (arith, entry_at-register m handle now j)

  known_device :
      (m : SessionManager) (s : DroneSession) (t : Moment)
      → is_empty s.handle.device_id ≡ false
      → (if is_empty s.handle.device_id then m else register m s.handle t.registered)
        ≡ register m s.handle t.registered
  known_device m s t named = rw named refl

  -- After a message, all that the server knows of its drone comes from that message: the session is
  -- fresh, its state is the one that the message reports (unknown, for an ACK or sensor data), and
  -- its heartbeat is as of now, whatever the message was. No other drone is affected. The header of
  -- the message names the device of the session, which is not empty.
  pub entry_at-on_message :
      (x : Server) (s : DroneSession) (t : Moment) (h : Header) (o : Option Payload) (j : String)
      → is_empty s.handle.device_id ≡ false
      → h.device_id ≡ s.handle.device_id
      → entry_at j (on_message p up x s t (record { header = some h; payload = o })).session_manager
        ≡ (if string_key.beq s.handle.device_id j
            then some (known s.handle t o)
            else entry_at j x.session_manager)
  unfolding on_message handle_envelope
  entry_at-on_message x s t h o j named own =
      rw (own, known_device x.session_manager s t named)
        (payload-known
          (record x { session_manager = register x.session_manager s.handle t.registered }) s.handle
          t o j (entry_at j x.session_manager)
          (registered-fresh x.session_manager s.handle t.registered j named))
