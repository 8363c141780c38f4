-- ===== src/Server/Invariant.antt =====
-- What every message of a drone keeps.
use res_qterra_engine.Common.{
  ℕ, String, Option, none, some, Bool, List, [], ◌∷◌, if◌then◌else◌, string_key, nat_key,
  Bool-cases, inl, inr, subst, sym,
}
use res_qterra_engine.Common.Text.{is_empty}
use res_qterra_engine.Proto.{
  Envelope, Header, Payload, heartbeat, command, ack, telemetry, sensor_data,
}
use res_qterra_engine.Codec.{Prost}
use res_qterra_engine.Sessions
use res_qterra_engine.Sessions.{SessionManager, register, new_manager}
use res_qterra_engine.Sessions.Handle.{SessionHandle}
use res_qterra_engine.Sessions.Session.{DroneSession, accept}
use res_qterra_engine.Sessions.Registry
use res_qterra_engine.Sessions.Registry.{
  IsKeyed, step-IsKeyed, registers, beats, reports, unregisters,
}
use res_qterra_engine.Dispatcher.{CommandDispatcher, next_sequence_id}
use res_qterra_engine.Dispatcher.Tracking
use res_qterra_engine.Dispatcher.Tracking.{IsTracked, step-IsTracked, acked}
use res_qterra_engine.Server.{
  Server, Moment, drone_state, respond_heartbeat, handle_payload, handle_envelope, on_message,
  on_disconnect, serve, new_server,
}

-- The sessions are keyed and the commands tracked.
pub record IsServed (x : Server) : Type 0 where
  pub keyed : IsKeyed x.session_manager
  pub tracked : IsTracked x.dispatcher

numbered-IsTracked : (d : CommandDispatcher) → IsTracked d → IsTracked (next_sequence_id d).0
unfolding next_sequence_id
numbered-IsTracked d v = record { unique = v.unique; own = v.own }

module _ {D N : Type 0} (p : Prost Envelope D N) (up : ℕ → Bool) where
  respond-IsServed :
      (x : Server) (handle : SessionHandle) (t : Moment) (id : String)
      → IsServed x
      → IsServed (respond_heartbeat p up x handle t id)
  unfolding respond_heartbeat
  respond-IsServed x handle t id v = record {
    keyed = v.keyed;
    tracked = numbered-IsTracked x.dispatcher v.tracked;
  }

  payload-IsServed :
      (x : Server) (handle : SessionHandle) (t : Moment) (id : String) (o : Option Payload)
      → IsServed x
      → IsServed (handle_payload p up x handle t id o)
  unfolding handle_payload Registry.step Tracking.step
  payload-IsServed x handle t id (some (heartbeat hb)) v = respond-IsServed _ handle t id (record {
    keyed =
        step-IsKeyed (Sessions.update_heartbeat x.session_manager id t.beaten)
          (reports id (drone_state hb.state))
          (step-IsKeyed x.session_manager (beats id t.beaten) v.keyed);
    tracked = v.tracked;
  })
  payload-IsServed x handle t id (some (telemetry tel)) v = record {
    keyed = step-IsKeyed x.session_manager (reports id (drone_state tel.state)) v.keyed;
    tracked = v.tracked;
  }
  payload-IsServed x handle t id (some (ack a)) v = record {
    keyed = v.keyed;
    tracked = step-IsTracked x.dispatcher (acked id a) v.tracked;
  }
  payload-IsServed x handle t id (some (command c)) v = v
  payload-IsServed x handle t id (some (sensor_data d)) v = v
  payload-IsServed x handle t id none v = v

  envelope-IsServed :
      (x : Server) (handle : SessionHandle) (t : Moment) (h : Option Header) (o : Option Payload)
      → IsServed x
      → IsServed (handle_envelope p up x handle t (record { header = h; payload = o }))
  unfolding handle_envelope
  envelope-IsServed x handle t none o v = v
  envelope-IsServed x handle t (some h) o v = payload-IsServed x handle t h.device_id o v

  registered-IsKeyed :
      (m : SessionManager) (handle : SessionHandle) (now : ℕ)
      → IsKeyed m
      → IsKeyed (if is_empty handle.device_id then m else register m handle now)
  unfolding Registry.step
  registered-IsKeyed m handle now v = elim (Bool-cases (is_empty handle.device_id)) [
    | inl empty ↦ rw empty v
    | inr named ↦
        subst (λ b. IsKeyed (if b then m else register m handle now)) (sym named)
          (step-IsKeyed m (registers handle now) v)
  ]

  pub message-IsServed :
      (x : Server) (s : DroneSession) (t : Moment) (e : Envelope)
      → IsServed x
      → IsServed (on_message p up x s t e)
  unfolding on_message
  message-IsServed x s t e v = envelope-IsServed _ s.handle t e.header e.payload (record {
    keyed = registered-IsKeyed x.session_manager s.handle t.registered v.keyed;
    tracked = v.tracked;
  })

  pub disconnect-IsServed :
      (x : Server) (s : DroneSession) → IsServed x → IsServed (on_disconnect x s)
  unfolding on_disconnect Registry.step
  disconnect-IsServed x s v = elim (Bool-cases (is_empty s.handle.device_id)) [
    | inl empty ↦ rw empty v
    | inr named ↦ rw named (record {
      keyed = step-IsKeyed x.session_manager (unregisters s.handle.device_id) v.keyed;
      tracked = v.tracked;
    })
  ]

  -- Whatever the messages of a connection, from its start to its end, each device stands at most
  -- once in the table of sessions, under its own name, which is not empty, and each command at most
  -- once in the table of commands, under its own identifier and with no more retries than it may
  -- have.
  pub serve-IsServed :
      (x : Server) (s : DroneSession) (ms : List (Moment × Envelope))
      → IsServed x
      → IsServed (serve p up x s ms)
  unfolding serve
  serve-IsServed x s [] v = disconnect-IsServed x s v
  serve-IsServed x s ((t, e) ∷ rest) v =
      serve-IsServed (on_message p up x (accept s t.noted e) t e) (accept s t.noted e) rest
        (message-IsServed x (accept s t.noted e) t e v)

pub new_server-IsServed : IsServed new_server
unfolding new_server
new_server-IsServed = record {
  keyed = record { unique = tt; own = tt };
  tracked = record { unique = tt; own = tt };
}
