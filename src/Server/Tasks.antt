-- ===== src/Server/Tasks.antt =====
-- server/src/main.rs: the tasks of the server together. The connections, the heartbeat monitor, the
-- timeout tracker and the demo sender of commands take turns in any order.
use res_qterra_engine.Common.{ℕ, ◌+◌, ◌%◌, ◌^◌, sym, subst, String, some, Bool, List, [], ◌∷◌}
use res_qterra_engine.Proto.{
  Envelope, Command, cmd_status_request, command_type_to_i32, status_request,
}
use res_qterra_engine.Codec.{Prost}
use res_qterra_engine.Sessions.{SessionManager, remove_all, connected_devices}
use res_qterra_engine.Sessions.Handle.{Wire}
use res_qterra_engine.Sessions.Session.{DroneSession, accept}
use res_qterra_engine.Sessions.Registry
use res_qterra_engine.Sessions.Registry.{reaps, step-IsKeyed}
use res_qterra_engine.Dispatcher.{
  CommandDispatcher, next_command_id, send_command, retry_command, cleanup_expired, broadcast_to,
  broadcast_command,
}
use res_qterra_engine.Dispatcher.Tracking
use res_qterra_engine.Dispatcher.Tracking.{
  retries, cleans, step-IsTracked, IsTracked, track-IsTracked, send_command-track,
}
use res_qterra_engine.Server.{Server, Moment, on_message, on_disconnect, new_server}
use res_qterra_engine.Server.Invariant.{
  IsServed, message-IsServed, disconnect-IsServed, new_server-IsServed,
}

-- The command of `demo_command_sender`: a request of the status, which expires after ten seconds.
abbrev pub demo_command : ℕ → ℕ → Command
demo_command command_id now = record {
  command_id = command_id;
  cmd_type = command_type_to_i32 cmd_status_request;
  expires_at_ms = (now + 10000) % 2 ^ 64;
  priority = 1;
  params = some (status_request (record { requested_fields = [] }));
}

-- The readings of the clock of a round: for the expiry, and for each device in the header and for
-- the tracking.
pub record DemoClock : Type 0 where
  pub now : ℕ
  pub stamped : String → ℕ
  pub sent_at : String → ℕ

-- What the server does in a turn. The heartbeat monitor and the timeout tracker take and give up a
-- lock for each part of their work, so a turn is one part: the removal of sessions that were found
-- dead earlier, the retry of a command that was found late earlier, and the cleanup.
pub data Turn : Type 0 where
  message : DroneSession → Moment → Envelope → Turn
  disconnect : DroneSession → Turn
  reap : List String → Turn
  retry : ℕ → ℕ → ℕ → Turn
  cleanup : (ℕ → ℕ) → Turn
  demo : DemoClock → Turn

module _ {D N : Type 0} (p : Prost Envelope D N) (up : ℕ → Bool) where
  -- A round of `demo_command_sender`.
  unfoldable pub demo_round : Server → DemoClock → Server
  unfolding next_command_id broadcast_command
  demo_round x t =
      let (numbered, id) = next_command_id x.dispatcher in
      let (dispatcher, wire, ids) =
        broadcast_command p up x.session_manager t.stamped t.sent_at numbered x.wire
          (demo_command id t.now) in
      record x { dispatcher = dispatcher; wire = wire }

  unfoldable pub turn : Server → Turn → Server
  unfolding on_message on_disconnect remove_all retry_command cleanup_expired demo_round
  turn x (message s t e) = on_message p up x (accept s t.noted e) t e
  turn x (disconnect s) = on_disconnect x s
  turn x (reap ids) = record x { session_manager = remove_all x.session_manager ids }
  turn x (retry judged resent id) = record x {
    dispatcher = (retry_command x.dispatcher judged resent id).0;
  }
  turn x (cleanup now) = record x { dispatcher = (cleanup_expired x.dispatcher now).0 }
  turn x (demo t) = demo_round x t

  unfoldable pub turns : Server → List Turn → Server
  unfolding turn
  turns x [] = x
  turns x (t ∷ ts) = turns (turn x t) ts

  broadcast_to-IsTracked :
      (sessions : SessionManager) (stamped sent_at : String → ℕ) (ds : List String)
      (d : CommandDispatcher) (wire : Wire) (c : Command)
      → IsTracked d
      → IsTracked (broadcast_to p up sessions stamped sent_at ds d wire c).0
  unfolding broadcast_to next_command_id
  broadcast_to-IsTracked sessions stamped sent_at [] d wire c v = v
  broadcast_to-IsTracked sessions stamped sent_at (device_id ∷ ds) d wire c v =
      let id = (d.last_command_id + 1) % 2 ^ 64 in
      let own : Command = record c { command_id = id } in
      let numbered : CommandDispatcher = record d { last_command_id = id } in
      let counted : IsTracked numbered = record { unique = v.unique; own = v.own } in
      let sent =
        send_command p up sessions (stamped device_id) (sent_at device_id) numbered wire device_id
          own in
      let same =
        (send_command-track p up sessions (stamped device_id) (sent_at device_id) numbered wire
          device_id own).0 in
      broadcast_to-IsTracked sessions stamped sent_at ds sent.dispatcher sent.wire own (
        subst IsTracked (sym same)
          (track-IsTracked numbered device_id own (sent_at device_id) counted))

  demo-IsServed : (x : Server) (t : DemoClock) → IsServed x → IsServed (demo_round x t)
  unfolding demo_round
  demo-IsServed x t v = record {
    keyed = v.keyed;
    tracked =
        broadcast_to-IsTracked x.session_manager t.stamped t.sent_at
          (connected_devices x.session_manager) (next_command_id x.dispatcher).0 x.wire
          (demo_command (next_command_id x.dispatcher).1 t.now)
          (record { unique = v.tracked.unique; own = v.tracked.own });
  }

  pub turn-IsServed : (x : Server) (t : Turn) → IsServed x → IsServed (turn x t)
  unfolding turn Registry.step Tracking.step
  turn-IsServed x (message s t e) v = message-IsServed p up x (accept s t.noted e) t e v
  turn-IsServed x (disconnect s) v = disconnect-IsServed p up x s v
  turn-IsServed x (reap ids) v = record {
    keyed = step-IsKeyed x.session_manager (reaps ids) v.keyed;
    tracked = v.tracked;
  }
  turn-IsServed x (retry judged resent id) v = record {
    keyed = v.keyed;
    tracked = step-IsTracked x.dispatcher (retries judged resent id) v.tracked;
  }
  turn-IsServed x (cleanup now) v = record {
    keyed = v.keyed;
    tracked = step-IsTracked x.dispatcher (cleans now) v.tracked;
  }
  turn-IsServed x (demo t) v = demo-IsServed x t v

  turns-IsServed : (x : Server) (ts : List Turn) → IsServed x → IsServed (turns x ts)
  unfolding turns
  turns-IsServed x [] v = v
  turns-IsServed x (t ∷ ts) v = turns-IsServed (turn x t) ts (turn-IsServed x t v)

  -- However the connections, the heartbeat monitor, the timeout tracker and the sender of commands
  -- take turns from the start of the server on, each device stands at most once in the table of
  -- sessions, under its own name, which is not empty, and each command at most once in the table of
  -- commands, under its own identifier and with no more retries than it may have.
  pub turns-from_start : (ts : List Turn) → IsServed (turns new_server ts)
  turns-from_start ts = turns-IsServed new_server ts new_server-IsServed
