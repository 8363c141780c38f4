-- ===== src/Server/Tests.antt =====
-- The server on the heartbeats of one drone.
use res_qterra_engine.Common.{
  ℕ, ◌≡◌, refl, get_elem?, some, true, List, [], ◌∷◌, ◌++◌, ok, arith, string_key,
}
use res_qterra_engine.Proto.{Envelope, new_header, msg_heartbeat}
use res_qterra_engine.Codec.{new_decoder}
use res_qterra_engine.Connection.{default_config}
use res_qterra_engine.Connection.Active.{heartbeat_envelope}
use res_qterra_engine.Connection.Beats.{beats, beats-IsProst}
use res_qterra_engine.Sessions.Registry.{entry_at}
use res_qterra_engine.Sessions.Session.{DroneSession, bytes, end_of_stream, message, recv, accept}
use res_qterra_engine.Sessions.Session.Rounds.{all_bytes, then_closed}
use res_qterra_engine.Server.{Moment, new_server, on_message}
use res_qterra_engine.Server.Main.{
  Connection, main, Happening, accepts, receives, background, sends, retries, reaps, run,
  run-IsServed, Accepted,
}
use res_qterra_engine.Server.Main.Heard.{HasHeard, run-HasHeard}
use res_qterra_engine.Server.Knowledge.{entry_at-on_message, known}
use res_qterra_engine.Server.Invariant.{IsServed}

abbrev beat_5 : Envelope
beat_5 = heartbeat_envelope default_config 5 6 7

abbrev fresh_session : DroneSession
fresh_session = record {
  handle = record {
    device_id = "";
    addr = "10.0.0.1:5000";
    writer = 1;
    connected_at = 1000;
    last_heartbeat = 1000;
  };
  decoder = new_decoder;
}

abbrev two_reads : List (List ℕ)
two_reads = (0 ∷ 0 ∷ 0 ∷ []) ∷ (3 ∷ 5 ∷ 6 ∷ 7 ∷ []) ∷ []

recv_run :
    recv beats fresh_session 1500 (all_bytes two_reads)
    ≡ (accept fresh_session 1500 beat_5, message beat_5 [])
unfolding recv accept
recv_run = refl

abbrev drone : DroneSession
drone = record fresh_session { handle = record fresh_session.handle { device_id = "edge-001" } }

abbrev now : Moment
now = record { noted = 2000; registered = 2001; beaten = 2002; stamped = 900002 }

entry_at-on_message_example :
    entry_at "edge-001" (on_message beats (λ c. true) new_server drone now beat_5).session_manager
    ≡ some (known drone.handle now beat_5.payload)
entry_at-on_message_example =
    entry_at-on_message beats (λ c. true) new_server drone now
      (new_header "edge-001" msg_heartbeat 5 7) beat_5.payload "edge-001" refl refl

-- A whole heartbeat, and half of the next one when the connection closes.
abbrev cut_reads : List (List ℕ)
cut_reads = (0 ∷ 0 ∷ 0 ∷ []) ∷ (3 ∷ 5 ∷ 6 ∷ 7 ∷ 0 ∷ 0 ∷ []) ∷ []

-- A drone that sends a heartbeat and closes, between the parts of the other tasks.
abbrev busy_day : List Happening
busy_day =
    accepts (
      ok (record {
        writer = 1;
        addr = "10.0.0.1:5000";
        now = 1000;
        incoming = bytes (0 ∷ 0 ∷ 0 ∷ 3 ∷ 5 ∷ 6 ∷ 7 ∷ []) ∷ end_of_stream ∷ [];
      }))
    ∷ receives 0 now
    ∷ background (sends (record { now = 3000; stamped = λ d. 3000; sent_at = λ d. 3001 }))
    ∷ background (retries 9000 9000 1)
    ∷ receives 0 now
    ∷ background (reaps ("edge-001" ∷ []))
    ∷ []

run-IsServed_example : IsServed (run beats (λ c. true) (main (ok tt)) busy_day).server
run-IsServed_example = run-IsServed beats (λ c. true) (ok tt) busy_day

abbrev cut_drone : Accepted
cut_drone = record {
  writer = 2;
  addr = "10.0.0.2:5000";
  now = 2500;
  incoming = then_closed cut_reads;
}

run-HasHeard_example :
    (c : Connection) × (get_elem?
        (run beats
          (λ c. true)
          (main (ok tt))
          (busy_day
            ++ accepts (ok cut_drone)
              ∷ receives 1 now
              ∷ receives 0 now
              ∷ receives 1 now
              ∷ [])).connections
        1
      ≡ some c)
    × HasHeard beats-IsProst (λ c. true) (beat_5 ∷ beat_5 ∷ []) (0 ∷ 3 ∷ 5 ∷ 6 ∷ 7 ∷ []) c
unfolding beats-IsProst run
run-HasHeard_example =
    run-HasHeard beats-IsProst (λ c. true) (beat_5 ∷ beat_5 ∷ []) (0 ∷ 3 ∷ 5 ∷ 6 ∷ 7 ∷ []) (ok tt)
      busy_day (receives 1 now ∷ receives 0 now ∷ receives 1 now ∷ []) cut_drone cut_reads
      ((omega arith, (5, 6, 7, refl)), ((omega arith, (5, 6, 7, refl)), tt)) refl refl refl
