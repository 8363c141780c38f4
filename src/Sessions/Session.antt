-- ===== src/Sessions/Session.antt =====
-- server/src/session/connection.rs: the session of one connection, which reads the messages of a
-- drone. The clones of a handle share its heartbeat time; nothing reads that time through the
-- table of sessions, so here it is the session's own.
pub mod Rounds
pub mod Receive
use res_qterra_engine.Common.{
  ℕ, ◌-◌, String, Option, none, some, Bool, List, [], ◌∷◌, Result, ok, err, ltb, if◌then◌else◌,
}
use res_qterra_engine.Common.Text.{is_empty}
use res_qterra_engine.Proto.{
  Envelope, Header, Payload, heartbeat, command, ack, telemetry, sensor_data, heartbeat_timeout_ms,
}
use res_qterra_engine.Codec.{Prost, CodecError, FrameDecoder, new_decoder, extend, decode_next}
use res_qterra_engine.Sessions.Handle.{SessionHandle}

unfoldable pub is_alive : SessionHandle → ℕ → Bool
is_alive h now = ltb (now - h.last_heartbeat) heartbeat_timeout_ms

unfoldable pub beat : SessionHandle → ℕ → SessionHandle
beat h now = record h { last_heartbeat = now }

unfoldable pub time_since_heartbeat : SessionHandle → ℕ → ℕ
time_since_heartbeat h now = now - h.last_heartbeat

pub record DroneSession : Type 0 where
  pub handle : SessionHandle
  pub decoder : FrameDecoder

unfoldable pub new_session : ℕ → String → ℕ → DroneSession
new_session stream addr now = record {
  handle = record {
    device_id = "";
    addr = addr;
    writer = stream;
    connected_at = now;
    last_heartbeat = now;
  };
  decoder = new_decoder;
}

abbrev pub get_handle : DroneSession → SessionHandle
get_handle s = s.handle

abbrev pub device_id : DroneSession → String
device_id s = s.handle.device_id

abbrev pub addr : DroneSession → String
addr s = s.handle.addr

-- What a read answers: bytes, the end of the stream, or an error.
pub data Read : Type 0 where
  bytes : List ℕ → Read
  end_of_stream : Read
  read_failed : Read

-- How `recv` comes out: with a message and the reads still to come, with `None`, or not yet, when
-- there is nothing more to read.
pub data Received : Type 0 where
  message : Envelope → List Read → Received
  closed : Received
  waiting : Received

-- The device of a message, if its header names one.
set_device : SessionHandle → Option Header → SessionHandle
set_device h none = h
set_device h (some header) =
    if is_empty h.device_id then record h { device_id = header.device_id } else h

note_heartbeat : SessionHandle → ℕ → Option Payload → SessionHandle
unfolding beat
note_heartbeat h now (some (heartbeat hb)) = beat h now
note_heartbeat h now _ = h

-- What `recv` notes of a message before it returns it.
unfoldable pub accept : DroneSession → ℕ → Envelope → DroneSession
unfolding set_device note_heartbeat
accept s now e = record s { handle = note_heartbeat (set_device s.handle e.header) now e.payload }

module _ {D N : Type 0} (p : Prost Envelope D N) where
  abbrev Decoded : Type 0
  Decoded = FrameDecoder × Result (CodecError D N) (Option Envelope)

  -- One round of the loop: what the decoder says, and what is done when it needs more data.
  after_decode :
      DroneSession
      → ℕ
      → List Read
      → Decoded
      → (DroneSession → DroneSession × Received)
      → DroneSession × Received
  unfolding accept
  after_decode s now rest (d, ok (some e)) more =
      (accept (record s { decoder = d }) now e, message e rest)
  after_decode s now rest (d, ok none) more = more (record s { decoder = d })
  after_decode s now rest (d, err x) more = (record s { decoder = d }, closed)

  -- The reading of the clock is for a heartbeat.
  unfoldable pub recv : DroneSession → ℕ → List Read → DroneSession × Received
  unfolding after_decode decode_next
  recv s now [] = after_decode s now [] (decode_next p s.decoder) (λ s. (s, waiting))
  recv s now (bytes chunk ∷ rest) =
      after_decode s now (bytes chunk ∷ rest) (decode_next p s.decoder)
        (λ s. recv (record s { decoder = extend s.decoder chunk }) now rest)
  recv s now (end_of_stream ∷ rest) =
      after_decode s now (end_of_stream ∷ rest) (decode_next p s.decoder) (λ s. (s, closed))
  recv s now (read_failed ∷ rest) =
      after_decode s now (read_failed ∷ rest) (decode_next p s.decoder) (λ s. (s, closed))
