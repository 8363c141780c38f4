-- ===== src/Connection/Active.antt =====
-- `handle_connection` of src/connection/manager.rs: one round of its loop for each branch of the
-- `select!` that is ready. What is written and the events are kept as lists, oldest first; the
-- receiver of the events lives as long as the edge's main loop.
pub mod Delivery
pub mod Sending
pub mod Silence
use res_qterra_engine.Common.{
  ℕ, ◌+◌, ◌%◌, ◌^◌, String, Option, none, some, true, List, [], ◌∷◌, ◌++◌, map, Result, ok, err,
}
use res_qterra_engine.Common.Text.{◌<>◌}
use res_qterra_engine.Proto.{
  Envelope, heartbeat, msg_heartbeat, drone_idle, new_header, new_heartbeat,
}
use res_qterra_engine.Codec.{Prost, CodecError, FrameDecoder, new_decoder, extend, encode, drain}
use res_qterra_engine.Connection.{ConnectionConfig, ConnectionEvent, received}

-- What a branch of the `select!` yields. A write answers `none` or its error; a heartbeat comes
-- with the uptime and the reading of the clock.
pub data Activity : Type 0 where
  ticked : ℕ → ℕ → Option String → Activity
  outbound : Envelope → Option String → Activity
  chunk : List ℕ → Activity
  read_closed : Activity
  read_failed : String → Activity
  read_timed_out : Activity

-- The state of an active connection.
pub record Active : Type 0 where
  pub sequence_id : ℕ  -- u64
  pub decoder : FrameDecoder
  pub written : List ℕ
  pub events : List ConnectionEvent

abbrev pub opened : ℕ → Active
opened sequence_id = record {
  sequence_id = sequence_id;
  decoder = new_decoder;
  written = [];
  events = [];
}

abbrev pub heartbeat_envelope : ConnectionConfig → ℕ → ℕ → ℕ → Envelope
heartbeat_envelope config seq uptime_ms now = record {
  header = some (new_header config.device_id msg_heartbeat seq now);
  payload = some (heartbeat (new_heartbeat uptime_ms drone_idle 0 true));
}

-- Why `handle_connection` returns.
pub data Reason (D N : Type 0) : Type 0 where
  codec_failed : CodecError D N → Reason D N
  write_failed : String → Reason D N
  server_closed : Reason D N
  read_error : String → Reason D N

module _ {D N : Type 0} (p : Prost Envelope D N) where
  finish_write : Active → List ℕ → Option String → Active × Option (Reason D N)
  finish_write a encoded none = (record a { written = a.written ++ encoded }, none)
  finish_write a encoded (some e) = (a, some (write_failed e))

  -- `codec::encode(&envelope)?` and `writer.write_all(&encoded).await?`.
  unfoldable pub write_envelope : Active → Envelope → Option String → Active × Option (Reason D N)
  unfolding encode finish_write
  write_envelope a envelope outcome = elim (encode p envelope) [
    | ok encoded ↦ finish_write a encoded outcome
    | err x ↦ (a, some (codec_failed x))
  ]

module _ {D N : Type 0} (p : Prost Envelope D N) (config : ConnectionConfig) where
  unfoldable pub handle_activity : Active → Activity → Active × Option (Reason D N)
  unfolding write_envelope drain
  handle_activity a (ticked uptime_ms now outcome) =
      let seq = (a.sequence_id + 1) % 2 ^ 64 in
      write_envelope p (record a { sequence_id = seq })
        (heartbeat_envelope config seq uptime_ms now) outcome
  handle_activity a (outbound envelope outcome) = write_envelope p a envelope outcome
  handle_activity a (chunk bytes) =
      let (es, decoder) = drain p (extend a.decoder bytes) in
      (record a { decoder = decoder; events = a.events ++ map received es }, none)
  handle_activity a read_closed = (a, some server_closed)
  handle_activity a (read_failed e) = (a, some (read_error e))
  handle_activity a read_timed_out = (a, none)

  -- The loop, until a branch returns; `none` while the connection is open.
  unfoldable pub handle_connection : Active → List Activity → Active × Option (Reason D N)
  unfolding handle_activity
  handle_connection a [] = (a, none)
  handle_connection a (x ∷ xs) =
      let (a', ended) = handle_activity a x in
      let rest = handle_connection a' xs in
      elim ended [ some reason ↦ (a', some reason) | none ↦ rest ]
