-- ===== src/Connection/Halves.antt =====
-- src/connection/manager.rs: `ConnectionStream` and its halves, and `handle_connection` from what
-- the socket answers on.
pub mod Runs
pub mod Alike
use res_qterra_engine.Common.{
  ℕ, ◌+◌, ◌%◌, ◌^◌, String, Option, none, some, List, [], ◌∷◌, Result, ok, err,
}
use res_qterra_engine.Proto.{Envelope}
use res_qterra_engine.Codec.{Prost, CodecError, encode}
use res_qterra_engine.Connection.{ConnectionConfig}
use res_qterra_engine.Connection.Active.{
  Activity, ticked, outbound, chunk, read_closed, read_failed, read_timed_out, Active, opened,
  heartbeat_envelope, Reason, handle_activity,
}

-- What tokio and bluer offer for a socket: its two halves, a read into the buffer of 4096 bytes, and
-- a write of all bytes. A read of no bytes is the end of the stream.
pub record Socket (S R W : Type 0) : Type 0 where
  pub into_split : S → R × W
  pub read : R → R × Result String (List ℕ)
  pub write_all : W → List ℕ → W × Result String (Unit {0})

pub data ConnectionStream (T B : Type 0) : Type 0 where
  tcp : T → ConnectionStream T B
  rfcomm : B → ConnectionStream T B

pub data ConnectionReader (T B : Type 0) : Type 0 where
  tcp : T → ConnectionReader T B
  rfcomm : B → ConnectionReader T B

pub data ConnectionWriter (T B : Type 0) : Type 0 where
  tcp : T → ConnectionWriter T B
  rfcomm : B → ConnectionWriter T B

-- A branch of the `select!` that is ready: the tick of the heartbeat, with the uptime and the clock;
-- a message to send; a read, or its timeout.
pub data Ready : Type 0 where
  beat_due : ℕ → ℕ → Ready
  message_due : Envelope → Ready
  read_due read_late : Ready

-- The `match` on the result of a read.
abbrev pub read_activity : Result String (List ℕ) → Activity
read_activity (ok []) = read_closed
read_activity (ok (b ∷ bs)) = chunk (b ∷ bs)
read_activity (err e) = read_failed e

abbrev pub failure : Result String (Unit {0}) → Option String
failure (ok done) = none
failure (err e) = some e

module _ {T TR TW B BR BW : Type 0} (t : Socket T TR TW) (b : Socket B BR BW) where
  abbrev pub into_split : ConnectionStream T B → ConnectionReader TR BR × ConnectionWriter TW BW
  into_split (ConnectionStream.tcp stream) =
      let (r, w) = t.into_split stream in (ConnectionReader.tcp r, ConnectionWriter.tcp w)
  into_split (ConnectionStream.rfcomm stream) =
      let (r, w) = b.into_split stream in (ConnectionReader.rfcomm r, ConnectionWriter.rfcomm w)

  abbrev pub read : ConnectionReader TR BR → ConnectionReader TR BR × Result String (List ℕ)
  read (ConnectionReader.tcp r) = let (r', n) = t.read r in (ConnectionReader.tcp r', n)
  read (ConnectionReader.rfcomm r) = let (r', n) = b.read r in (ConnectionReader.rfcomm r', n)

  abbrev pub write_all :
      ConnectionWriter TW BW → List ℕ → ConnectionWriter TW BW × Result String (Unit {0})
  write_all (ConnectionWriter.tcp w) buf =
      let (w', done) = t.write_all w buf in (ConnectionWriter.tcp w', done)
  write_all (ConnectionWriter.rfcomm w) buf =
      let (w', done) = b.write_all w buf in (ConnectionWriter.rfcomm w', done)

  -- `writer.write_all(&encoded).await?`, where there are bytes to write.
  abbrev pub write_encoded :
      {D N : Type 0}
      → ConnectionWriter TW BW
      → Result (CodecError D N) (List ℕ)
      → ConnectionWriter TW BW × Option String
  write_encoded w (ok encoded) = let (w', done) = write_all w encoded in (w', failure done)
  write_encoded w (err x) = (w, none)

  pub record Running : Type 0 where
    pub active : Active
    pub reader : ConnectionReader TR BR
    pub writer : ConnectionWriter TW BW

  module _ {D N : Type 0} (p : Prost Envelope D N) (config : ConnectionConfig) where
    -- A branch for which the socket has answered.
    abbrev pub finish :
        ConnectionReader TR BR
        → ConnectionWriter TW BW
        → Active × Option (Reason D N)
        → Running × Option (Reason D N)
    finish r w (a, ended) = (record { active = a; reader = r; writer = w }, ended)

    unfoldable pub round : Running → Ready → Running × Option (Reason D N)
    unfolding handle_activity encode
    round s (beat_due uptime_ms now) =
        let seq = (s.active.sequence_id + 1) % 2 ^ 64 in
        let (w, o) =
          write_encoded s.writer (encode p (heartbeat_envelope config seq uptime_ms now)) in
        finish s.reader w (handle_activity p config s.active (ticked uptime_ms now o))
    round s (message_due envelope) =
        let (w, o) = write_encoded s.writer (encode p envelope) in
        finish s.reader w (handle_activity p config s.active (outbound envelope o))
    round s read_due =
        let (r, n) = read s.reader in
        finish r s.writer (handle_activity p config s.active (read_activity n))
    round s read_late = finish s.reader s.writer (handle_activity p config s.active read_timed_out)

    unfoldable pub rounds : Running → List Ready → Running × Option (Reason D N)
    unfolding round
    rounds s [] = (s, none)
    rounds s (x ∷ xs) =
        let (s', ended) = round s x in
        let rest = rounds s' xs in elim ended [ some reason ↦ (s', some reason) | none ↦ rest ]

    unfoldable pub handle_stream :
        ConnectionStream T B → ℕ → List Ready → Running × Option (Reason D N)
    unfolding rounds
    handle_stream stream sequence_id xs =
        let (r, w) = into_split stream in
        rounds (record { active = opened sequence_id; reader = r; writer = w }) xs
