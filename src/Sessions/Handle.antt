-- ===== src/Sessions/Handle.antt =====
-- server/src/session/connection.rs: the handle by which the server writes to a drone, and what it
-- knows of the drone.
use res_qterra_engine.Common.{ℕ, String, Bool, List, [], ◌∷◌, ◌++◌, Result, ok, err, if◌then◌else◌}
use res_qterra_engine.Proto.{DroneState, drone_unknown, Envelope}
use res_qterra_engine.Codec.{Prost, CodecError, encode}

pub record SessionHandle : Type 0 where
  pub device_id : String
  pub addr : String
  pub writer : ℕ  -- the connection
  pub connected_at : ℕ
  pub last_heartbeat : ℕ

pub record DroneInfo : Type 0 where
  pub device_id : String
  pub addr : String
  pub state : DroneState
  pub last_heartbeat : ℕ
  pub connected_at : ℕ
  pub pending_commands : ℕ  -- u32

unfoldable pub new_info : String → String → ℕ → DroneInfo
new_info device_id addr now = record {
  device_id = device_id;
  addr = addr;
  state = drone_unknown;
  last_heartbeat = now;
  connected_at = now;
  pending_commands = 0;
}

pub data SendError (D N : Type 0) : Type 0 where
  encode_failed : CodecError D N → SendError D N
  write_failed : SendError D N
  not_connected : String → SendError D N

-- All that has been written, each piece with its connection.
abbrev pub Wire : Type 0
Wire = List (ℕ × List ℕ)

-- `up` says of a connection whether a write on it succeeds.
module _ {D N : Type 0} (p : Prost Envelope D N) (up : ℕ → Bool) where
  write_all : SessionHandle → List ℕ → Wire → Wire × Result (SendError D N) (Unit {0})
  write_all h bytes wire =
      if up h.writer then (wire ++ (h.writer, bytes) ∷ [], ok tt) else (wire, err write_failed)

  unfoldable pub send : SessionHandle → Envelope → Wire → Wire × Result (SendError D N) (Unit {0})
  unfolding write_all encode
  send h envelope wire = elim (encode p envelope) [
    | ok bytes ↦ write_all h bytes wire
    | err x ↦ (wire, err (encode_failed x))
  ]
