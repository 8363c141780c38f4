-- ===== src/Sessions.antt =====
-- server/src/session: the sessions of the connected drones. An `Instant` is a number of
-- milliseconds on a monotonic clock; a stream is known by the number of its connection.
pub mod Handle
pub mod Session
pub mod Registry
pub mod Dead
mod Tests
use res_qterra_engine.Common.{
  ℕ, ◌-◌, String, Option, none, some, Bool, List, [], ◌∷◌, map, Result, ok, err, ltb, if◌then◌else◌,
  length,
}
use mathlib.Core.Option
use res_qterra_engine.Common.Text.{is_empty}
use res_qterra_engine.Common.Dict
use res_qterra_engine.Common.Dict.{Dict}
use res_qterra_engine.Common.{string_key}
use res_qterra_engine.Proto.{DroneState, Envelope, heartbeat_timeout_ms}
use res_qterra_engine.Codec.{Prost}
use Handle.{SessionHandle, DroneInfo, new_info, SendError, not_connected, Wire, send}

pub record SessionEntry : Type 0 where
  pub handle : SessionHandle
  pub info : DroneInfo

pub record SessionManager : Type 0 where
  pub sessions : Dict String SessionEntry

unfoldable pub new_manager : SessionManager
new_manager = record { sessions = [] }

unfoldable pub register : SessionManager → SessionHandle → ℕ → SessionManager
unfolding Dict.insert new_info
register m handle now = if is_empty handle.device_id then m else record m {
  sessions =
      Dict.insert handle.device_id
        (record { handle = handle; info = new_info handle.device_id handle.addr now }) m.sessions;
}

unfoldable pub unregister : SessionManager → String → SessionManager
unfolding Dict.remove
unregister m device_id = record m { sessions = Dict.remove device_id m.sessions }

unfoldable pub get : SessionManager → String → Option SessionHandle
unfolding Dict.get
get m device_id = Option.map (λ e. e.handle) (Dict.get device_id m.sessions)

unfoldable pub get_info : SessionManager → String → Option DroneInfo
unfolding Dict.get
get_info m device_id = Option.map (λ e. e.info) (Dict.get device_id m.sessions)

unfoldable pub connected_devices : SessionManager → List String
connected_devices m = map (λ e. e.0) m.sessions

unfoldable pub update_heartbeat : SessionManager → String → ℕ → SessionManager
unfolding Dict.adjust
update_heartbeat m device_id now = record m {
  sessions =
      Dict.adjust device_id (λ e. record e { info = record e.info { last_heartbeat = now } })
        m.sessions;
}

unfoldable pub update_state : SessionManager → String → DroneState → SessionManager
unfolding Dict.adjust
update_state m device_id state = record m {
  sessions =
      Dict.adjust device_id (λ e. record e { info = record e.info { state = state } }) m.sessions;
}

unfoldable pub count : SessionManager → ℕ
count m = length m.sessions

abbrev pub is_dead : ℕ → SessionEntry → Bool
is_dead now e = ltb heartbeat_timeout_ms (now - e.info.last_heartbeat)

-- `elapsed()` reads the clock once for each entry: `now` is the reading for a device.
dead_ids : (String → ℕ) → Dict String SessionEntry → List String
dead_ids now [] = []
dead_ids now ((id, e) ∷ m) =
    let rest = dead_ids now m in if is_dead (now id) e then id ∷ rest else rest

unfoldable pub check_dead_sessions : SessionManager → (String → ℕ) → List String
unfolding dead_ids
check_dead_sessions m now = dead_ids now m.sessions

remove_ids : List String → Dict String SessionEntry → Dict String SessionEntry
unfolding Dict.remove
remove_ids [] m = m
remove_ids (id ∷ ids) m = remove_ids ids (Dict.remove id m)

-- The second part of `remove_dead_sessions`, under the write lock that is taken after the check.
unfoldable pub remove_all : SessionManager → List String → SessionManager
unfolding remove_ids
remove_all m ids = record m { sessions = remove_ids ids m.sessions }

-- The read lock of the check is given up before the write lock is taken: `locked` is the table then,
-- after whatever other tasks have done to it in between.
unfoldable pub remove_dead_sessions :
    SessionManager → (String → ℕ) → SessionManager → SessionManager × List String
unfolding check_dead_sessions remove_all
remove_dead_sessions m now locked =
    let dead = check_dead_sessions m now in
    (elim dead [ [] ↦ locked | id ∷ ids ↦ remove_all locked (id ∷ ids) ], dead)

module _ {D N : Type 0} (p : Prost Envelope D N) (up : ℕ → Bool) where
  unfoldable pub send_to :
      SessionManager → String → Envelope → Wire → Wire × Result (SendError D N) (Unit {0})
  unfolding get send
  send_to m device_id envelope wire = elim (get m device_id) [
    | none ↦ (wire, err (not_connected device_id))
    | some handle ↦ send p up handle envelope wire
  ]

  send_each : Dict String SessionEntry → Envelope → Wire → Wire
  unfolding send
  send_each [] envelope wire = wire
  send_each ((id, e) ∷ m) envelope wire = send_each m envelope (send p up e.handle envelope wire).0

  -- A failed send is reported and the others go on.
  unfoldable pub broadcast : SessionManager → Envelope → Wire → Wire
  unfolding send_each
  broadcast m envelope wire = send_each m.sessions envelope wire
