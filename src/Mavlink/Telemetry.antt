-- ===== src/Mavlink/Telemetry.antt =====
-- `TelemetryReader` of src/mavlink/telemetry.rs: the messages of the flight controller as the
-- telemetry of the drone.
pub mod Faults
pub mod Heartbeats
pub mod Positions
pub mod Ranges
pub mod Runs
pub mod Speed
use Prim.Native.Char.{code}
use res_qterra_engine.Common.{
  ℕ, ◌+◌, ◌-◌, ◌*◌, ◌/◌, ◌%◌, ◌^◌, String, Option, none, some, Bool, true, false, not, ◌&&◌, List,
  [], ◌∷◌, ◌++◌, ◌==◌, ltb, leb, if◌then◌else◌, length, drop,
}
use Prim.Native.String
use res_qterra_engine.Common.Text.{◌<>◌, show, is_empty}
use res_qterra_engine.Proto.{
  GpsPosition, BatteryStatus, FlightControllerStatus, ConnectionQuality, Telemetry, DroneState,
  drone_idle, drone_armed, drone_in_mission, drone_returning_home, drone_landing,
  drone_state_to_i32,
}
use res_qterra_engine.Mavlink.Floats.{
  Floats, ten_million, f32_zero, f32_tenth, f32_100, f32_1000, f32_3600,
}
use res_qterra_engine.Mavlink.Messages.{
  MavMessage, global_position_int, gps_raw_int, sys_status, mav_battery_status, mav_heartbeat,
  statustext, vfr_hud, GlobalPositionInt, GpsRawInt, SysStatus, MavBatteryStatus, MavHeartbeat,
  StatusText, VfrHud,
}

-- `start_time` is read off the same clock as the argument of `get_telemetry`, in nanoseconds.
pub record TelemetryReader : Type 0 where
  pub position : Option GpsPosition
  pub battery : Option BatteryStatus
  pub fc_status : FlightControllerStatus
  pub state : DroneState
  pub uptime_seconds : ℕ  -- u64
  pub start_time : ℕ

abbrev pub new_reader : ℕ → TelemetryReader
new_reader now = record {
  position = none;
  battery = none;
  fc_status = record {
    armed = false;
    gps_lock = false;
    mode = "";
    error_count = 0;
    active_faults = [];
  };
  state = drone_idle;
  uptime_seconds = 0;
  start_time = now;
}

abbrev pub mode_to_string : ℕ → String
mode_to_string mode =
    if mode == 0
    then "STABILIZE"
    else if mode == 1
    then "ACRO"
    else if mode == 2
    then "ALT_HOLD"
    else if mode == 3
    then "AUTO"
    else if mode == 4
    then "GUIDED"
    else if mode == 5
    then "LOITER"
    else if mode == 6
    then "RTL"
    else if mode == 7
    then "CIRCLE"
    else if mode == 9
    then "LAND"
    else if mode == 11
    then "DRIFT"
    else if mode == 13
    then "SPORT"
    else if mode == 14
    then "FLIP"
    else if mode == 15
    then "AUTOTUNE"
    else if mode == 16
    then "POSHOLD"
    else if mode == 17
    then "BRAKE"
    else if mode == 18
    then "THROW"
    else if mode == 19
    then "AVOID_ADSB"
    else if mode == 20
    then "GUIDED_NOGPS"
    else if mode == 21
    then "SMART_RTL"
    else "UNKNOWN(" <> show mode <> ")"

-- The drone state of a flight mode: RTL, LAND, AUTO and GUIDED come before the arming.
abbrev pub state_from_mode : ℕ → Bool → DroneState
state_from_mode custom_mode armed =
    if custom_mode == 6
    then drone_returning_home
    else if custom_mode == 9
    then drone_landing
    else if custom_mode == 3
    then drone_in_mission
    else if custom_mode == 4
    then drone_in_mission
    else if not armed
    then drone_idle
    else drone_armed

abbrev pub update_state_from_mode : TelemetryReader → ℕ → Bool → TelemetryReader
update_state_from_mode r custom_mode armed = record r { state = state_from_mode custom_mode armed }

-- `(base_mode & 0x80) != 0`
abbrev pub armed_bit : ℕ → Bool
armed_bit base_mode = base_mode / 128 % 2 == 1

-- `as u32` of an i8, which extends the sign.
abbrev pub i8_as_u32 : ℕ → ℕ
i8_as_u32 n = if ltb n 128 then n else n + (2 ^ 32 - 2 ^ 8)

-- `vx.pow(2) + vy.pow(2)` in i16, which wraps around in a release build.
abbrev pub speed_squared : ℕ → ℕ → ℕ
speed_squared vx vy = (vx * vx % 2 ^ 16 + vy * vy % 2 ^ 16) % 2 ^ 16

abbrev pub error_sum : SysStatus → ℕ
error_sum sys =
    (((sys.errors_count1 + sys.errors_count2) % 2 ^ 32 + sys.errors_count3) % 2 ^ 32
      + sys.errors_count4)
    % 2 ^ 32

-- `trim_end_matches('\0')`
abbrev pub trim_end_nul : String → String
trim_end_nul String.[] = ""
trim_end_nul (String.◌∷◌ c s) =
    let rest = trim_end_nul s in if is_empty rest && (code c == 0) then "" else String.◌∷◌ c rest

-- `active_faults.push(..)` and the removal of the first one where there are more than 10.
abbrev pub push_fault : List String → String → List String
push_fault faults text =
    let pushed = faults ++ text ∷ [] in if ltb 10 (length pushed) then drop 1 pushed else pushed

-- `from_utf8_lossy` is the decoding of the standard library.
module _ (float : Floats) (from_utf8_lossy : List ℕ → String) where
  abbrev pub gps_of : GlobalPositionInt → GpsPosition
  gps_of pos = record {
    latitude = float.f64_div (float.f64_of_i32 pos.lat) ten_million;
    longitude = float.f64_div (float.f64_of_i32 pos.lon) ten_million;
    altitude_m = float.f32_div (float.f32_of_i32 pos.alt) f32_1000;
    heading_deg = float.f32_div (float.f32_of_u16 pos.hdg) f32_100;
    ground_speed_mps =
        float.f32_div (float.f32_sqrt (float.f32_of_i16 (speed_squared pos.vx pos.vy))) f32_100;
    satellites = 0;
    hdop = f32_zero;
  }

  abbrev pub add_fix : GpsRawInt → GpsPosition → GpsPosition
  add_fix gps pos = record pos {
    satellites = gps.satellites_visible;
    hdop = float.f32_div (float.f32_of_u16 gps.eph) f32_100;
  }

  abbrev pub battery_of : SysStatus → BatteryStatus
  battery_of sys = record {
    voltage = float.f32_div (float.f32_of_u16 sys.voltage_battery) f32_1000;
    current = float.f32_div (float.f32_of_i16 sys.current_battery) f32_100;
    remaining_percent = i8_as_u32 sys.battery_remaining;
    remaining_seconds = 0;
  }

  -- The seconds left are estimated only where a current flows.
  abbrev pub seconds_left : MavBatteryStatus → BatteryStatus → ℕ
  seconds_left bat battery =
      if float.f32_gt battery.current f32_tenth
      then float.u32_of_f32 (
          float.f32_mul
            (float.f32_div (float.f32_div (float.f32_of_i32 bat.current_consumed) f32_1000)
              battery.current)
            f32_3600)
      else battery.remaining_seconds

  abbrev pub add_charge : MavBatteryStatus → BatteryStatus → BatteryStatus
  add_charge bat battery = record battery {
    remaining_percent = i8_as_u32 bat.battery_remaining;
    remaining_seconds = seconds_left bat battery;
  }

  abbrev pub add_hud : VfrHud → GpsPosition → GpsPosition
  add_hud hud pos = record pos {
    ground_speed_mps = hud.groundspeed;
    heading_deg = float.f32_of_i16 hud.heading;
  }

  abbrev pub note_fault : StatusText → FlightControllerStatus → FlightControllerStatus
  note_fault text fc =
      if leb text.severity 3
      then record fc {
        active_faults = push_fault fc.active_faults (trim_end_nul (from_utf8_lossy text.text));
      }
      else fc

  unfoldable pub process_message : TelemetryReader → MavMessage → TelemetryReader
  process_message r (global_position_int pos) = record r { position = some (gps_of pos) }
  process_message r (gps_raw_int gps) = record r {
    position = elim r.position [ some pos ↦ some (add_fix gps pos) | none ↦ none ];
    fc_status = record (r.fc_status) { gps_lock = leb 3 gps.fix_type };
  }
  process_message r (sys_status sys) = record r {
    battery = some (battery_of sys);
    fc_status = record (r.fc_status) { error_count = error_sum sys };
  }
  process_message r (mav_battery_status bat) = record r {
    battery = elim r.battery [ some battery ↦ some (add_charge bat battery) | none ↦ none ];
  }
  process_message r (mav_heartbeat hb) =
      let noted = record r {
        fc_status = record (r.fc_status) {
          armed = armed_bit hb.base_mode;
          mode = mode_to_string hb.custom_mode;
        };
      } in
      update_state_from_mode noted hb.custom_mode (armed_bit hb.base_mode)
  process_message r (statustext text) = record r { fc_status = note_fault text r.fc_status }
  process_message r (vfr_hud hud) = record r {
    position = elim r.position [ some pos ↦ some (add_hud hud pos) | none ↦ none ];
  }
  process_message r _ = r

  -- The messages in the order in which they come.
  unfoldable pub process_all : TelemetryReader → List MavMessage → TelemetryReader
  unfolding process_message
  process_all r [] = r
  process_all r (msg ∷ rest) = process_all (process_message r msg) rest

-- The telemetry message, which also notes the time that the reader is up.
abbrev pub get_telemetry : TelemetryReader → ℕ → TelemetryReader × Telemetry
get_telemetry r now =
    let uptime = (now - r.start_time) / 1000000000 in
    (
      record r { uptime_seconds = uptime },
      record {
        position = r.position;
        battery = r.battery;
        state = drone_state_to_i32 r.state;
        fc_status = some r.fc_status;
        uptime_seconds = uptime;
        conn_quality = some (record {
          active_transport = 1;
          rssi_dbm = 0;
          latency_ms = 0;
          packet_loss_percent = f32_zero;
        });
      },
    )

abbrev pub get_state : TelemetryReader → DroneState
get_state r = r.state

abbrev pub get_position : TelemetryReader → Option GpsPosition
get_position r = r.position

abbrev pub get_battery : TelemetryReader → Option BatteryStatus
get_battery r = r.battery

abbrev pub is_armed : TelemetryReader → Bool
is_armed r = r.fc_status.armed

abbrev pub has_gps_lock : TelemetryReader → Bool
has_gps_lock r = r.fc_status.gps_lock

abbrev pub get_mode : TelemetryReader → String
get_mode r = r.fc_status.mode
