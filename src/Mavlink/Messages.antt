-- ===== src/Mavlink/Messages.antt =====
-- The messages of the mavlink crate: for what src/mavlink/commands.rs builds, the fields it writes;
-- for what telemetry.rs and connection.rs read, the fields they read. All other messages are
-- `other`, by their number. Signed fields are two's complement bit patterns.
use res_qterra_engine.Common.{ℕ, Option, none, some, List}

pub data MavCmd : Type 0 where
  mav_cmd_component_arm_disarm mav_cmd_nav_takeoff mav_cmd_nav_land : MavCmd
  mav_cmd_nav_waypoint mav_cmd_do_set_mode mav_cmd_mission_start : MavCmd
  mav_cmd_set_message_interval : MavCmd

pub data MavFrame : Type 0 where
  mav_frame_global_relative_alt_int : MavFrame

-- COMMAND_LONG_DATA
pub record CommandLong : Type 0 where
  pub target_system : ℕ  -- u8
  pub target_component : ℕ  -- u8
  pub command : MavCmd
  pub confirmation : ℕ
  pub param1 : ℕ  -- f32
  pub param2 : ℕ  -- f32
  pub param3 : ℕ  -- f32
  pub param4 : ℕ  -- f32
  pub param5 : ℕ  -- f32
  pub param6 : ℕ  -- f32
  pub param7 : ℕ  -- f32

-- MISSION_ITEM_INT_DATA
pub record MissionItemInt : Type 0 where
  pub target_system : ℕ  -- u8
  pub target_component : ℕ  -- u8
  pub seq : ℕ  -- u16
  pub frame : MavFrame
  pub command : MavCmd
  pub current : ℕ  -- u8
  pub autocontinue : ℕ  -- u8
  pub param1 : ℕ  -- f32
  pub param2 : ℕ  -- f32
  pub param3 : ℕ  -- f32
  pub param4 : ℕ  -- f32
  pub x : ℕ  -- i32
  pub y : ℕ  -- i32
  pub z : ℕ  -- f32

pub record GlobalPositionInt : Type 0 where
  pub lat : ℕ  -- i32
  pub lon : ℕ  -- i32
  pub alt : ℕ  -- i32
  pub hdg : ℕ  -- u16
  pub vx : ℕ  -- i16
  pub vy : ℕ  -- i16

pub record GpsRawInt : Type 0 where
  pub satellites_visible : ℕ  -- u8
  pub eph : ℕ  -- u16
  pub fix_type : ℕ  -- GpsFixType

pub record SysStatus : Type 0 where
  pub voltage_battery : ℕ  -- u16
  pub current_battery : ℕ  -- i16
  pub battery_remaining : ℕ  -- i8
  pub errors_count1 : ℕ  -- u16
  pub errors_count2 : ℕ  -- u16
  pub errors_count3 : ℕ  -- u16
  pub errors_count4 : ℕ  -- u16

pub record MavBatteryStatus : Type 0 where
  pub battery_remaining : ℕ  -- i8
  pub current_consumed : ℕ  -- i32

pub record MavHeartbeat : Type 0 where
  pub autopilot : ℕ  -- MavAutopilot
  pub mavtype : ℕ  -- MavType
  pub system_status : ℕ  -- MavState
  pub base_mode : ℕ  -- MavModeFlag
  pub custom_mode : ℕ  -- u32

pub record StatusText : Type 0 where
  pub severity : ℕ  -- MavSeverity
  pub text : List ℕ

pub record VfrHud : Type 0 where
  pub groundspeed : ℕ  -- f32
  pub heading : ℕ  -- i16

pub data MavMessage : Type 0 where
  command_long : CommandLong → MavMessage
  mission_item_int : MissionItemInt → MavMessage
  global_position_int : GlobalPositionInt → MavMessage
  gps_raw_int : GpsRawInt → MavMessage
  sys_status : SysStatus → MavMessage
  mav_battery_status : MavBatteryStatus → MavMessage
  mav_heartbeat : MavHeartbeat → MavMessage
  statustext : StatusText → MavMessage
  vfr_hud : VfrHud → MavMessage
  other : ℕ → MavMessage

-- `if let MavMessage::HEARTBEAT(hb) = &msg`
abbrev pub as_heartbeat : MavMessage → Option MavHeartbeat
as_heartbeat (mav_heartbeat hb) = some hb
as_heartbeat _ = none
