-- ===== src/Mavlink/Commands.antt =====
-- `MavCommandSender` of src/mavlink/commands.rs: the commands of the server as messages for the
-- flight controller. An `f32` is written as its bit pattern.
pub mod Translate
pub mod Mission
use res_qterra_engine.Common.{
  ℕ, zero, suc, ◌+◌, ◌%◌, ◌^◌, String, Option, none, some, Bool, List, [], ◌∷◌, Result, ok, err,
  ◌==◌, if◌then◌else◌,
}
use res_qterra_engine.Proto.{
  Command, CommandType, cmd_unknown, cmd_mission_start, cmd_mission_abort, cmd_rth,
  cmd_status_request, cmd_config_update, cmd_emergency_stop, command_type_try_from, Params,
  mission_start, mission_abort, rth, status_request, config_update, emergency_stop, MissionStart,
  ReturnToHome, SurveyArea, GpsCoordinate,
}
use res_qterra_engine.Mavlink.Floats.{
  Floats, ten_million, f32_zero, f32_one, f32_two, f32_five, f32_six, f32_33, f32_21196, f32_100000,
  f32_nan,
}
use res_qterra_engine.Mavlink.Messages.{
  MavMessage, command_long, mission_item_int, CommandLong, MissionItemInt, MavCmd,
  mav_cmd_component_arm_disarm, mav_cmd_nav_takeoff, mav_cmd_nav_land, mav_cmd_nav_waypoint,
  mav_cmd_do_set_mode, mav_cmd_mission_start, mav_cmd_set_message_interval,
  mav_frame_global_relative_alt_int,
}
use res_qterra_engine.Mavlink.Outbox.{Outbox, Sent, send, and_then}

pub record MavCommandSender : Type 0 where
  pub target_system : ℕ  -- u8
  pub target_component : ℕ  -- u8

abbrev pub new_sender : ℕ → ℕ → MavCommandSender
new_sender target_system target_component = record {
  target_system = target_system;
  target_component = target_component;
}

-- ArduPilot Copter flight modes.
pub data ArduPilotMode : Type 0 where
  stabilize acro alt_hold auto guided loiter rtl circle land_mode drift sport flip auto_tune :
      ArduPilotMode
  pos_hold brake throw avoid_adsb guided_no_gps smart_rtl flow_hold follow_mode zig_zag :
      ArduPilotMode
  system_id_mode heli_autorotate auto_rtl : ArduPilotMode

abbrev pub mode_number : ArduPilotMode → ℕ
mode_number stabilize = 0
mode_number acro = 1
mode_number alt_hold = 2
mode_number auto = 3
mode_number guided = 4
mode_number loiter = 5
mode_number rtl = 6
mode_number circle = 7
mode_number land_mode = 9
mode_number drift = 11
mode_number sport = 13
mode_number flip = 14
mode_number auto_tune = 15
mode_number pos_hold = 16
mode_number brake = 17
mode_number throw = 18
mode_number avoid_adsb = 19
mode_number guided_no_gps = 20
mode_number smart_rtl = 21
mode_number flow_hold = 22
mode_number follow_mode = 23
mode_number zig_zag = 24
mode_number system_id_mode = 25
mode_number heli_autorotate = 26
mode_number auto_rtl = 27

-- A command with its first two parameters; the others are 0.0.
abbrev pub long2 : MavCommandSender → MavCmd → ℕ → ℕ → MavMessage
long2 s command param1 param2 = command_long (record {
  target_system = s.target_system;
  target_component = s.target_component;
  command = command;
  confirmation = 0;
  param1 = param1;
  param2 = param2;
  param3 = f32_zero;
  param4 = f32_zero;
  param5 = f32_zero;
  param6 = f32_zero;
  param7 = f32_zero;
})

-- A command at the present yaw, latitude and longitude (NaN), with an altitude.
abbrev pub long_here : MavCommandSender → MavCmd → ℕ → MavMessage
long_here s command altitude_m = command_long (record {
  target_system = s.target_system;
  target_component = s.target_component;
  command = command;
  confirmation = 0;
  param1 = f32_zero;
  param2 = f32_zero;
  param3 = f32_zero;
  param4 = f32_nan;
  param5 = f32_nan;
  param6 = f32_nan;
  param7 = altitude_m;
})

abbrev pub arm : MavCommandSender → Outbox → Sent
arm s fc = send fc (long2 s mav_cmd_component_arm_disarm f32_one f32_zero)

abbrev pub disarm : MavCommandSender → Outbox → Sent
disarm s fc = send fc (long2 s mav_cmd_component_arm_disarm f32_zero f32_zero)

abbrev pub takeoff : MavCommandSender → Outbox → ℕ → Sent
takeoff s fc altitude_m = send fc (long_here s mav_cmd_nav_takeoff altitude_m)

abbrev pub land : MavCommandSender → Outbox → Sent
land s fc = send fc (long_here s mav_cmd_nav_land f32_zero)

-- RTL is mode 6; the altitude is only printed.
abbrev pub return_to_home : MavCommandSender → Outbox → ReturnToHome → Sent
return_to_home s fc r =
    and_then (send fc (long2 s mav_cmd_do_set_mode f32_one f32_six)) (λ fc'. (fc', ok tt))

-- LOITER is mode 5.
abbrev pub abort_mission : MavCommandSender → Outbox → Sent
abort_mission s fc = send fc (long2 s mav_cmd_do_set_mode f32_one f32_five)

abbrev pub emergency_stop_motors : MavCommandSender → Outbox → Sent
emergency_stop_motors s fc = send fc (long2 s mav_cmd_component_arm_disarm f32_zero f32_21196)

abbrev pub request_status : MavCommandSender → Outbox → Sent
request_status s fc = send fc (long2 s mav_cmd_set_message_interval f32_33 f32_100000)

module _ (float : Floats) where
  abbrev pub set_mode : MavCommandSender → Outbox → ArduPilotMode → Sent
  set_mode s fc mode =
      send fc (long2 s mav_cmd_do_set_mode f32_one (float.f32_of_u32 (mode_number mode)))

  abbrev pub goto_position : MavCommandSender → Outbox → ℕ → ℕ → ℕ → Sent
  goto_position s fc lat lon alt = send fc (
      mission_item_int (record {
        target_system = s.target_system;
        target_component = s.target_component;
        seq = 0;
        frame = mav_frame_global_relative_alt_int;
        command = mav_cmd_nav_waypoint;
        current = 2;
        autocontinue = 0;
        param1 = f32_zero;
        param2 = f32_zero;
        param3 = f32_zero;
        param4 = f32_zero;
        x = float.i32_of_f64 (float.f64_mul lat ten_million);
        y = float.i32_of_f64 (float.f64_mul lon ten_million);
        z = alt;
      }))

  -- The message of the boundary point at index `i`.
  abbrev pub waypoint : MavCommandSender → MissionStart → ℕ → GpsCoordinate → MavMessage
  waypoint s mission i point = mission_item_int (record {
    target_system = s.target_system;
    target_component = s.target_component;
    seq = i % 2 ^ 16;
    frame = mav_frame_global_relative_alt_int;
    command = mav_cmd_nav_waypoint;
    current = if i == 0 then 1 else 0;
    autocontinue = 1;
    param1 = f32_zero;
    param2 = f32_two;
    param3 = f32_zero;
    param4 = f32_zero;
    x = float.i32_of_f64 (float.f64_mul point.latitude ten_million);
    y = float.i32_of_f64 (float.f64_mul point.longitude ten_million);
    z = if float.f32_gt point.altitude_m f32_zero then point.altitude_m else mission.altitude_m;
  })

  -- The `for` over the points from index `i` on.
  upload_from : MavCommandSender → Outbox → MissionStart → ℕ → List GpsCoordinate → Sent
  upload_from s fc mission i [] = (fc, ok tt)
  upload_from s fc mission i (point ∷ rest) =
      and_then (send fc (waypoint s mission i point))
        (λ fc'. upload_from s fc' mission (suc i) rest)

  unfoldable pub upload_mission_waypoints :
      MavCommandSender → Outbox → MissionStart → SurveyArea → Sent
  unfolding upload_from
  upload_mission_waypoints s fc mission area = upload_from s fc mission 0 area.boundary

  unfoldable pub start_mission : MavCommandSender → Outbox → MissionStart → Sent
  unfolding upload_mission_waypoints
  start_mission s fc mission =
      and_then
        (elim mission.survey_area [
          | some area ↦ upload_mission_waypoints s fc mission area
          | none ↦ (fc, ok tt)
        ])
        (λ fc'. send fc' (long2 s mav_cmd_mission_start f32_zero f32_zero))

  -- The `match` on the type; `?` after each call passes an error on.
  send_typed : MavCommandSender → Outbox → CommandType → Option Params → Sent
  unfolding start_mission
  send_typed s fc cmd_mission_start (some (mission_start mission)) = start_mission s fc mission
  send_typed s fc cmd_mission_abort params = abort_mission s fc
  send_typed s fc cmd_rth (some (rth r)) = return_to_home s fc r
  send_typed s fc cmd_rth params =
      return_to_home s fc (record { altitude_m = f32_zero; speed_mps = f32_zero })
  send_typed s fc cmd_emergency_stop params = emergency_stop_motors s fc
  send_typed s fc cmd_status_request params = request_status s fc
  send_typed s fc _ params = (fc, ok tt)

  unfoldable pub send_command : MavCommandSender → Outbox → Command → Sent
  unfolding send_typed
  send_command s fc command =
      send_typed s fc
        (elim (command_type_try_from command.cmd_type) [ some t ↦ t | none ↦ cmd_unknown ])
        command.params
