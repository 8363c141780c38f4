-- ===== src/Mavlink/Tests.antt =====
-- The link to the flight controller at concrete inputs.
use res_qterra_engine.Common.{
  ℕ, ◌+◌, ◌≡◌, refl, true, String, none, some, List, [], ◌∷◌, leb, arith, err, All,
}
use res_qterra_engine.Common.Text.{show}
use res_qterra_engine.Proto.{
  Command, MissionStart, SurveyArea, GpsCoordinate, mission_start, drone_in_mission,
}
use res_qterra_engine.Mavlink.Floats.{Floats}
use res_qterra_engine.Mavlink.Messages.{
  MavHeartbeat, GlobalPositionInt, GpsRawInt, SysStatus, StatusText, mav_heartbeat, statustext,
  other,
}
use res_qterra_engine.Mavlink.Outbox.{Outbox, send}
use res_qterra_engine.Mavlink.Commands.{MavCommandSender, send_command}
use res_qterra_engine.Mavlink.Commands.Translate.{
  delivered, messages_of, type_of, send_command-delivered,
}
use res_qterra_engine.Mavlink.Commands.Mission.{item_numbers, IsHarmless, send_command-IsHarmless}
use res_qterra_engine.Mavlink.Link.{
  default_fc_config, new_link, FcActivity, outgoing, polled, polled_message, would_block,
  poll_failed, handle_connection, established, FcAttempt, fc_opens, fc_refused, fc_reports,
  connection_loop, connection_string, serial,
}
use res_qterra_engine.Mavlink.Link.Session.{IsAt, connection_loop-follow}
use res_qterra_engine.Mavlink.Link.Traffic.{HasPassed, handle_connection-HasPassed}
use res_qterra_engine.Mavlink.Telemetry.{new_reader, process_all, speed_squared, trim_end_nul}
use res_qterra_engine.Mavlink.Telemetry.Heartbeats.{Reports, process_all-Reports}
use res_qterra_engine.Mavlink.Telemetry.Faults.{last, fault_texts, active_faults-last}
use res_qterra_engine.Mavlink.Telemetry.Speed.{speed_squared-magnitude}

-- Operations that keep the bits of their operand apart enough to tell the results.
abbrev toy : Floats
toy = record {
  f64_of_i32 = λ n. n + 1;
  f64_mul = λ a b. a;
  f64_div = λ a b. a + 2;
  i32_of_f64 = λ a. a;
  f32_of_i16 = λ n. n + 1;
  f32_of_u16 = λ n. n + 1;
  f32_of_i32 = λ n. n + 1;
  f32_of_u32 = λ n. n + 1;
  u32_of_f32 = λ a. a;
  f32_mul = λ a b. a;
  f32_div = λ a b. a + 2;
  f32_sqrt = λ a. a;
  f32_gt = λ a b. leb (b + 1) a;
}

abbrev lossy : List ℕ → String
lossy [] = ""
lossy (b ∷ bs) = "x"

abbrev autopilot : MavCommandSender
autopilot = record { target_system = 1; target_component = 1 }

abbrev corner : ℕ → GpsCoordinate
corner n = record { latitude = n; longitude = n; altitude_m = 0 }

abbrev field : SurveyArea
field = record { boundary = corner 5 ∷ corner 6 ∷ corner 7 ∷ []; home_position = none }

abbrev survey : MissionStart
survey = record {
  mission_id = "m";
  survey_area = some field;
  scan_pattern = 0;
  altitude_m = 30;
  speed_mps = 5;
  sensors = [];
}

abbrev start_survey : Command
start_survey = record {
  command_id = 1;
  cmd_type = 1;
  expires_at_ms = 0;
  priority = 0;
  params = some (mission_start survey);
}

-- A receiver that goes away after two messages, and one that stays.
abbrev short_lived : Outbox
short_lived = record { sent = []; lives_for = some 2 }

abbrev lasting : Outbox
lasting = record { sent = []; lives_for = none }

send_command-delivered_example :
    send_command toy autopilot short_lived start_survey
    ≡ delivered short_lived (messages_of toy autopilot (type_of start_survey) start_survey.params)
send_command-delivered_example = send_command-delivered toy autopilot short_lived start_survey

-- The two waypoints that went out are numbered 0 and 1, and the error is reported.
two_waypoints :
    (item_numbers (send_command toy autopilot short_lived start_survey).0.sent
      ≡ (0, 1) ∷ (1, 0) ∷ [])
    × ((send_command toy autopilot short_lived start_survey).1 ≡ err "FC connection closed")
unfolding send_command send
two_waypoints = (refl, refl)

send_command-IsHarmless_example :
    All IsHarmless (send_command toy autopilot short_lived start_survey).0.sent
send_command-IsHarmless_example =
    send_command-IsHarmless toy autopilot short_lived start_survey (λ e. ground arith) tt

abbrev in_auto : MavHeartbeat
in_auto = record { autopilot = 3; mavtype = 2; system_status = 4; base_mode = 1; custom_mode = 3 }

abbrev traffic : List FcActivity
traffic =
    polled (polled_message (mav_heartbeat in_auto))
    ∷ outgoing (other 9) none
    ∷ polled would_block
    ∷ polled (poll_failed "reset")
    ∷ polled (polled_message (other 1))
    ∷ []

handle_connection-HasPassed_example :
    HasPassed default_fc_config
      (established new_link)
      traffic
      (handle_connection default_fc_config (established new_link) traffic)
handle_connection-HasPassed_example = handle_connection-HasPassed default_fc_config new_link traffic

-- The second connection has failed, and that is reported and not yet noted in the flag.
abbrev losing : List FcAttempt
losing = fc_refused "no port" ∷ fc_opens traffic ∷ fc_reports traffic ∷ fc_opens [] ∷ []

connection_loop-follow_example : IsAt (connection_loop default_fc_config new_link losing)
connection_loop-follow_example = connection_loop-follow default_fc_config losing

lost_unnoticed : (connection_loop default_fc_config new_link losing).0.connected ≡ true
unfolding connection_loop
lost_unnoticed = refl

strings :
    (connection_string (serial "/dev/ttyACM0" 57600) ≡ "serial:/dev/ttyACM0:57600")
    × (connection_string default_fc_config.connection ≡ "udpin:127.0.0.1:14550")
unfolding show
strings = (refl, refl)

-- A disarmed drone (base_mode without the bit 0x80) in AUTO is reported in its mission.
process_all-Reports_example :
    Reports
      (process_all toy lossy (new_reader 0) (other 1 ∷ mav_heartbeat in_auto ∷ other 2 ∷ []))
      in_auto
process_all-Reports_example =
    process_all-Reports toy lossy (new_reader 0) (other 1 ∷ []) (other 2 ∷ []) in_auto (refl, tt)

disarmed_in_mission :
    (process_all toy lossy (new_reader 0) (mav_heartbeat in_auto ∷ [])).state ≡ drone_in_mission
unfolding process_all
disarmed_in_mission = refl

abbrev bad : StatusText
bad = record { severity = 2; text = 1 ∷ [] }

active_faults-last_example :
    (process_all toy lossy
      (new_reader 0)
      (statustext bad ∷ statustext bad ∷ [])).fc_status.active_faults
    ≡ last 10 (fault_texts lossy (statustext bad ∷ statustext bad ∷ []))
active_faults-last_example = active_faults-last toy lossy 0 (statustext bad ∷ statustext bad ∷ [])

trimmed : trim_end_nul "low battery\0\0" ≡ "low battery"
trimmed = refl

abbrev here : GlobalPositionInt
here = record { lat = 10; lon = 20; alt = 30; hdg = 40; vx = 3; vy = 65532 }

abbrev fix : GpsRawInt
fix = record { satellites_visible = 9; eph = 100; fix_type = 3 }

abbrev powered : SysStatus
powered = record {
  voltage_battery = 12000;
  current_battery = 100;
  battery_remaining = 80;
  errors_count1 = 1;
  errors_count2 = 2;
  errors_count3 = 3;
  errors_count4 = 65535;
}

speed_squared-magnitude_example : speed_squared 3 65532 ≡ 25
speed_squared-magnitude_example =
    speed_squared-magnitude 3 65532 (omega arith) (omega arith) (omega arith)

-- 182 cm/s along one axis: 33124 stands for a negative i16.
speed_overflow : speed_squared 182 0 ≡ 33124
speed_overflow = refl
