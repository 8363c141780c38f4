-- ===== src/Mavlink/Telemetry/Heartbeats.antt =====
-- src/mavlink/telemetry.rs: the state, the mode and the arming that the reader reports.
use res_qterra_engine.Common.{ℕ, ◌≡◌, refl, ap, arith, String, none, Bool, List, ◌∷◌, ◌++◌, All}
use res_qterra_engine.Proto.{DroneState}
use res_qterra_engine.Mavlink.Floats.{Floats}
use res_qterra_engine.Mavlink.Messages.{
  MavMessage, command_long, mission_item_int, global_position_int, gps_raw_int, sys_status,
  mav_battery_status, mav_heartbeat, statustext, vfr_hud, other, MavHeartbeat, as_heartbeat,
}
use res_qterra_engine.Mavlink.Telemetry.{
  TelemetryReader, process_message, process_all, get_state, is_armed, get_mode, state_from_mode,
  mode_to_string, armed_bit,
}
use res_qterra_engine.Mavlink.Telemetry.Runs.{process_all-append, process_all-unchanged}

abbrev pub NoHeartbeat : MavMessage → Type 0
NoHeartbeat msg = as_heartbeat msg ≡ none

abbrev FlightView : Type 0
FlightView = DroneState × Bool × String

abbrev flight_view : TelemetryReader → FlightView
flight_view r = (get_state r, is_armed r, get_mode r)

abbrev pub Reports : TelemetryReader → MavHeartbeat → Type 0
Reports r hb =
    (get_state r ≡ state_from_mode hb.custom_mode (armed_bit hb.base_mode))
    × (is_armed r ≡ armed_bit hb.base_mode)
    × (get_mode r ≡ mode_to_string hb.custom_mode)

module _ (float : Floats) (utf8 : List ℕ → String) where
  flight_view-process_message :
      (r : TelemetryReader) (msg : MavMessage)
      → NoHeartbeat msg
      → flight_view (process_message float utf8 r msg) ≡ flight_view r
  unfolding process_message
  flight_view-process_message r (command_long c) h = refl
  flight_view-process_message r (mission_item_int i) h = refl
  flight_view-process_message r (global_position_int p) h = refl
  flight_view-process_message r (gps_raw_int g) h = refl
  flight_view-process_message r (sys_status s) h = refl
  flight_view-process_message r (mav_battery_status b) h = refl
  flight_view-process_message r (mav_heartbeat hb) h = absurd (ground arith)
  flight_view-process_message r (statustext t) h = ground arith
  flight_view-process_message r (vfr_hud v) h = refl
  flight_view-process_message r (other n) h = refl

  -- Whatever came before, the reader reports the state, the arming and the mode of the last
  -- heartbeat, and no other message changes them.
  pub process_all-Reports :
      (r : TelemetryReader) (before after : List MavMessage) (hb : MavHeartbeat)
      → All NoHeartbeat after
      → Reports (process_all float utf8 r (before ++ mav_heartbeat hb ∷ after)) hb
  unfolding process_all process_message
  process_all-Reports r before after hb h =
      let r' = process_message float utf8 (process_all float utf8 r before) (mav_heartbeat hb) in
      let same =
        process_all-unchanged float utf8 flight_view NoHeartbeat flight_view-process_message r'
          after h in
      rw (process_all-append float utf8 r before (mav_heartbeat hb ∷ after))
        (ap (λ v. v.0) same, ap (λ v. v.1) same, ap (λ v. v.2) same)
