-- ===== src/Mavlink/Telemetry/Ranges.antt =====
-- src/mavlink/telemetry.rs: the ranges of the battery's charge and of the error count.
use res_qterra_engine.Common.{
  ℕ, ◌≤◌, ◌<◌, String, Option, Option-cases, inl, inr, none, some, List, All, arith,
}
use res_qterra_engine.Proto.{BatteryStatus}
use res_qterra_engine.Mavlink.Floats.{Floats}
use res_qterra_engine.Mavlink.Messages.{
  MavMessage, command_long, mission_item_int, global_position_int, gps_raw_int, sys_status,
  mav_battery_status, mav_heartbeat, statustext, vfr_hud, other, SysStatus,
}
use res_qterra_engine.Mavlink.Telemetry.{
  TelemetryReader, new_reader, process_message, process_all, get_battery, i8_as_u32, error_sum,
}
use res_qterra_engine.Mavlink.Telemetry.Runs.{process_all-keeps}

-- The messages that know the charge of the battery, in percent; the counts are u16.
abbrev pub KnowsCharge : MavMessage → Type 0
KnowsCharge (sys_status s) =
    (s.battery_remaining ≤ 100)
    × (s.errors_count1 < 65536)
    × (s.errors_count2 < 65536)
    × (s.errors_count3 < 65536)
    × (s.errors_count4 < 65536)
KnowsCharge (mav_battery_status b) = b.battery_remaining ≤ 100
KnowsCharge _ = Unit

abbrev ChargeBelow : Option BatteryStatus → Type 0
ChargeBelow none = Unit
ChargeBelow (some battery) = battery.remaining_percent ≤ 100

abbrev pub IsInRange : TelemetryReader → Type 0
IsInRange r = ChargeBelow (get_battery r) × (r.fc_status.error_count ≤ 262140)

i8_as_u32-percent : (n : ℕ) → n ≤ 100 → i8_as_u32 n ≤ 100
i8_as_u32-percent n h = ground arith

error_sum-below : (s : SysStatus) → KnowsCharge (sys_status s) → error_sum s ≤ 262140
error_sum-below s h = omega (arith, h.1, h.2, h.3, h.4)

module _ (float : Floats) (utf8 : List ℕ → String) where
  process_message-IsInRange :
      (r : TelemetryReader) (msg : MavMessage)
      → KnowsCharge msg
      → IsInRange r
      → IsInRange (process_message float utf8 r msg)
  unfolding process_message
  process_message-IsInRange r (sys_status s) k h =
      (i8_as_u32-percent s.battery_remaining k.0, error_sum-below s k)
  process_message-IsInRange r (mav_battery_status b) k h = elim (Option-cases r.battery) [
    | inl e ↦ rw e (tt, h.1)
    | inr (battery, e) ↦ rw e (i8_as_u32-percent b.battery_remaining k, h.1)
  ]
  process_message-IsInRange r (command_long c) k h = h
  process_message-IsInRange r (mission_item_int i) k h = h
  process_message-IsInRange r (global_position_int p) k h = h
  process_message-IsInRange r (gps_raw_int g) k h = h
  process_message-IsInRange r (mav_heartbeat hb) k h = h
  process_message-IsInRange r (statustext t) k h = ground (arith, h)
  process_message-IsInRange r (vfr_hud v) k h = h
  process_message-IsInRange r (other n) k h = h

  -- As long as every battery message knows the charge, the reader reports at most 100 percent; and
  -- the error count is at most four times 65535, so that its sum does not wrap around.
  pub process_all-IsInRange :
      (now : ℕ) (ms : List MavMessage)
      → All KnowsCharge ms
      → IsInRange (process_all float utf8 (new_reader now) ms)
  process_all-IsInRange now ms h =
      process_all-keeps float utf8 IsInRange KnowsCharge process_message-IsInRange (new_reader now)
        ms h (tt, omega arith)
