-- ===== src/Mavlink/Telemetry/Positions.antt =====
-- src/mavlink/telemetry.rs: the position that the reader reports, and its number of satellites.
use res_qterra_engine.Common.{ℕ, ◌≡◌, refl, String, some, List, [], ◌∷◌, ◌++◌, All}
use res_qterra_engine.Proto.{GpsPosition}
use res_qterra_engine.Mavlink.Floats.{Floats}
use res_qterra_engine.Mavlink.Messages.{
  MavMessage, command_long, mission_item_int, global_position_int, gps_raw_int, sys_status,
  mav_battery_status, mav_heartbeat, statustext, vfr_hud, other, GlobalPositionInt,
}
use res_qterra_engine.Mavlink.Telemetry.{
  TelemetryReader, process_message, process_all, get_position, gps_of, add_fix, add_hud,
}
use res_qterra_engine.Mavlink.Telemetry.Runs.{process_all-append}

abbrev pub NoPosition : MavMessage → Type 0
NoPosition (global_position_int p) = ⊥
NoPosition _ = Unit

-- The satellites in the last fix among some messages, `n` where there is none.
abbrev pub satellites_after : ℕ → List MavMessage → ℕ
satellites_after n [] = n
satellites_after n (gps_raw_int gps ∷ ms) = satellites_after gps.satellites_visible ms
satellites_after n (_ ∷ ms) = satellites_after n ms

abbrev SamePlace : GpsPosition → GpsPosition → Type 0
SamePlace p q =
    (p.latitude ≡ q.latitude) × (p.longitude ≡ q.longitude) × (p.altitude_m ≡ q.altitude_m)

-- The reader has a position, at the place of `p` and with so many satellites.
abbrev pub LocatedAt : TelemetryReader → GpsPosition → ℕ → Type 0
LocatedAt r p n =
    (pos : GpsPosition) × (get_position r ≡ some pos) × SamePlace pos p × (pos.satellites ≡ n)

module _ (float : Floats) (utf8 : List ℕ → String) where
  located :
      (r : TelemetryReader) (pos : GpsPosition) (ms : List MavMessage)
      → All NoPosition ms
      → LocatedAt
          (process_all float utf8 (record r { position = some pos }) ms)
          pos
          (satellites_after pos.satellites ms)
  unfolding process_all process_message
  located r pos [] h = (pos, refl, (refl, refl, refl), refl)
  located r pos (global_position_int p ∷ ms) h = absurd (h.0)
  located r pos (gps_raw_int g ∷ ms) h =
      located (process_message float utf8 r (gps_raw_int g)) (add_fix float utf8 g pos) ms h.1
  located r pos (vfr_hud v ∷ ms) h =
      located (process_message float utf8 r (vfr_hud v)) (add_hud float utf8 v pos) ms h.1
  located r pos (sys_status s ∷ ms) h =
      located (process_message float utf8 r (sys_status s)) pos ms h.1
  located r pos (mav_battery_status b ∷ ms) h =
      located (process_message float utf8 r (mav_battery_status b)) pos ms h.1
  located r pos (mav_heartbeat hb ∷ ms) h =
      located (process_message float utf8 r (mav_heartbeat hb)) pos ms h.1
  located r pos (statustext t ∷ ms) h =
      located (process_message float utf8 r (statustext t)) pos ms h.1
  located r pos (command_long c ∷ ms) h = located r pos ms h.1
  located r pos (mission_item_int i ∷ ms) h = located r pos ms h.1
  located r pos (other n ∷ ms) h = located r pos ms h.1

  -- Whatever came before, the reader is at the place of the last position message; the satellites
  -- are those of the last fix after it, and 0 where no fix has come since.
  pub process_all-LocatedAt :
      (r : TelemetryReader) (before after : List MavMessage) (p : GlobalPositionInt)
      → All NoPosition after
      → LocatedAt
          (process_all float utf8 r (before ++ global_position_int p ∷ after))
          (gps_of float utf8 p)
          (satellites_after 0 after)
  unfolding process_all process_message
  process_all-LocatedAt r before after p h =
      rw (process_all-append float utf8 r before (global_position_int p ∷ after))
        (located (process_all float utf8 r before) (gps_of float utf8 p) after h)
