-- ===== src/Proto/Codes.antt =====
-- The wire values of the enumerations are read back as what was written.
use res_qterra_engine.Common.{◌≡◌, refl, some}
use res_qterra_engine.Proto.Enums.{
  DroneState, AckStatus, CommandType, drone_unknown, ack_unknown, cmd_unknown, drone_state_to_i32,
  drone_state_try_from, ack_status_to_i32, ack_status_try_from, command_type_to_i32,
  command_type_try_from,
}

pub drone_state_roundtrip : (s : DroneState) → drone_state_try_from (drone_state_to_i32 s) ≡ some s
drone_state_roundtrip drone_unknown = refl
drone_state_roundtrip _ = refl

pub command_type_roundtrip :
    (c : CommandType) → command_type_try_from (command_type_to_i32 c) ≡ some c
command_type_roundtrip cmd_unknown = refl
command_type_roundtrip _ = refl

pub ack_status_roundtrip : (a : AckStatus) → ack_status_try_from (ack_status_to_i32 a) ≡ some a
ack_status_roundtrip ack_unknown = refl
ack_status_roundtrip _ = refl
