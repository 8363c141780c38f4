-- ===== src/Proto/Enums.antt =====
-- The enumerations of shared/proto/resqterra.proto. `to_i32` and `try_from` follow the numbers
-- written there; a wire value that no enumerator has is refused.
use res_qterra_engine.Common.{ℕ, zero, suc, Option, none, some}

pub data DroneState : Type 0 where
  drone_unknown drone_idle drone_preflight drone_armed drone_taking_off : DroneState
  drone_in_mission drone_returning_home drone_landing drone_emergency : DroneState

pub data MessageType : Type 0 where
  msg_unknown msg_telemetry msg_command msg_ack msg_heartbeat msg_sensor_data : MessageType

pub data CommandType : Type 0 where
  cmd_unknown cmd_mission_start cmd_mission_abort cmd_rth cmd_status_request : CommandType
  cmd_config_update cmd_emergency_stop : CommandType

pub data AckStatus : Type 0 where
  ack_unknown ack_received ack_accepted ack_rejected ack_completed ack_failed : AckStatus
  ack_expired : AckStatus

pub data AbortAction : Type 0 where
  abort_hover abort_rth abort_land_now : AbortAction

pub DroneState-discrete : Discrete DroneState
DroneState-discrete = hlevel

abbrev pub drone_state_to_i32 : DroneState → ℕ
drone_state_to_i32 drone_unknown = 0
drone_state_to_i32 drone_idle = 1
drone_state_to_i32 drone_preflight = 2
drone_state_to_i32 drone_armed = 3
drone_state_to_i32 drone_taking_off = 4
drone_state_to_i32 drone_in_mission = 5
drone_state_to_i32 drone_returning_home = 6
drone_state_to_i32 drone_landing = 7
drone_state_to_i32 drone_emergency = 8

abbrev pub drone_state_try_from : ℕ → Option DroneState
drone_state_try_from zero = some drone_unknown
drone_state_try_from (suc zero) = some drone_idle
drone_state_try_from (suc (suc zero)) = some drone_preflight
drone_state_try_from (suc (suc (suc zero))) = some drone_armed
drone_state_try_from (suc (suc (suc (suc zero)))) = some drone_taking_off
drone_state_try_from (suc (suc (suc (suc (suc zero))))) = some drone_in_mission
drone_state_try_from (suc (suc (suc (suc (suc (suc zero)))))) = some drone_returning_home
drone_state_try_from (suc (suc (suc (suc (suc (suc (suc zero))))))) = some drone_landing
drone_state_try_from (suc (suc (suc (suc (suc (suc (suc (suc zero)))))))) = some drone_emergency
drone_state_try_from _ = none

abbrev pub message_type_to_i32 : MessageType → ℕ
message_type_to_i32 msg_unknown = 0
message_type_to_i32 msg_telemetry = 1
message_type_to_i32 msg_command = 2
message_type_to_i32 msg_ack = 3
message_type_to_i32 msg_heartbeat = 4
message_type_to_i32 msg_sensor_data = 5

abbrev pub command_type_to_i32 : CommandType → ℕ
command_type_to_i32 cmd_unknown = 0
command_type_to_i32 cmd_mission_start = 1
command_type_to_i32 cmd_mission_abort = 2
command_type_to_i32 cmd_rth = 3
command_type_to_i32 cmd_status_request = 4
command_type_to_i32 cmd_config_update = 5
command_type_to_i32 cmd_emergency_stop = 6

abbrev pub command_type_try_from : ℕ → Option CommandType
command_type_try_from zero = some cmd_unknown
command_type_try_from (suc zero) = some cmd_mission_start
command_type_try_from (suc (suc zero)) = some cmd_mission_abort
command_type_try_from (suc (suc (suc zero))) = some cmd_rth
command_type_try_from (suc (suc (suc (suc zero)))) = some cmd_status_request
command_type_try_from (suc (suc (suc (suc (suc zero))))) = some cmd_config_update
command_type_try_from (suc (suc (suc (suc (suc (suc zero)))))) = some cmd_emergency_stop
command_type_try_from _ = none

abbrev pub ack_status_to_i32 : AckStatus → ℕ
ack_status_to_i32 ack_unknown = 0
ack_status_to_i32 ack_received = 1
ack_status_to_i32 ack_accepted = 2
ack_status_to_i32 ack_rejected = 3
ack_status_to_i32 ack_completed = 4
ack_status_to_i32 ack_failed = 5
ack_status_to_i32 ack_expired = 6

abbrev pub ack_status_try_from : ℕ → Option AckStatus
ack_status_try_from zero = some ack_unknown
ack_status_try_from (suc zero) = some ack_received
ack_status_try_from (suc (suc zero)) = some ack_accepted
ack_status_try_from (suc (suc (suc zero))) = some ack_rejected
ack_status_try_from (suc (suc (suc (suc zero)))) = some ack_completed
ack_status_try_from (suc (suc (suc (suc (suc zero))))) = some ack_failed
ack_status_try_from (suc (suc (suc (suc (suc (suc zero)))))) = some ack_expired
ack_status_try_from _ = none
