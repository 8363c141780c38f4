-- ===== src/Proto/Messages.antt =====
-- The message types of shared/proto/resqterra.proto, field by field.
use res_qterra_engine.Common.{ℕ, String, Option, Bool, List}

pub record Header : Type 0 where
  pub device_id : String
  pub sequence_id : ℕ  -- uint64
  pub timestamp_ms : ℕ  -- uint64
  pub msg_type : ℕ  -- MessageType

pub record GpsPosition : Type 0 where
  pub latitude : ℕ  -- double
  pub longitude : ℕ  -- double
  pub altitude_m : ℕ  -- float
  pub heading_deg : ℕ  -- float
  pub ground_speed_mps : ℕ  -- float
  pub satellites : ℕ  -- uint32
  pub hdop : ℕ  -- float

pub record BatteryStatus : Type 0 where
  pub voltage : ℕ  -- float
  pub current : ℕ  -- float
  pub remaining_percent : ℕ  -- uint32
  pub remaining_seconds : ℕ  -- uint32

pub record FlightControllerStatus : Type 0 where
  pub armed : Bool
  pub gps_lock : Bool
  pub mode : String
  pub error_count : ℕ  -- uint32
  pub active_faults : List String

pub record ConnectionQuality : Type 0 where
  pub active_transport : ℕ  -- Transport
  pub rssi_dbm : ℕ  -- int32
  pub latency_ms : ℕ  -- uint32
  pub packet_loss_percent : ℕ  -- float

pub record Telemetry : Type 0 where
  pub position : Option GpsPosition
  pub battery : Option BatteryStatus
  pub state : ℕ  -- DroneState
  pub fc_status : Option FlightControllerStatus
  pub uptime_seconds : ℕ  -- uint64
  pub conn_quality : Option ConnectionQuality

pub record GpsCoordinate : Type 0 where
  pub latitude : ℕ  -- double
  pub longitude : ℕ  -- double
  pub altitude_m : ℕ  -- float

pub record SurveyArea : Type 0 where
  pub boundary : List GpsCoordinate
  pub home_position : Option GpsCoordinate

pub record SensorConfig : Type 0 where
  pub sensor_type : String
  pub sample_rate_hz : ℕ  -- uint32
  pub params : List (String × String)

pub record MissionStart : Type 0 where
  pub mission_id : String
  pub survey_area : Option SurveyArea
  pub scan_pattern : ℕ  -- ScanPattern
  pub altitude_m : ℕ  -- float
  pub speed_mps : ℕ  -- float
  pub sensors : List SensorConfig

pub record MissionAbort : Type 0 where
  pub reason : String
  pub action : ℕ  -- AbortAction

pub record ReturnToHome : Type 0 where
  pub altitude_m : ℕ  -- float
  pub speed_mps : ℕ  -- float

pub record StatusRequest : Type 0 where
  pub requested_fields : List String

pub record ConfigUpdate : Type 0 where
  pub config : List (String × String)

-- The `oneof params` of a command.
pub data Params : Type 0 where
  mission_start : MissionStart → Params
  mission_abort : MissionAbort → Params
  rth : ReturnToHome → Params
  status_request : StatusRequest → Params
  config_update : ConfigUpdate → Params
  emergency_stop : Params

pub record Command : Type 0 where
  pub command_id : ℕ  -- uint64
  pub cmd_type : ℕ  -- CommandType
  pub expires_at_ms : ℕ  -- uint64
  pub priority : ℕ  -- uint32
  pub params : Option Params

pub record Ack : Type 0 where
  pub ack_sequence_id : ℕ  -- uint64
  pub command_id : ℕ  -- uint64
  pub status : ℕ  -- AckStatus
  pub message : String
  pub processing_time_ms : ℕ  -- uint64

pub record Heartbeat : Type 0 where
  pub uptime_ms : ℕ  -- uint64
  pub state : ℕ  -- DroneState
  pub pending_commands : ℕ  -- uint32
  pub healthy : Bool

pub record SensorData : Type 0 where
  pub sensor_type : String
  pub mission_id : String
  pub capture_timestamp_ms : ℕ  -- uint64
  pub capture_position : Option GpsPosition
  pub payload_bytes : List ℕ  -- the field `data`
  pub format : String
  pub chunk_index : ℕ  -- uint32
  pub total_chunks : ℕ  -- uint32

-- The `oneof payload` of an envelope.
pub data Payload : Type 0 where
  telemetry : Telemetry → Payload
  command : Command → Payload
  ack : Ack → Payload
  heartbeat : Heartbeat → Payload
  sensor_data : SensorData → Payload

pub record Envelope : Type 0 where
  pub header : Option Header
  pub payload : Option Payload
