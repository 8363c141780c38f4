-- ===== src/Connection.antt =====
-- src/connection/manager.rs: the edge's connection to the server. A `Duration` is a number of
-- milliseconds. What the network answers to each call is an argument.
pub mod Active
pub mod Halves
pub mod Loop
pub mod Manager
pub mod Beats
mod Tests
use res_qterra_engine.Common.{ℕ, String, Option, none, some}
use res_qterra_engine.Proto.{Envelope}

pub data Transport : Type 0 where
  five_g bluetooth : Transport

-- `Display`.
abbrev pub show_transport : Transport → String
show_transport five_g = "5G"
show_transport bluetooth = "Bluetooth"

pub data BluetoothMode : Type 0 where
  rfcomm tcp_simulation : BluetoothMode

pub record BluetoothConfig : Type 0 where
  pub mode : BluetoothMode
  pub relay_address : Option String
  pub channel : ℕ  -- u8
  pub tcp_address : String

abbrev pub default_bluetooth : BluetoothConfig
default_bluetooth = record {
  mode = tcp_simulation;
  relay_address = none;
  channel = 1;
  tcp_address = "127.0.0.1:9000";
}

pub record ConnectionConfig : Type 0 where
  pub device_id : String
  pub server_5g : String
  pub bluetooth_config : BluetoothConfig  -- the field `bluetooth`
  pub reconnect_delay : ℕ
  pub max_reconnect_delay : ℕ
  pub connect_timeout : ℕ
  pub read_timeout : ℕ

abbrev pub default_config : ConnectionConfig
default_config = record {
  device_id = "edge-001";
  server_5g = "127.0.0.1:8080";
  bluetooth_config = default_bluetooth;
  reconnect_delay = 1000;
  max_reconnect_delay = 30000;
  connect_timeout = 5000;
  read_timeout = 15000;
}

pub data ConnectionEvent : Type 0 where
  connected : Transport → ConnectionEvent
  disconnected : String → ConnectionEvent
  received : Envelope → ConnectionEvent
  connection_failed : String → ConnectionEvent
  transport_switched : Transport → Transport → ConnectionEvent
