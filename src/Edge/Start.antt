-- ===== src/Edge/Start.antt =====
-- src/main.rs: what `main` makes before its loop begins.
use res_qterra_engine.Common.{ℕ, ◌≡◌, refl, []}
use res_qterra_engine.Connection.{ConnectionConfig, default_config}
use res_qterra_engine.Connection.Manager.{ConnectionManager, new_manager}
use res_qterra_engine.Executor.{new_executor}
use res_qterra_engine.Monitor.{new_monitor}
use res_qterra_engine.Mavlink.Commands.{MavCommandSender, new_sender}
use res_qterra_engine.Mavlink.Link.{FcConfig, default_fc_config, udp, FcLink, new_link}
use res_qterra_engine.Mavlink.Telemetry.{TelemetryReader, new_reader}
use res_qterra_engine.Edge.{Edge, started, new_edge}

pub record Parts : Type 0 where
  pub conn : ConnectionManager
  pub edge : Edge
  pub fc_config : FcConfig
  pub flight_controller : FcLink
  pub mav_cmd_sender : MavCommandSender
  pub telemetry_reader : TelemetryReader

abbrev edge_config : ConnectionConfig
edge_config = record default_config { device_id = "edge-001"; server_5g = "127.0.0.1:8080" }

-- SITL.
abbrev sitl_config : FcConfig
sitl_config = record default_fc_config { connection = udp "127.0.0.1:14550" }

-- At the reading `now` of the clock for the telemetry reader.
unfoldable pub main : ℕ → Parts
unfolding new_executor new_monitor
main now = record {
  conn = new_manager edge_config;
  edge = record {
    cmd_executor = new_executor edge_config.device_id 1000;
    safety_monitor = started new_monitor;
    outbound = [];
  };
  fc_config = sitl_config;
  flight_controller = new_link;
  mav_cmd_sender = new_sender sitl_config.target_system sitl_config.target_component;
  telemetry_reader = new_reader now;
}

-- The loop begins with the edge that the theorems start from.
main-new_edge : (now : ℕ) → (main now).edge ≡ new_edge
unfolding main new_edge
main-new_edge now = refl
