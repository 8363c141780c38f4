-- ===== src/Bluetooth.antt =====
-- src/transport/: how the edge finds a relay over Bluetooth (`Discovery`), and the connectors of its
-- transports (`Connectors`).
pub mod Discovery
pub mod Connectors
pub mod Wrappers
pub mod Oneshot
mod Tests
mod UnitTests
