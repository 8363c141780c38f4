-- ===== src/Mavlink.antt =====
-- src/mavlink/: the link to the flight controller. `Messages` has the messages of the mavlink crate
-- as the code builds and reads them, `Link` is connection.rs, `Commands` is commands.rs and
-- `Telemetry` is telemetry.rs.
pub mod Floats
pub mod Messages
pub mod Link
pub mod Outbox
pub mod Commands
pub mod Telemetry
mod Tests
mod UnitTests
