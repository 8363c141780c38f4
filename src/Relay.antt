-- ===== src/Relay.antt =====
-- relay-node/src/main.rs: the relay between edge devices and the server.
pub mod Config
pub mod Forward
pub mod Streams
pub mod Through
pub mod Messages
pub mod Node
pub mod Isolation
mod Tests
