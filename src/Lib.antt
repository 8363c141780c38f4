-- ===== src/Lib.antt =====
-- ResQTerra Engine: the software of a rescue drone (`edge`, in src/), of the server that flies it
-- (server/), and what the two share (shared/).
--
-- The parts and how they work together. The edge keeps a connection to the server, over which both
-- send length-prefixed protobuf envelopes. On the edge a safety state machine follows the flight;
-- the safety monitor owns it, feeds it the heartbeats of the server, the battery and the events of
-- the flight, checks it every second, and reports what it does over a channel. The command executor
-- answers each command of the server with one ACK. On the server the session table knows the
-- connected drones, the command dispatcher sends commands and tracks them until they are answered,
-- and the timeout tracker goes over the tracked commands every second. Between edge and server may
-- stand a relay (relay-node/), which forwards the bytes of each connection both ways. The edge also
-- keeps a link to the flight controller, whose messages a telemetry reader follows.
--
-- The files, each with child modules for what is proved of it and a module Tests for runs and for
-- the theorems at concrete inputs:
--   Common        lists, dictionaries, keys, results and text for all the others
--   Proto         shared/proto/resqterra.proto and shared/src/lib.rs: messages, enumerations,
--                 constants, builders (`Header::new`, `Ack::received` and so on)
--   Codec         shared/src/codec.rs: `encode`, `encode_into`, `decode`, `FrameDecoder`,
--                 `FrameEncoder`, and the read loop of src/connection/manager.rs over chunks
--   StateMachine  shared/src/state_machine.rs: `SafetyStateMachine` and `is_valid_transition`
--   Monitor       src/safety/monitor.rs: `SafetyMonitor` and its monitoring task
--   Executor      src/command/executor.rs and src/command/handlers/: `CommandExecutor::execute`
--   Sessions      server/src/session/: `SessionManager`, `SessionHandle`, `DroneInfo`, `DroneSession`
--   Dispatcher    server/src/command/dispatcher.rs: `CommandDispatcher`
--   Timeouts      server/src/command/timeout.rs: one round of `TimeoutTracker::run`, and many
--   Connection    src/connection/manager.rs: `connection_loop` (Loop), `handle_connection` (Active), over
--                 the halves of a `ConnectionStream` (Halves), and `ConnectionManager` (Manager)
--   Edge          src/main.rs: `handle_server_message` and the main loop
--   Server        server/src/main.rs: `handle_envelope`, `heartbeat_monitor`, `handle_drone_session`
--                 (Session), and `main` with all tasks (Main)
--   Mavlink       src/mavlink/: `connection_loop` and `handle_connection` of the link to the flight
--                 controller (Link), `MavCommandSender` (Commands), `TelemetryReader` (Telemetry)
--   Bluetooth     src/transport/: `BtDiscovery` (Discovery), `RfcommConnector` and `TcpConnector`
--                 (Connectors), the stream wrappers (Wrappers), and the one-off sends (Oneshot)
--   Relay         relay-node/src/main.rs: `RelayConfig` (Config), the handlers (Forward), and `main`
--                 and `run_rfcomm_listener` with their tasks (Node)
--   System        the edge and the server together: a command and its answer, and the way of the
--                 messages of the edge through the relay to the server's tables (Path)
--
-- How the code is read. A struct is a record and an enum a data type with the same names; a method
-- on `&mut self`, or on `&self` behind a lock or an atomic, takes the record and returns the new
-- one with its result. A map is an association list with each key once, whose order stands for the
-- unspecified order of iteration. Numbers are natural numbers; where the code adds in u32 or u64 the
-- result is taken modulo 2 ^ 32 or 2 ^ 64, and `saturating_sub` is subtraction that stops at 0.
-- `now_ms()` and `Instant::now()` are arguments, one for each call; where a loop reads the clock
-- once for each element, the readings are a function of its key. Locks make the methods atomic,
-- except where the code gives a lock up in the middle: there the parts are definitions of their own
-- (`check_dead_sessions` and `remove_all`, `auto_transition` and `send_auto`, `set_battery` and the
-- event after it, and the steps of `connection_loop` in Mavlink/Link). Text that is only
-- printed is left out; `{:?}` of a state is `debug_state`.
--
-- Parameters. The serialiser of prost is a record `Prost`; what the codec relies on is `IsProst`
-- (a wire form of the announced length, appended by encode, and read back by decode if the message
-- is valid, its fields in the ranges of their types). Whether a write on a connection succeeds is a
-- function of the connection.
--
-- Fuel. `drain_from` is the only loop on fuel: each round that goes on consumes at least the four
-- bytes of a prefix, so the length of the buffer is enough; `Drains` of Codec/Chunks is the loop without
-- fuel, as the data type of its finite runs.
--
-- Floating point is a record `Floats` of operations on bit patterns, of which nothing is assumed, and
-- `String::from_utf8_lossy` is a function. What bluer and the mavlink crate answer is an argument.
--
-- Sockets are parameters too: `Socket` of Connection/Halves and `TransportStream` of Bluetooth/Wrappers
-- are records of what tokio and bluer offer. A task is a step for each thing that it waits for, and
-- the runs of a program (Relay/Node, Server/Main, Monitor/Interleaving) are lists of such steps in any
-- order.
--
-- The modules UnitTests are the unit tests of the repository, run on the model.
--
-- Not modelled: the sockets and channels of tokio, bluer and the mavlink crate themselves, wakers and
-- pinning, and what is printed.
pub mod Common
pub mod Proto
pub mod Codec
pub mod StateMachine
pub mod Monitor
pub mod Executor
pub mod Sessions
pub mod Dispatcher
pub mod Timeouts
pub mod Connection
pub mod Edge
pub mod Server
pub mod Mavlink
pub mod Bluetooth
pub mod Relay
pub mod System
