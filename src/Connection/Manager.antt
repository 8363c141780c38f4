-- ===== src/Connection/Manager.antt =====
-- The methods of `ConnectionManager` in src/connection/manager.rs, over its two channels, and
-- `connect_bluetooth`. A channel is the list of what is in it, oldest first, and whether its other
-- end lives; a send that waits for room is a send that comes later.
pub mod Streams
use res_qterra_engine.Common.{
  ℕ, zero, suc, ◌+◌, ◌%◌, ◌^◌, ◌≤◌, ◌<◌, ◌≡◌, refl, String, Option, none, some, Bool, true, List,
  [], ◌∷◌, ◌++◌, Result, ok, err, if◌then◌else◌, arith, ap, sym, ◌∙◌, append_assoc,
}
use res_qterra_engine.Common.Text.{◌<>◌}
use res_qterra_engine.Proto.{Envelope}
use res_qterra_engine.Connection.{
  ConnectionConfig, ConnectionEvent, BluetoothConfig, BluetoothMode, rfcomm, tcp_simulation,
}
use res_qterra_engine.Connection.Halves.{ConnectionStream}

pub record ConnectionManager : Type 0 where
  pub config : ConnectionConfig
  pub sequence_id : ℕ  -- u64
  pub outbound : List Envelope
  pub loop_alive : Bool
  pub events : List ConnectionEvent

abbrev pub new_manager : ConnectionConfig → ConnectionManager
new_manager config = record {
  config = config;
  sequence_id = 0;
  outbound = [];
  loop_alive = true;
  events = [];
}

abbrev pub next_sequence_id : ConnectionManager → ConnectionManager × ℕ
next_sequence_id m = let seq = (m.sequence_id + 1) % 2 ^ 64 in (record m { sequence_id = seq }, seq)

abbrev pub send : ConnectionManager → Envelope → ConnectionManager × Result String (Unit {0})
send m envelope =
    if m.loop_alive
    then (record m { outbound = m.outbound ++ envelope ∷ [] }, ok tt)
    else (m, err "Connection closed")

-- What `recv` comes to: an event, `None` when the loop is gone, or it still waits.
pub data Received : Type 0 where
  got : ConnectionEvent → Received
  closed : Received
  waiting : Received

abbrev pub recv : ConnectionManager → ConnectionManager × Received
recv m = elim m.events [
  | e ∷ es ↦ (record m { events = es }, got e)
  | [] ↦ (m, if m.loop_alive then waiting else closed)
]

abbrev pub device_id : ConnectionManager → String
device_id m = m.config.device_id

-- The streams by what they are connected to: an address, or an address and a channel.
abbrev pub OpenedStream : Type 0
OpenedStream = ConnectionStream String (ℕ × ℕ)

abbrev pub tcp_stream : String → OpenedStream
tcp_stream address = ConnectionStream.tcp address

abbrev pub rfcomm_stream : ℕ → ℕ → OpenedStream
rfcomm_stream addr channel = ConnectionStream.rfcomm (addr, channel)

-- What the network answers, and how bluer reads an address.
pub record Network : Type 0 where
  pub parse : String → Option ℕ
  pub tcp_opens : String → Result String (Unit {0})
  pub rfcomm_opens : ℕ → ℕ → Result String (Unit {0})

abbrev pub opened_tcp : String → Result String (Unit {0}) → Result String OpenedStream
opened_tcp address (ok done) = ok (tcp_stream address)
opened_tcp address (err e) = err e

abbrev pub opened_rfcomm : ℕ → ℕ → Result String (Unit {0}) → Result String OpenedStream
opened_rfcomm addr channel (ok done) = ok (rfcomm_stream addr channel)
opened_rfcomm addr channel (err e) = err ("RFCOMM connect failed: " <> e)

abbrev pub connect_parsed : Network → ℕ → String → Option ℕ → Result String OpenedStream
connect_parsed net channel text (some addr) =
    opened_rfcomm addr channel (net.rfcomm_opens addr channel)
connect_parsed net channel text none = err ("Invalid Bluetooth address: " <> text)

abbrev pub connect_rfcomm : Network → ℕ → Option String → Result String OpenedStream
connect_rfcomm net channel (some text) = connect_parsed net channel text (net.parse text)
connect_rfcomm net channel none = err "No relay address configured for RFCOMM mode"

abbrev pub connect_in : Network → BluetoothConfig → BluetoothMode → Result String OpenedStream
connect_in net config tcp_simulation =
    opened_tcp config.tcp_address (net.tcp_opens config.tcp_address)
connect_in net config rfcomm = connect_rfcomm net config.channel config.relay_address

unfoldable pub connect_bluetooth : Network → BluetoothConfig → Result String OpenedStream
connect_bluetooth net config = connect_in net config config.mode
