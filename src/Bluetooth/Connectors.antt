-- ===== src/Bluetooth/Connectors.antt =====
-- The connectors of src/transport/rfcomm.rs and src/transport/tcp.rs: to which address they connect.
pub mod Targets
use res_qterra_engine.Common.{ℕ, String, Option, none, some, List, Result, ok, err}
use res_qterra_engine.Bluetooth.Wrappers.{
  TransportConnector, TcpTransportStream, new_tcp, RfcommTransportStream, new_rfcomm,
}
use res_qterra_engine.Common.Text.{◌<>◌}
use res_qterra_engine.Bluetooth.Discovery.{
  BtDiscoveryConfig, default_discovery, RelayDevice, Device, AdapterEvent, find_best_relay,
}

abbrev pub default_rfcomm_channel : ℕ
default_rfcomm_channel = 1

pub record RfcommConfig : Type 0 where
  pub relay_address : Option ℕ
  pub channel : ℕ  -- u8
  pub discovery : BtDiscoveryConfig

abbrev pub default_rfcomm : RfcommConfig
default_rfcomm = record {
  relay_address = none;
  channel = default_rfcomm_channel;
  discovery = default_discovery;
}

pub record RfcommConnector : Type 0 where
  pub config : RfcommConfig
  pub cached_relay : Option RelayDevice

abbrev pub new_connector : RfcommConfig → RfcommConnector
new_connector config = record { config = config; cached_relay = none }

abbrev pub with_address : ℕ → ℕ → RfcommConnector
with_address address channel = record {
  config = record default_rfcomm { relay_address = some address; channel = channel };
  cached_relay = none;
}

-- What the Bluetooth stack does during a call: the adapter, if there is one, the events of a scan,
-- and whether a socket to an address and a channel opens.
pub record Radio : Type 0 where
  pub adapter : Result String (ℕ → Result String Device)
  pub events : Result String (List AdapterEvent)
  pub opens : ℕ → ℕ → Result String (Unit {0})

-- `get_adapter().await?`, and the best relay that a scan with it finds.
abbrev pub scan_for_relay : BtDiscoveryConfig → Radio → Result String RelayDevice
scan_for_relay discovery radio = elim radio.adapter [
  | ok adapter ↦ find_best_relay discovery adapter radio.events
  | err e ↦ err e
]

abbrev pub keep_relay :
    RfcommConnector → Result String RelayDevice → RfcommConnector × Result String RelayDevice
keep_relay c (ok relay) = (record c { cached_relay = some relay }, ok relay)
keep_relay c (err e) = (c, err e)

unfoldable pub discover_relay :
    RfcommConnector → Radio → RfcommConnector × Result String RelayDevice
discover_relay c radio = keep_relay c (scan_for_relay c.config.discovery radio)

abbrev pub address_of : Result String RelayDevice → Result String ℕ
address_of (ok relay) = ok relay.address
address_of (err e) = err e

-- The configured address, else the cached one, else that of a relay that a scan finds.
abbrev pub target_address :
    Option ℕ → Option RelayDevice → BtDiscoveryConfig → Radio → Result String ℕ
target_address (some addr) cached discovery radio = ok addr
target_address none (some relay) discovery radio = ok relay.address
target_address none none discovery radio = address_of (scan_for_relay discovery radio)

abbrev pub opened_at : ℕ → Result String (Unit {0}) → Result String ℕ
opened_at addr (ok done) = ok addr
opened_at addr (err e) = err ("RFCOMM connect failed: " <> e)

abbrev pub open_target : ℕ → Radio → Result String ℕ → Result String ℕ
open_target channel radio (ok addr) = opened_at addr (radio.opens addr channel)
open_target channel radio (err e) = err e

-- `connect`: the address of the peer of the stream that opens.
unfoldable pub connect : RfcommConnector → Radio → Result String ℕ
connect c radio =
    open_target c.config.channel radio
      (target_address c.config.relay_address c.cached_relay c.config.discovery radio)

pub record TcpConnector : Type 0 where
  pub address : String
  pub name : String

abbrev pub new_5g : String → TcpConnector
new_5g address = record { address = address; name = "5G" }

abbrev pub new_relay : String → TcpConnector
new_relay address = record { address = address; name = "Relay" }

abbrev pub wrapped_tcp : {S : Type 0} → Result String S → Result String (TcpTransportStream S)
wrapped_tcp (ok stream) = ok (new_tcp stream)
wrapped_tcp (err e) = err e

-- `TcpStream::connect` answers with a socket or an error.
abbrev pub tcp_connector :
    {S : Type 0}
    → (String → Result String S)
    → TransportConnector TcpConnector (TcpTransportStream S)
tcp_connector opens = record { connect = λ c. wrapped_tcp (opens c.address); name = λ c. c.name }

abbrev pub wrapped_rfcomm :
    {S : Type 0} → (ℕ → ℕ → S) → ℕ → Result String ℕ → Result String (RfcommTransportStream S)
wrapped_rfcomm socket channel (ok addr) = ok (new_rfcomm (socket addr channel) addr)
wrapped_rfcomm socket channel (err e) = err e

-- `socket` is the stream to an address and a channel, where it opens.
abbrev pub rfcomm_connector :
    {S : Type 0}
    → (ℕ → ℕ → S)
    → Radio
    → TransportConnector RfcommConnector (RfcommTransportStream S)
unfolding connect
rfcomm_connector socket radio = record {
  connect = λ c. wrapped_rfcomm socket c.config.channel (connect c radio);
  name = λ c. "Bluetooth";
}
