-- ===== src/Bluetooth/Discovery.antt =====
-- `BtDiscovery` of src/transport/bt_discovery.rs. An address is the number that its six bytes make;
-- an RSSI is an i16, by its two's complement.
pub mod Ranking
pub mod Found
pub mod Recognised
use res_qterra_engine.Common.{
  ℕ, ◌+◌, ◌-◌, String, Option, none, some, Bool, true, false, List, [], ◌∷◌, ◌++◌, Result, ok, err,
  ◌==◌, ltb, leb, if◌then◌else◌,
}
use res_qterra_engine.Common.Text.{starts_with}

pub record BtDiscoveryConfig : Type 0 where
  pub scan_duration : ℕ  -- in milliseconds
  pub known_relays : List ℕ
  pub name_prefix : Option String

abbrev pub default_discovery : BtDiscoveryConfig
default_discovery = record {
  scan_duration = 10000;
  known_relays = [];
  name_prefix = some "ResQTerra-Relay";
}

pub record RelayDevice : Type 0 where
  pub address : ℕ
  pub name : Option String
  pub rssi : Option ℕ

-- What bluer answers about a device: whether it is connected, its name when `is_relay_device` asks,
-- and its name and its signal when it is added to the list.
pub record Device : Type 0 where
  pub is_connected : Result String Bool
  pub checked_name : Result String (Option String)
  pub name : Result String (Option String)
  pub rssi : Result String (Option ℕ)

-- `get_adapter`: the answers to opening a session, to asking for its adapter, and to powering that.
abbrev pub get_adapter {ℓ} :
    {A : Type ℓ}
    → Result String (Unit {0})
    → Result String A
    → Result String (Unit {0})
    → Result String A
get_adapter (err e) adapter powered = err e
get_adapter (ok session) (err e) powered = err e
get_adapter (ok session) (ok adapter) (err e) = err e
get_adapter (ok session) (ok adapter) (ok done) = ok adapter

-- An event of the scan, with what `adapter.device(addr)` yields then.
pub data AdapterEvent : Type 0 where
  device_added : ℕ → Result String Device → AdapterEvent
  other_event : AdapterEvent

-- `ok().flatten()`
abbrev pub flatten {ℓ} : {A : Type ℓ} → Result String (Option A) → Option A
flatten (ok o) = o
flatten (err e) = none

abbrev pub relay_device : ℕ → Device → RelayDevice
relay_device addr device = record {
  address = addr;
  name = flatten device.name;
  rssi = flatten device.rssi;
}

abbrev pub contains : ℕ → List ℕ → Bool
contains addr [] = false
contains addr (a ∷ as') = if a == addr then true else contains addr as'

-- The relays so far, and the addresses seen.
pub record Search : Type 0 where
  pub relays : List RelayDevice
  pub seen : List ℕ

abbrev pub push_relay : Search → ℕ → Device → Search
push_relay s addr device = record {
  relays = s.relays ++ relay_device addr device ∷ [];
  seen = addr ∷ s.seen;
}

abbrev pub push_connected : Search → ℕ → Device → Result String Bool → Search
push_connected s addr device (ok true) = push_relay s addr device
push_connected s addr device _ = s

abbrev pub check_device : Search → ℕ → Result String Device → Search
check_device s addr (ok device) = push_connected s addr device device.is_connected
check_device s addr (err e) = s

-- The `for` over the known relays; `adapter` is `adapter.device`.
unfoldable pub check_known : (ℕ → Result String Device) → Search → List ℕ → Search
check_known adapter s [] = s
check_known adapter s (addr ∷ rest) = check_known adapter (check_device s addr (adapter addr)) rest

abbrev pub has_prefix : Option String → Result String (Option String) → Bool
has_prefix (some prefix) (ok (some name)) = starts_with name prefix
has_prefix _ _ = false

abbrev pub is_relay_device : BtDiscoveryConfig → ℕ → Device → Bool
is_relay_device config addr device =
    if contains addr config.known_relays
    then true
    else has_prefix config.name_prefix device.checked_name

abbrev pub push_if_relay : BtDiscoveryConfig → Search → ℕ → Result String Device → Search
push_if_relay config s addr (ok device) =
    if is_relay_device config addr device then push_relay s addr device else s
push_if_relay config s addr (err e) = s

abbrev pub scan_event : BtDiscoveryConfig → Search → AdapterEvent → Search
scan_event config s (device_added addr device) =
    if contains addr s.seen then s else push_if_relay config s addr device
scan_event config s other_event = s

-- The events that come until the time of the scan is over.
unfoldable pub scan : BtDiscoveryConfig → Search → List AdapterEvent → Search
scan config s [] = s
scan config s (e ∷ es) = scan config (scan_event config s e) es

-- Where an RSSI stands among the i16; a missing one is `i16::MIN`.
abbrev pub strength : RelayDevice → ℕ
strength d = elim d.rssi [ some n ↦ if ltb n 32768 then n + 32768 else n - 32768 | none ↦ 0 ]

-- `sort_by`, which is stable: the strongest first.
abbrev pub insert_ranked : RelayDevice → List RelayDevice → List RelayDevice
insert_ranked d [] = d ∷ []
insert_ranked d (x ∷ xs) =
    let rest = insert_ranked d xs in if leb (strength x) (strength d) then d ∷ x ∷ xs else x ∷ rest

abbrev pub rank : List RelayDevice → List RelayDevice
rank [] = []
rank (d ∷ ds) = insert_ranked d (rank ds)

abbrev pub no_search : Search
no_search = record { relays = []; seen = [] }

-- The relays in the order in which they are found.
unfoldable pub found :
    BtDiscoveryConfig → (ℕ → Result String Device) → List AdapterEvent → List RelayDevice
unfolding check_known scan
found config adapter events =
    (scan config (check_known adapter no_search config.known_relays) events).relays

-- `discover_devices` may fail; otherwise it yields the events.
unfoldable pub discover_relays :
    BtDiscoveryConfig
    → (ℕ → Result String Device)
    → Result String (List AdapterEvent)
    → Result String (List RelayDevice)
unfolding found
discover_relays config adapter (err e) = err e
discover_relays config adapter (ok events) = ok (rank (found config adapter events))

abbrev pub first_relay : Result String (List RelayDevice) → Result String RelayDevice
first_relay (err e) = err e
first_relay (ok []) = err "No relay devices found"
first_relay (ok (d ∷ ds)) = ok d

unfoldable pub find_best_relay :
    BtDiscoveryConfig
    → (ℕ → Result String Device)
    → Result String (List AdapterEvent)
    → Result String RelayDevice
unfolding discover_relays
find_best_relay config adapter events = first_relay (discover_relays config adapter events)
