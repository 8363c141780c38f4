-- ===== src/Bluetooth/Tests.antt =====
-- The discovery of relays at concrete inputs.
use res_qterra_engine.Common.{
  ℕ, ◌≡◌, refl, String, none, some, true, false, List, [], ◌∷◌, Result, ok, err, ◌==◌,
  if◌then◌else◌,
}
use res_qterra_engine.Bluetooth.Discovery.{
  BtDiscoveryConfig, Device, AdapterEvent, device_added, other_event, found, discover_relays,
  find_best_relay, relay_device,
}
use res_qterra_engine.Bluetooth.Discovery.Ranking.{IsBest, find_best_relay-IsBest}
use res_qterra_engine.Bluetooth.Connectors.{
  RfcommConnector, Radio, connect, discover_relay, new_connector, default_rfcomm,
}
use res_qterra_engine.Bluetooth.Connectors.Targets.{IsTarget, connect-IsTarget}

-- A known relay with a weak signal (-80 dBm), and three devices in reach.
abbrev looking : BtDiscoveryConfig
looking = record {
  scan_duration = 10000;
  known_relays = 7 ∷ [];
  name_prefix = some "ResQTerra-Relay";
}

abbrev known_device : Device
known_device = record {
  is_connected = ok true;
  checked_name = err "busy";
  name = ok none;
  rssi = ok (some 65456);
}

abbrev near : Device
near = record {
  is_connected = ok false;
  checked_name = ok (some "ResQTerra-Relay-2");
  name = ok (some "ResQTerra-Relay-2");
  rssi = ok (some 65496);
}

abbrev headphones : Device
headphones = record {
  is_connected = ok true;
  checked_name = ok (some "Headphones");
  name = ok (some "Headphones");
  rssi = ok (some 65526);
}

abbrev in_reach : ℕ → Result String Device
in_reach a = if a == 7 then ok known_device else err "no such device"

abbrev reported : List AdapterEvent
reported =
    device_added 7 (ok known_device)
    ∷ device_added 8 (ok headphones)
    ∷ other_event
    ∷ device_added 9 (ok near)
    ∷ device_added 9 (ok near)
    ∷ []

discovered :
    discover_relays looking in_reach (ok reported)
    ≡ ok (relay_device 9 near ∷ relay_device 7 known_device ∷ [])
unfolding discover_relays
discovered = refl

-- A relay that the configuration names twice is found twice.
twice :
    found (record looking { known_relays = 7 ∷ 7 ∷ [] }) in_reach []
    ≡ relay_device 7 known_device ∷ relay_device 7 known_device ∷ []
unfolding found
twice = refl

find_best_relay-IsBest_example :
    IsBest (found looking in_reach reported) (find_best_relay looking in_reach (ok reported))
find_best_relay-IsBest_example = find_best_relay-IsBest looking in_reach reported

abbrev connector : RfcommConnector
connector = new_connector (record default_rfcomm { discovery = looking })

abbrev radio : Radio
radio = record { adapter = ok in_reach; events = ok reported; opens = λ a c. ok tt }

abbrev silent : Radio
silent = record { adapter = err "off"; events = ok []; opens = λ a c. ok tt }

connect-IsTarget_example : IsTarget none none looking radio 9 × (radio.opens 9 1 ≡ ok tt)
unfolding connect find_best_relay
connect-IsTarget_example = connect-IsTarget connector radio 9 refl

-- After a discovery the relay is connected to with no scan.
connect_cached : connect (discover_relay connector radio).0 silent ≡ ok 9
unfolding connect discover_relay find_best_relay
connect_cached = refl
