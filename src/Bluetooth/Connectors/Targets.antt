-- ===== src/Bluetooth/Connectors/Targets.antt =====
-- src/transport/rfcomm.rs: the edge connects to no device but a relay.
use res_qterra_engine.Common.{
  ℕ, ◌≡◌, refl, sym, ap, ◌∙◌, subst, String, Option, none, some, List, In, ◌⊎◌, inl, inr, Result,
  ok, err, arith,
}
use res_qterra_engine.Bluetooth.Discovery.{
  BtDiscoveryConfig, RelayDevice, Device, AdapterEvent, found, find_best_relay,
}
use res_qterra_engine.Bluetooth.Discovery.Ranking.{IsBest, NoneStronger, find_best_relay-IsBest}
use res_qterra_engine.Bluetooth.Connectors.{
  RfcommConnector, Radio, connect, scan_for_relay, target_address, address_of, open_target,
}

Result-cases : (r : Result String (Unit {0})) → (r ≡ ok tt) ⊎ ((e : String) × (r ≡ err e))
Result-cases (ok done) = inl refl
Result-cases (err e) = inr (e, refl)

-- A relay that a scan with the adapter found, none of them stronger.
abbrev pub FoundBest : BtDiscoveryConfig → Radio → ℕ → Type 0
FoundBest discovery radio a =
    (adapter : ℕ → Result String Device) × (events : List AdapterEvent) × (d : RelayDevice)
    × (radio.adapter ≡ ok adapter)
    × (radio.events ≡ ok events)
    × (d.address ≡ a)
    × In d (found discovery adapter events)
    × NoneStronger d (found discovery adapter events)

-- Why a connector may connect to an address.
abbrev pub IsTarget : Option ℕ → Option RelayDevice → BtDiscoveryConfig → Radio → ℕ → Type 0
IsTarget (some addr) cached discovery radio a = a ≡ addr
IsTarget none (some relay) discovery radio a = a ≡ relay.address
IsTarget none none discovery radio a = FoundBest discovery radio a

best_of_scan :
    (discovery : BtDiscoveryConfig) (adapter : Result String (ℕ → Result String Device))
    (events : Result String (List AdapterEvent)) (opens : ℕ → ℕ → Result String (Unit {0}))
    (d : RelayDevice)
    → let radio : Radio = record { adapter = adapter; events = events; opens = opens } in
      scan_for_relay discovery radio ≡ ok d
      → FoundBest discovery (record { adapter = adapter; events = events; opens = opens }) d.address
unfolding find_best_relay
best_of_scan discovery (ok adapter) (ok events) opens d h =
    let best =
      subst (IsBest (found discovery adapter events)) h
        (find_best_relay-IsBest discovery adapter events) in
    (adapter, events, d, refl, refl, refl, best.0, best.1)
best_of_scan discovery (ok adapter) (err e) opens d h = absurd (ground (arith, h))
best_of_scan discovery (err e) events opens d h = absurd (ground (arith, h))

scanned_target :
    (discovery : BtDiscoveryConfig) (radio : Radio) (r : Result String RelayDevice) (a : ℕ)
    → scan_for_relay discovery radio ≡ r
    → address_of r ≡ ok a
    → FoundBest discovery radio a
scanned_target discovery radio (ok d) a scanned h =
    subst (FoundBest discovery radio) (ground (arith, h))
      (best_of_scan discovery radio.adapter radio.events radio.opens d scanned)
scanned_target discovery radio (err e) a scanned h = absurd (ground (arith, h))

target_address-IsTarget :
    (addr : Option ℕ) (cached : Option RelayDevice) (discovery : BtDiscoveryConfig) (radio : Radio)
    (a : ℕ)
    → target_address addr cached discovery radio ≡ ok a
    → IsTarget addr cached discovery radio a
target_address-IsTarget (some addr) cached discovery radio a h = ground (arith, h)
target_address-IsTarget none (some relay) discovery radio a h = ground (arith, h)
target_address-IsTarget none none discovery radio a h =
    scanned_target discovery radio (scan_for_relay discovery radio) a refl h

opened-target :
    (channel : ℕ) (radio : Radio) (r : Result String ℕ) (a : ℕ)
    → open_target channel radio r ≡ ok a
    → (r ≡ ok a) × (radio.opens a channel ≡ ok tt)
opened-target channel radio (ok addr) a h = elim (Result-cases (radio.opens addr channel)) [
  | inl e ↦
      let same : addr ≡ a = ground (arith, h, e) in
      (ap ok same, ap (λ x. radio.opens x channel) (sym same) ∙ e)
  | inr (x, e) ↦ absurd (ground (arith, h, e))
]
opened-target channel radio (err e) a h = absurd (ground (arith, h))

-- A connector that connects has opened a socket on its channel to the configured address; or, where
-- none is configured, to the relay that a discovery cached; or, where there is none either, to the
-- strongest of the relays that a scan found.
pub connect-IsTarget :
    (c : RfcommConnector) (radio : Radio) (a : ℕ)
    → connect c radio ≡ ok a
    → IsTarget c.config.relay_address c.cached_relay c.config.discovery radio a
      × (radio.opens a c.config.channel ≡ ok tt)
unfolding connect
connect-IsTarget c radio a h =
    let target = target_address c.config.relay_address c.cached_relay c.config.discovery radio in
    let opened = opened-target c.config.channel radio target a h in
    (
      target_address-IsTarget c.config.relay_address c.cached_relay c.config.discovery radio a
          opened.0,
      opened.1,
    )
