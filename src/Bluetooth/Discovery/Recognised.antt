-- ===== src/Bluetooth/Discovery/Recognised.antt =====
-- src/transport/bt_discovery.rs: nothing but relays is found.
use res_qterra_engine.Common.{
  ℕ, ◌≡◌, refl, String, Bool, true, false, List, [], ◌∷◌, Result, ok, err, All, All-append, In, inl,
  inr, ◌⊎◌, arith, Bool-cases,
}
use res_qterra_engine.Bluetooth.Discovery.{
  BtDiscoveryConfig, RelayDevice, Device, AdapterEvent, device_added, other_event, Search, contains,
  relay_device, push_relay, push_connected, check_device, check_known, has_prefix, is_relay_device,
  push_if_relay, scan_event, scan, no_search, found,
}

-- A relay that is known, or that a scan reports with a name that begins with the prefix.
abbrev pub IsRecognised : BtDiscoveryConfig → List AdapterEvent → RelayDevice → Type 0
IsRecognised config events d =
    (contains d.address config.known_relays ≡ true)
    ⊎ ((device : Device) × In (device_added d.address (ok device)) events
        × (has_prefix config.name_prefix device.checked_name ≡ true))

abbrev AllRecognised : BtDiscoveryConfig → List AdapterEvent → Search → Type 0
AllRecognised config events s = All (IsRecognised config events) s.relays

push_relay-Recognised :
    (config : BtDiscoveryConfig) (events : List AdapterEvent) (s : Search) (addr : ℕ)
    (device : Device)
    → AllRecognised config events s
    → IsRecognised config events (relay_device addr device)
    → AllRecognised config events (push_relay s addr device)
push_relay-Recognised config events s addr device h r =
    All-append (IsRecognised config events) s.relays (relay_device addr device ∷ []) h (r, tt)

push_connected-Recognised :
    (config : BtDiscoveryConfig) (events : List AdapterEvent) (s : Search) (addr : ℕ)
    (device : Device) (answer : Result String Bool)
    → contains addr config.known_relays ≡ true
    → AllRecognised config events s
    → AllRecognised config events (push_connected s addr device answer)
push_connected-Recognised config events s addr device (ok true) known h =
    push_relay-Recognised config events s addr device h (inl known)
push_connected-Recognised config events s addr device (ok false) known h = h
push_connected-Recognised config events s addr device (err e) known h = h

check_device-Recognised :
    (config : BtDiscoveryConfig) (events : List AdapterEvent) (s : Search) (addr : ℕ)
    (device : Result String Device)
    → contains addr config.known_relays ≡ true
    → AllRecognised config events s
    → AllRecognised config events (check_device s addr device)
check_device-Recognised config events s addr (err e) known h = h
check_device-Recognised config events s addr (ok device) known h =
    push_connected-Recognised config events s addr device device.is_connected known h

check_known-Recognised :
    (config : BtDiscoveryConfig) (events : List AdapterEvent) (adapter : ℕ → Result String Device)
    (s : Search) (rest : List ℕ)
    → All (λ a. contains a config.known_relays ≡ true) rest
    → AllRecognised config events s
    → AllRecognised config events (check_known adapter s rest)
unfolding check_known
check_known-Recognised config events adapter s [] known h = h
check_known-Recognised config events adapter s (addr ∷ rest) known h =
    check_known-Recognised config events adapter (check_device s addr (adapter addr)) rest known.1
      (check_device-Recognised config events s addr (adapter addr) known.0 h)

-- A device that is taken for a relay.
recognised :
    (config : BtDiscoveryConfig) (events : List AdapterEvent) (addr : ℕ) (device : Device)
    → In (device_added addr (ok device)) events
    → is_relay_device config addr device ≡ true
    → IsRecognised config events (relay_device addr device)
recognised config events addr device m taken =
    elim (Bool-cases (contains addr config.known_relays)) [
      | inl known ↦ inl known
      | inr unknown ↦ inr (device, m, rw unknown at taken)
    ]

push_if_relay-Recognised :
    (config : BtDiscoveryConfig) (events : List AdapterEvent) (s : Search) (addr : ℕ)
    (device : Result String Device)
    → In (device_added addr device) events
    → AllRecognised config events s
    → AllRecognised config events (push_if_relay config s addr device)
push_if_relay-Recognised config events s addr (err e) m h = h
push_if_relay-Recognised config events s addr (ok device) m h =
    elim (Bool-cases (is_relay_device config addr device)) [
      | inl e ↦ rw e (
          push_relay-Recognised config events s addr device h
            (recognised config events addr device m e))
      | inr e ↦ rw e h
    ]

scan_event-Recognised :
    (config : BtDiscoveryConfig) (events : List AdapterEvent) (s : Search) (e : AdapterEvent)
    → In e events
    → AllRecognised config events s
    → AllRecognised config events (scan_event config s e)
scan_event-Recognised config events s other_event m h = h
scan_event-Recognised config events s (device_added addr device) m h =
    elim (Bool-cases (contains addr s.seen)) [
      | inl e ↦ rw e h
      | inr e ↦ rw e (push_if_relay-Recognised config events s addr device m h)
    ]

scan-Recognised :
    (config : BtDiscoveryConfig) (events : List AdapterEvent) (s : Search) (es : List AdapterEvent)
    → All (λ e. In e events) es
    → AllRecognised config events s
    → AllRecognised config events (scan config s es)
unfolding scan
scan-Recognised config events s [] m h = h
scan-Recognised config events s (e ∷ es) m h =
    scan-Recognised config events (scan_event config s e) es m.1
      (scan_event-Recognised config events s e m.0 h)

-- A list has its own elements.
All-mono :
    {A : Type 0} (P Q : A → Type 0) (xs : List A) → ((x : A) → P x → Q x) → All P xs → All Q xs
All-mono P Q [] f h = tt
All-mono P Q (x ∷ xs) f h = (f x h.0, All-mono P Q xs f h.1)

All-In : {A : Type 0} (xs : List A) → All (λ x. In x xs) xs
All-In [] = tt
All-In (x ∷ xs) =
    (inl refl, All-mono (λ y. In y xs) (λ y. In y (x ∷ xs)) xs (λ y m. inr m) (All-In xs))

contains-cons : (x y : ℕ) (xs : List ℕ) → contains y xs ≡ true → contains y (x ∷ xs) ≡ true
contains-cons x y xs h = ground (arith, h)

contains_self : (x : ℕ) (xs : List ℕ) → contains x (x ∷ xs) ≡ true
contains_self x xs = ground arith

All-contains : (xs : List ℕ) → All (λ a. contains a xs ≡ true) xs
All-contains [] = tt
All-contains (x ∷ xs) = (
  contains_self x xs,
  All-mono (λ a. contains a xs ≡ true) (λ a. contains a (x ∷ xs) ≡ true) xs
      (λ a h. contains-cons x a xs h) (All-contains xs),
)

-- Every relay found is one of the configuration, or a device that the scan reported and whose name
-- began with the prefix of the configuration when it was checked.
pub found-Recognised :
    (config : BtDiscoveryConfig) (adapter : ℕ → Result String Device) (events : List AdapterEvent)
    → All (IsRecognised config events) (found config adapter events)
unfolding found
found-Recognised config adapter events =
    scan-Recognised config events (check_known adapter no_search config.known_relays) events
      (All-In events)
      (check_known-Recognised config events adapter no_search config.known_relays
        (All-contains config.known_relays) tt)
