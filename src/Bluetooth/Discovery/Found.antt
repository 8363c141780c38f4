-- ===== src/Bluetooth/Discovery/Found.antt =====
-- src/transport/bt_discovery.rs: no relay is found twice, and nothing but relays is found.
use res_qterra_engine.Common.{
  ℕ, suc, ◌+◌, ◌≤◌, ◌≡◌, String, Bool, true, false, List, [], ◌∷◌, ◌++◌, Result, ok, err, ◌==◌,
  ==_iff, inl, inr, arith, Bool-cases, if◌then◌else◌,
}
use res_qterra_engine.Bluetooth.Discovery.{
  BtDiscoveryConfig, RelayDevice, Device, AdapterEvent, device_added, other_event, Search, contains,
  relay_device, push_relay, push_connected, check_device, check_known, is_relay_device,
  push_if_relay, scan, no_search, found,
}

-- How often an address is among some relays, and among some addresses.
abbrev pub times : ℕ → List RelayDevice → ℕ
times a [] = 0
times a (d ∷ ds) = if d.address == a then suc (times a ds) else times a ds

abbrev pub occurs : ℕ → List ℕ → ℕ
occurs a [] = 0
occurs a (x ∷ xs) = if x == a then suc (occurs a xs) else occurs a xs

times-append :
    (a : ℕ) (ds : List RelayDevice) (d : RelayDevice)
    → times a (ds ++ d ∷ []) ≡ times a ds + (if d.address == a then 1 else 0)
times-append a [] d = ground arith
times-append a (x ∷ ds) d = ground (arith, times-append a ds d)

-- An address that has not been seen is not among the relays, and no address is there twice.
abbrev Once : ℕ → Search → Type 0
Once a s = times a s.relays ≤ (if contains a s.seen then 1 else 0)

push_relay-Once :
    (a addr : ℕ) (s : Search) (device : Device)
    → contains addr s.seen ≡ false
    → Once a s
    → Once a (push_relay s addr device)
push_relay-Once a addr s device unseen h =
    ground (arith, times-append a s.relays (relay_device addr device), ==_iff addr a)

push_if_relay-Once :
    (config : BtDiscoveryConfig) (a addr : ℕ) (s : Search) (device : Result String Device)
    → contains addr s.seen ≡ false
    → Once a s
    → Once a (push_if_relay config s addr device)
push_if_relay-Once config a addr s (err e) unseen h = h
push_if_relay-Once config a addr s (ok device) unseen h =
    elim (Bool-cases (is_relay_device config addr device)) [
      | inl e ↦ rw e (push_relay-Once a addr s device unseen h)
      | inr e ↦ rw e h
    ]

scan-Once :
    (config : BtDiscoveryConfig) (a : ℕ) (s : Search) (es : List AdapterEvent)
    → Once a s
    → Once a (scan config s es)
unfolding scan
scan-Once config a s [] h = h
scan-Once config a s (other_event ∷ es) h = scan-Once config a s es h
scan-Once config a s (device_added addr device ∷ es) h = elim (Bool-cases (contains addr s.seen)) [
  | inl e ↦ rw (e, scan) (scan-Once config a s es h)
  | inr e ↦
      rw (e, scan)
        (scan-Once config a (push_if_relay config s addr device) es
          (push_if_relay-Once config a addr s device e h))
]

-- While known relays are checked, the address has come at most once with those still to check.
abbrev OnceKnown : ℕ → Search → List ℕ → Type 0
OnceKnown a s rest = Once a s × (times a s.relays + occurs a rest ≤ 1)

push_known-Once :
    (a addr : ℕ) (s : Search) (device : Device) (rest : List ℕ)
    → OnceKnown a s (addr ∷ rest)
    → OnceKnown a (push_relay s addr device) rest
push_known-Once a addr s device rest h = (
  ground (arith, h.0, h.1, times-append a s.relays (relay_device addr device)),
  ground (arith, h.1, times-append a s.relays (relay_device addr device)),
)

skip_known-Once :
    (a addr : ℕ) (s : Search) (rest : List ℕ) → OnceKnown a s (addr ∷ rest) → OnceKnown a s rest
skip_known-Once a addr s rest h = (h.0, ground (arith, h.1))

push_connected-Once :
    (a addr : ℕ) (s : Search) (device : Device) (answer : Result String Bool) (rest : List ℕ)
    → OnceKnown a s (addr ∷ rest)
    → OnceKnown a (push_connected s addr device answer) rest
push_connected-Once a addr s device (ok true) rest h = push_known-Once a addr s device rest h
push_connected-Once a addr s device (ok false) rest h = skip_known-Once a addr s rest h
push_connected-Once a addr s device (err e) rest h = skip_known-Once a addr s rest h

check_device-Once :
    (a addr : ℕ) (s : Search) (device : Result String Device) (rest : List ℕ)
    → OnceKnown a s (addr ∷ rest)
    → OnceKnown a (check_device s addr device) rest
check_device-Once a addr s (ok device) rest h =
    push_connected-Once a addr s device device.is_connected rest h
check_device-Once a addr s (err e) rest h = skip_known-Once a addr s rest h

check_known-Once :
    (adapter : ℕ → Result String Device) (a : ℕ) (s : Search) (known : List ℕ)
    → OnceKnown a s known
    → Once a (check_known adapter s known)
unfolding check_known
check_known-Once adapter a s [] h = h.0
check_known-Once adapter a s (addr ∷ rest) h =
    check_known-Once adapter a (check_device s addr (adapter addr)) rest
      (check_device-Once a addr s (adapter addr) rest h)

Once-times : (a : ℕ) (s : Search) → Once a s → times a s.relays ≤ 1
Once-times a s h = ground (arith, h)

-- An address that is in the configuration at most once is found at most once, however often the
-- adapter reports it.
pub times-found :
    (config : BtDiscoveryConfig) (adapter : ℕ → Result String Device) (events : List AdapterEvent)
    (a : ℕ)
    → occurs a config.known_relays ≤ 1
    → times a (found config adapter events) ≤ 1
unfolding found
times-found config adapter events a h =
    let checked = check_known adapter no_search config.known_relays in
    let known =
      check_known-Once adapter a no_search config.known_relays (omega arith, omega arith) in
    Once-times a (scan config checked events) (scan-Once config a checked events known)
