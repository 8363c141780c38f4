-- ===== src/Connection/Manager/Streams.antt =====
-- The methods of `ConnectionManager`: the numbers of its messages, and the streams it opens.
use res_qterra_engine.Common.{
  ℕ, zero, suc, ◌+◌, ◌%◌, ◌^◌, ◌<◌, ◌≡◌, refl, String, Option, none, some, List, [], ◌∷◌, Result,
  ok, err, arith, ap,
}
use res_qterra_engine.Connection.{BluetoothConfig, BluetoothMode, rfcomm, tcp_simulation}
use res_qterra_engine.Connection.Manager.{
  ConnectionManager, next_sequence_id, OpenedStream, tcp_stream, rfcomm_stream, Network, opened_tcp,
  opened_rfcomm, connect_parsed, connect_rfcomm, connect_in, connect_bluetooth,
}

-- The numbers that `n` calls of `next_sequence_id` give.
abbrev pub numbers : ConnectionManager → ℕ → List ℕ
numbers m zero = []
numbers m (suc n) = let (m', seq) = next_sequence_id m in seq ∷ numbers m' n

-- The numbers after `s`.
abbrev pub numbers_after : ℕ → ℕ → List ℕ
numbers_after s zero = []
numbers_after s (suc n) = suc s ∷ numbers_after (suc s) n

below_u64 : (s : ℕ) → s + 1 < 2 ^ 64 → (s + 1) % 2 ^ 64 ≡ suc s
below_u64 s h = omega arith

-- Until the counter wraps around, calls of `next_sequence_id` give the numbers after the last, so no
-- number is given twice.
pub numbers-next :
    (m : ConnectionManager) (n : ℕ)
    → m.sequence_id + n < 2 ^ 64
    → numbers m n ≡ numbers_after m.sequence_id n
numbers-next m zero h = refl
numbers-next m (suc n) h = rw (below_u64 m.sequence_id (omega arith)) (
    ap (◌∷◌ (suc m.sequence_id))
      (numbers-next (record m { sequence_id = suc m.sequence_id }) n (omega arith)))

-- The stream that a configuration asks for: over TCP in the simulation, and otherwise over RFCOMM to
-- the address that the configured text stands for.
abbrev pub IsAskedFor : Network → BluetoothConfig → BluetoothMode → OpenedStream → Type 0
IsAskedFor net config tcp_simulation s = s ≡ tcp_stream config.tcp_address
IsAskedFor net config rfcomm s =
    (text : String) × (addr : ℕ) × (config.relay_address ≡ some text)
    × (net.parse text ≡ some addr)
    × (s ≡ rfcomm_stream addr config.channel)

tcp_asked :
    (address : String) (r : Result String (Unit {0})) (s : OpenedStream)
    → opened_tcp address r ≡ ok s
    → s ≡ tcp_stream address
tcp_asked address (ok done) s h = ground (arith, h)
tcp_asked address (err e) s h = absurd (ground (arith, h))

rfcomm_asked :
    (addr channel : ℕ) (r : Result String (Unit {0})) (s : OpenedStream)
    → opened_rfcomm addr channel r ≡ ok s
    → s ≡ rfcomm_stream addr channel
rfcomm_asked addr channel (ok done) s h = ground (arith, h)
rfcomm_asked addr channel (err e) s h = absurd (ground (arith, h))

parsed_asked :
    (net : Network) (config : BluetoothConfig) (text : String) (o : Option ℕ) (s : OpenedStream)
    → config.relay_address ≡ some text
    → net.parse text ≡ o
    → connect_parsed net config.channel text o ≡ ok s
    → IsAskedFor net config rfcomm s
parsed_asked net config text (some addr) s set parsed h = (
  text,
  addr,
  set,
  parsed,
  rfcomm_asked addr config.channel (net.rfcomm_opens addr config.channel) s h,
)
parsed_asked net config text none s set parsed h = absurd (ground (arith, h))

relay_asked :
    (net : Network) (config : BluetoothConfig) (o : Option String) (s : OpenedStream)
    → config.relay_address ≡ o
    → connect_rfcomm net config.channel o ≡ ok s
    → IsAskedFor net config rfcomm s
relay_asked net config (some text) s set h =
    parsed_asked net config text (net.parse text) s set refl h
relay_asked net config none s set h = absurd (ground (arith, h))

mode_asked :
    (net : Network) (config : BluetoothConfig) (mode : BluetoothMode) (s : OpenedStream)
    → connect_in net config mode ≡ ok s
    → IsAskedFor net config mode s
mode_asked net config tcp_simulation s h =
    tcp_asked config.tcp_address (net.tcp_opens config.tcp_address) s h
mode_asked net config rfcomm s h = relay_asked net config config.relay_address s refl h

-- If `connect_bluetooth` opens a stream, it is the one that the configuration asks for: over TCP to
-- the simulated relay, or over RFCOMM to the configured address, on the configured channel.
pub connect_bluetooth-IsAskedFor :
    (net : Network) (config : BluetoothConfig) (s : OpenedStream)
    → connect_bluetooth net config ≡ ok s
    → IsAskedFor net config config.mode s
unfolding connect_bluetooth
connect_bluetooth-IsAskedFor net config s h = mode_asked net config config.mode s h
