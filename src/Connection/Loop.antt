-- ===== src/Connection/Loop.antt =====
-- `connection_loop` of src/connection/manager.rs: fallback from 5G to Bluetooth and exponential
-- backoff. One round of the loop is a function of what the network answers.
pub mod Backoff
use res_qterra_engine.Common.{
  ℕ, ◌*◌, String, Option, none, some, List, [], ◌∷◌, ◌++◌, Result, ok, err, leb, if◌then◌else◌,
}
use res_qterra_engine.Common.Text.{◌<>◌}
use res_qterra_engine.Connection.{
  Transport, five_g, bluetooth, ConnectionConfig, ConnectionEvent, connected, disconnected,
  connection_failed, transport_switched,
}

-- How an attempt to connect turns out. A stream that opens comes with the events of its
-- connection and the reason for which `handle_connection` returned, which is always an error.
pub data Attempt : Type 0 where
  opens : List ConnectionEvent → String → Attempt
  refused : String → Attempt
  times_out : Attempt

pub record LoopState : Type 0 where
  pub current_transport : Transport
  pub reconnect_delay : ℕ

abbrev pub loop_start : ConnectionConfig → LoopState
loop_start config = record { current_transport = five_g; reconnect_delay = config.reconnect_delay }

-- `connect_result`: what an open stream comes to, or the text of the error.
abbrev pub connect_result : Transport → Attempt → Result String (List ConnectionEvent × String)
connect_result t (opens events reason) = ok (events, reason)
connect_result five_g (refused e) = err ("5G connection failed: " <> e)
connect_result five_g times_out = err "5G connection timeout"
connect_result bluetooth (refused e) = err ("Bluetooth connection failed: " <> e)
connect_result bluetooth times_out = err "Bluetooth connection timeout"

abbrev pub min : ℕ → ℕ → ℕ
min a b = if leb a b then a else b

-- A round: the new state, the events sent, and the delay slept, if it comes to that.
pub record Round : Type 0 where
  pub state : LoopState
  pub events : List ConnectionEvent
  pub slept : Option ℕ

-- The end of a round: the sleep, the backoff and the return to 5G.
abbrev pub wait_and_reset : ConnectionConfig → ℕ → List ConnectionEvent → Round
wait_and_reset config delay events = record {
  state = record {
    current_transport = five_g;
    reconnect_delay = min (delay * 2) config.max_reconnect_delay;
  };
  events = events;
  slept = some delay;
}

fall_back : ConnectionConfig → Transport → ℕ → String → Round
fall_back config five_g delay e = record {
  state = record { current_transport = bluetooth; reconnect_delay = delay };
  events = transport_switched five_g bluetooth ∷ [];
  slept = none;
}
fall_back config bluetooth delay e =
    wait_and_reset config delay (connection_failed ("All transports failed: " <> e) ∷ [])

unfoldable pub round : ConnectionConfig → LoopState → Attempt → Round
unfolding fall_back
round config s a = elim (connect_result s.current_transport a) [
  | ok stream ↦
      wait_and_reset config config.reconnect_delay
        (connected s.current_transport ∷ (stream.0 ++ disconnected stream.1 ∷ []))
  | err e ↦ fall_back config s.current_transport s.reconnect_delay e
]

-- The loop over a list of attempts: the state, the events sent and the delays slept.
unfoldable pub connection_loop :
    ConnectionConfig → LoopState → List Attempt → LoopState × List ConnectionEvent × List ℕ
unfolding round
connection_loop config s [] = (s, [], [])
connection_loop config s (a ∷ rest) =
    let r = round config s a in
    let (last, events, slept) = connection_loop config r.state rest in
    (last, r.events ++ events, elim r.slept [ some delay ↦ delay ∷ slept | none ↦ slept ])
