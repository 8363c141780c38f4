-- ===== src/Mavlink/Outbox.antt =====
-- `FlightController::send` of src/mavlink/connection.rs: the channel of outgoing messages, which
-- takes messages for as long as its receiver lives.
use res_qterra_engine.Common.{
  ℕ, zero, suc, String, Option, none, some, List, [], ◌∷◌, ◌++◌, Result, ok, err,
}
use res_qterra_engine.Mavlink.Messages.{MavMessage}

-- All that was sent, and how many messages more the receiver lives to take: `none` is no limit.
pub record Outbox : Type 0 where
  pub sent : List MavMessage
  pub lives_for : Option ℕ

abbrev pub Sent : Type 0
Sent = Outbox × Result String Unit

unfoldable pub send : Outbox → MavMessage → Sent
send fc msg = elim fc.lives_for [
  | none ↦ (record fc { sent = fc.sent ++ msg ∷ [] }, ok tt)
  | some zero ↦ (fc, err "FC connection closed")
  | some (suc n) ↦ (record { sent = fc.sent ++ msg ∷ []; lives_for = some n }, ok tt)
]

-- `first?; then`
abbrev pub and_then : Sent → (Outbox → Sent) → Sent
and_then (fc, ok done) next = next fc
and_then (fc, err e) next = (fc, err e)

-- What sending several messages in a row comes to.
abbrev pub send_each : Outbox → List MavMessage → Sent
send_each fc [] = (fc, ok tt)
send_each fc (msg ∷ rest) = and_then (send fc msg) (λ fc'. send_each fc' rest)
