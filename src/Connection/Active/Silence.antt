-- ===== src/Connection/Active/Silence.antt =====
-- A server that says nothing.
use res_qterra_engine.Common.{ℕ, ◌+◌, ◌%◌, ◌^◌, ◌≡◌, refl, ap, ◌∙◌, none, some, List, [], ◌∷◌, ◌++◌}
use res_qterra_engine.Proto.{Envelope}
use res_qterra_engine.Codec.{Prost, IsProst}
use res_qterra_engine.Codec.Frame.{frame, Fits, encode-frame}
use res_qterra_engine.Connection.{ConnectionConfig}
use res_qterra_engine.Connection.Active.{
  Activity, ticked, outbound, chunk, read_closed, read_failed, read_timed_out, Active,
  write_envelope, handle_activity, handle_connection, heartbeat_envelope,
}
use res_qterra_engine.Connection.Active.Delivery.{handle_connection-continue, continue}

-- A run in which every write succeeds and nothing is read: heartbeats and read timeouts.
abbrev pub IsSilent : List Activity → Type 0
IsSilent [] = Unit
IsSilent (ticked uptime_ms now none ∷ xs) = IsSilent xs
IsSilent (read_timed_out ∷ xs) = IsSilent xs
IsSilent (_ ∷ xs) = ⊥

module _ {D N : Type 0} {p : Prost Envelope D N} (law : IsProst p) (config : ConnectionConfig) where
  heartbeat_written :
      (a : Active) (e : Envelope)
      → Fits law e
      → write_envelope p a e none ≡ (record a { written = a.written ++ frame law e }, none)
  unfolding write_envelope
  heartbeat_written a e fits = rw (write_envelope, encode-frame law e fits) refl

  -- The connection after a heartbeat.
  abbrev beaten : Active → ℕ → ℕ → Active
  beaten a up now =
      let next = (a.sequence_id + 1) % 2 ^ 64 in
      record a {
        sequence_id = next;
        written = a.written ++ frame law (heartbeat_envelope config next up now);
      }

  silent_tick :
      (a : Active) (up now : ℕ) (xs : List Activity)
      → Fits law (heartbeat_envelope config ((a.sequence_id + 1) % 2 ^ 64) up now)
      → handle_connection p config a (ticked up now none ∷ xs)
        ≡ handle_connection p config (beaten a up now) xs
  unfolding handle_activity
  silent_tick a up now xs fits =
      let next = (a.sequence_id + 1) % 2 ^ 64 in
      handle_connection-continue p config a (ticked up now none) xs
      ∙ ap (λ r. continue p config r xs)
          (heartbeat_written (record a { sequence_id = next })
            (heartbeat_envelope config next up now) fits)

  no_step : (a : Active) → handle_connection p config a [] ≡ (a, none)
  unfolding handle_connection
  no_step a = refl

  silent_timeout :
      (a : Active) (xs : List Activity)
      → handle_connection p config a (read_timed_out ∷ xs) ≡ handle_connection p config a xs
  unfolding handle_activity
  silent_timeout a xs = handle_connection-continue p config a read_timed_out xs

  -- A server that never says anything again is not noticed: however many heartbeats are sent and
  -- however many reads time out, the connection stays open and nothing is reported, as long as the
  -- writes succeed and the heartbeats fit.
  pub silence_unnoticed :
      (a : Active) (xs : List Activity)
      → ((seq uptime_ms now : ℕ) → Fits law (heartbeat_envelope config seq uptime_ms now))
      → IsSilent xs
      → ((handle_connection p config a xs).1 ≡ none)
        × ((handle_connection p config a xs).0.events ≡ a.events)
  silence_unnoticed a [] fits silent = rw (no_step a) (refl, refl)
  silence_unnoticed a (ticked up now none ∷ xs) fits silent =
      rw (silent_tick a up now xs (fits ((a.sequence_id + 1) % 2 ^ 64) up now))
        (silence_unnoticed (beaten a up now) xs fits silent)
  silence_unnoticed a (read_timed_out ∷ xs) fits silent =
      rw (silent_timeout a xs) (silence_unnoticed a xs fits silent)
  silence_unnoticed a (ticked up now (some e) ∷ xs) fits silent = absurd silent
  silence_unnoticed a (outbound e o ∷ xs) fits silent = absurd silent
  silence_unnoticed a (chunk bytes ∷ xs) fits silent = absurd silent
  silence_unnoticed a (read_closed ∷ xs) fits silent = absurd silent
  silence_unnoticed a (read_failed e ∷ xs) fits silent = absurd silent
