-- ===== src/Mavlink/Telemetry/Runs.antt =====
-- src/mavlink/telemetry.rs: what holds of a run over messages when it holds of each message.
use res_qterra_engine.Common.{ℕ, ◌≡◌, refl, ◌∙◌, String, List, [], ◌∷◌, ◌++◌, All}
use res_qterra_engine.Mavlink.Floats.{Floats}
use res_qterra_engine.Mavlink.Messages.{MavMessage}
use res_qterra_engine.Mavlink.Telemetry.{TelemetryReader, process_message, process_all}

module _ (float : Floats) (utf8 : List ℕ → String) where
  pub process_all-append :
      (r : TelemetryReader) (ms ns : List MavMessage)
      → process_all float utf8 r (ms ++ ns)
        ≡ process_all float utf8 (process_all float utf8 r ms) ns
  unfolding process_all
  process_all-append r [] ns = refl
  process_all-append r (m ∷ ms) ns = process_all-append (process_message float utf8 r m) ms ns

  -- A view of the reader that no message of a kind changes.
  pub process_all-unchanged :
      {V : Type 0} (view : TelemetryReader → V) (P : MavMessage → Type 0)
      → ((r : TelemetryReader) (m : MavMessage)
          → P m
          → view (process_message float utf8 r m) ≡ view r)
      → (r : TelemetryReader) (ms : List MavMessage) → All P ms
      → view (process_all float utf8 r ms) ≡ view r
  unfolding process_all
  process_all-unchanged view P step r [] h = refl
  process_all-unchanged view P step r (m ∷ ms) h =
      process_all-unchanged view P step (process_message float utf8 r m) ms h.1 ∙ step r m h.0

  -- A predicate of the reader that every message of a kind keeps.
  pub process_all-keeps :
      (Q : TelemetryReader → Type 0) (P : MavMessage → Type 0)
      → ((r : TelemetryReader) (m : MavMessage) → P m → Q r → Q (process_message float utf8 r m))
      → (r : TelemetryReader) (ms : List MavMessage) → All P ms
      → Q r
      → Q (process_all float utf8 r ms)
  unfolding process_all
  process_all-keeps Q P step r [] h q = q
  process_all-keeps Q P step r (m ∷ ms) h q =
      process_all-keeps Q P step (process_message float utf8 r m) ms h.1 (step r m h.0 q)
