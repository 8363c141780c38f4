-- ===== src/Edge/FlightEvents.antt =====
-- `handle_fc_events` of src/main.rs: the events of the flight controller link, of which the messages
-- go to the telemetry reader.
use res_qterra_engine.Common.{◌≡◌, refl, ◌∙◌, ap, String, ℕ, List, [], ◌∷◌}
use res_qterra_engine.Mavlink.Floats.{Floats}
use res_qterra_engine.Mavlink.Link.{
  FcConfig, FcEvent, fc_connected, fc_disconnected, fc_message, fc_heartbeat, FcAttempt, new_link,
  connection_loop,
}
use res_qterra_engine.Mavlink.Link.Traffic.{heard}
use res_qterra_engine.Mavlink.Link.Rounds.{all_read, connection_loop-heard}
use res_qterra_engine.Mavlink.Telemetry.{TelemetryReader, process_message, process_all}

module _ (float : Floats) (utf8 : List ℕ → String) where
  -- The other events are only reported.
  unfoldable pub handle_fc_event : TelemetryReader → FcEvent → TelemetryReader
  unfolding process_message
  handle_fc_event telemetry (fc_message msg) = process_message float utf8 telemetry msg
  handle_fc_event telemetry _ = telemetry

  unfoldable pub handle_fc_events : TelemetryReader → List FcEvent → TelemetryReader
  unfolding handle_fc_event
  handle_fc_events telemetry [] = telemetry
  handle_fc_events telemetry (e ∷ es) = handle_fc_events (handle_fc_event telemetry e) es

  handle_fc_events-heard :
      (r : TelemetryReader) (es : List FcEvent)
      → handle_fc_events r es ≡ process_all float utf8 r (heard es)
  unfolding handle_fc_events process_all
  handle_fc_events-heard r [] = refl
  handle_fc_events-heard r (fc_message msg ∷ es) =
      handle_fc_events-heard (process_message float utf8 r msg) es
  handle_fc_events-heard r (fc_connected ∷ es) = handle_fc_events-heard r es
  handle_fc_events-heard r (fc_disconnected e ∷ es) = handle_fc_events-heard r es
  handle_fc_events-heard r (fc_heartbeat a t s b c ∷ es) = handle_fc_events-heard r es

  -- Over any attempts to connect to the flight controller, the telemetry reader is where it would be
  -- had it been given every message read on the link, once and in order, and nothing else.
  pub handle_fc_events-all_read :
      (config : FcConfig) (r : TelemetryReader) (rounds : List FcAttempt)
      → handle_fc_events r (connection_loop config new_link rounds).0.events
        ≡ process_all float utf8 r (all_read rounds)
  handle_fc_events-all_read config r rounds =
      handle_fc_events-heard r (connection_loop config new_link rounds).0.events
      ∙ ap (λ ms. process_all float utf8 r ms) (connection_loop-heard config new_link rounds)
