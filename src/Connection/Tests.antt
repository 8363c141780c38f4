-- ===== src/Connection/Tests.antt =====
-- The connection's theorems, with a serialiser that knows one kind of heartbeat.
use res_qterra_engine.Common.{ℕ, ◌≡◌, refl, ap, none, some, List, [], ◌∷◌, ◌++◌, ok, arith}
use res_qterra_engine.Proto.{Envelope}
use res_qterra_engine.Codec.{new_decoder, deliver}
use res_qterra_engine.Connection.{default_config, received, bluetooth}
use res_qterra_engine.Connection.Active.{
  Activity, ticked, chunk, read_timed_out, Active, opened, handle_connection, heartbeat_envelope,
}
use res_qterra_engine.Connection.Halves.{
  Socket, ConnectionStream, Ready, beat_due, message_due, read_due, read_late, handle_stream,
}
use res_qterra_engine.Connection.Halves.Alike.{AnswersAlike, handle_stream-alike}
use res_qterra_engine.Connection.Beats.{beats, beats-IsProst}
use res_qterra_engine.Connection.Active.Delivery.{received-frames}
use res_qterra_engine.Connection.Active.Sending.{deliver-written}
use res_qterra_engine.Connection.Active.Silence.{silence_unnoticed}
use res_qterra_engine.Connection.Loop.{
  Attempt, refused, times_out, LoopState, loop_start, connection_loop,
}
use res_qterra_engine.Connection.Loop.Backoff.{slept-pairs, delay_at, pairs}

abbrev first_beat : Envelope
first_beat = heartbeat_envelope default_config 5 6 7

-- A heartbeat is sent while a frame of the server arrives in two reads.
abbrev busy : List Activity
busy =
    chunk (0 ∷ 0 ∷ 0 ∷ 3 ∷ 5 ∷ []) ∷ ticked 0 1000 none ∷ chunk (6 ∷ 7 ∷ []) ∷ read_timed_out ∷ []

abbrev after_busy : Active
after_busy = record {
  sequence_id = 1;
  decoder = new_decoder;
  written = 0 ∷ 0 ∷ 0 ∷ 3 ∷ 1 ∷ 0 ∷ 1000 ∷ [];
  events = received first_beat ∷ [];
}

busy_run : handle_connection beats default_config (opened 0) busy ≡ (after_busy, none)
unfolding handle_connection
busy_run = refl

received-frames_example :
    (after_busy.events ≡ received first_beat ∷ []) × (after_busy.decoder ≡ new_decoder)
unfolding beats-IsProst
received-frames_example =
    received-frames beats-IsProst default_config 0 busy after_busy (first_beat ∷ [])
      ((omega arith, (5, 6, 7, refl)), tt) refl busy_run

deliver-written_example :
    deliver beats new_decoder ((0 ∷ 0 ∷ 0 ∷ []) ∷ (3 ∷ 1 ∷ 0 ∷ 1000 ∷ []) ∷ [])
    ≡ (heartbeat_envelope default_config 1 0 1000 ∷ [], new_decoder)
unfolding beats-IsProst
deliver-written_example =
    deliver-written beats-IsProst default_config 0 busy after_busy
      ((0 ∷ 0 ∷ 0 ∷ []) ∷ (3 ∷ 1 ∷ 0 ∷ 1000 ∷ []) ∷ []) ((1, 0, 1000, refl), tt) busy_run refl

abbrev quiet : List Activity
quiet = ticked 0 1000 none ∷ read_timed_out ∷ ticked 1000 2000 none ∷ []

silence_unnoticed_example :
    ((handle_connection beats default_config (opened 0) quiet).1 ≡ none)
    × ((handle_connection beats default_config (opened 0) quiet).0.events ≡ [])
unfolding beats-IsProst
silence_unnoticed_example =
    silence_unnoticed beats-IsProst default_config (opened 0) quiet (λ s u n. omega arith) tt

abbrev no_network : List (Attempt × Attempt)
no_network = (times_out, refused "no relay") ∷ (refused "down", times_out) ∷ []

slept-pairs_example :
    delay_at (connection_loop default_config (loop_start default_config) (pairs no_network)).2 1
    ≡ some 2000
slept-pairs_example =
    slept-pairs default_config no_network 1000 1 (tt, tt, (tt, tt, tt)) (omega arith) (omega arith)

abbrev long_down : LoopState
long_down = record { current_transport = bluetooth; reconnect_delay = 16000 }

-- A socket that answers each read with the same bytes, and keeps what is written.
abbrev echo : Socket (List ℕ) (List ℕ) (List ℕ)
echo = record {
  into_split = λ s. (s, []);
  read = λ r. ([], ok r);
  write_all = λ w buf. (w ++ buf, ok tt);
}

echo-alike : AnswersAlike echo echo (λ s s'. s ≡ s') (λ r r'. r ≡ r') (λ w w'. w ≡ w')
echo-alike = record {
  split = λ s s' h. (h, refl);
  reads = λ r r' h. (ap ok h, refl);
  writes = λ w w' buf h. (refl, ap (λ v. v ++ buf) h);
}

abbrev falls_due : List Ready
falls_due = beat_due 0 1000 ∷ read_due ∷ message_due first_beat ∷ read_late ∷ read_due ∷ []

handle_stream-alike_example :
    let (over, ended) =
      handle_stream echo echo beats default_config
        (ConnectionStream.tcp (0 ∷ 0 ∷ []))
        0
        falls_due in
    let (over', ended') =
      handle_stream echo echo beats default_config
        (ConnectionStream.rfcomm (0 ∷ 0 ∷ []))
        0
        falls_due in
    (over.active ≡ over'.active) × (ended ≡ ended')
handle_stream-alike_example =
    handle_stream-alike echo-alike beats default_config (0 ∷ 0 ∷ []) (0 ∷ 0 ∷ []) 0 falls_due refl
