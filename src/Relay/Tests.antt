-- ===== src/Relay/Tests.antt =====
-- The relay at concrete inputs.
use res_qterra_engine.Common.{
  ℕ, ◌≡◌, refl, String, Option, none, some, true, List, [], ◌∷◌, ◌++◌, ok, err, arith, get_elem?,
  if◌then◌else◌, string_key,
}
use res_qterra_engine.Proto.{Envelope}
use res_qterra_engine.Codec.{new_decoder, deliver}
use res_qterra_engine.Codec.Stream.{frames}
use res_qterra_engine.Connection.{default_config}
use res_qterra_engine.Connection.Active.{heartbeat_envelope}
use res_qterra_engine.Connection.Beats.{beats, beats-IsProst}
use res_qterra_engine.Relay.Config.{from_env, default_relay}
use res_qterra_engine.Relay.Forward.{Turn, up, down, forward}
use res_qterra_engine.Relay.Messages.{between}
use res_qterra_engine.Relay.Node.{
  rfcomm_handler, spawned, turned, tcp_accepts, rfcomm_binds, rfcomm_accepts, proceeds,
  server_answers, turns_once, Happening, started, run,
}
use res_qterra_engine.Relay.Isolation.{serve, run-serve}
use res_qterra_engine.Relay.Config.{RelayConfig}
use res_qterra_engine.Relay.Through.{IsAlive, forward-delivers}

abbrev no_variables : String → Option String
no_variables name = none

abbrev channel_7 : String → Option String
channel_7 name = if string_key.beq name "RELAY_RFCOMM_CHANNEL" then some "7" else none

abbrev enabled : String → Option String
enabled name = if string_key.beq name "RELAY_ENABLE_RFCOMM" then some "TRUE" else none

defaults : from_env no_variables ≡ default_relay
unfolding from_env
defaults = refl

rfcomm_enabled : (from_env enabled).enable_rfcomm ≡ true
unfolding from_env
rfcomm_enabled = refl

abbrev small_beat : Envelope
small_beat = heartbeat_envelope default_config 5 6 7

-- A read of four bytes, a write of three of them, and an answer of the server in between.
abbrev some_turns : List Turn
some_turns =
    up (record { reads = ok 4; writes = ok 1 })
    ∷ down (record { reads = ok 9; writes = ok 1 })
    ∷ up (record { reads = err "unused"; writes = ok 3 })
    ∷ []

abbrev beat_frame : List ℕ
beat_frame = 0 ∷ 0 ∷ 0 ∷ 3 ∷ 5 ∷ 6 ∷ 7 ∷ []

got_three :
    (forward (between beat_frame (1 ∷ 2 ∷ [])) some_turns).0.edge_to_server.written ≡ 0 ∷ 0 ∷ 0 ∷ []
unfolding forward
got_three = refl

-- Bytes that are held are lost when the server closes its side.
lost :
    (forward (between beat_frame []) (
      up (record { reads = ok 4; writes = ok 1 })
      ∷ down (record { reads = ok 0; writes = ok 1 })
      ∷ up (record { reads = ok 4; writes = ok 4 })
      ∷ [])).0.edge_to_server.written
    ≡ []
unfolding forward
lost = refl

abbrev four_bytes : Turn
four_bytes = up (record { reads = ok 4; writes = ok 2 })

abbrev from_the_server : Turn
from_the_server = down (record { reads = ok 2; writes = ok 1 })

abbrev three_ups : List Turn
three_ups = four_bytes ∷ four_bytes ∷ four_bytes ∷ []

-- Fifteen turns of the loop from the edge, with turns of the other loop between them.
abbrev busy_turns : List Turn
busy_turns =
    three_ups
    ++ from_the_server ∷ three_ups
    ++ from_the_server ∷ three_ups
    ++ three_ups
    ++ from_the_server ∷ three_ups

forward-delivers_example :
    (deliver beats new_decoder ((0 ∷ 0 ∷ 0 ∷ []) ∷ (3 ∷ 5 ∷ 6 ∷ 7 ∷ []) ∷ [])
      ≡ (small_beat ∷ [], new_decoder))
    × ((forward (between (frames beats-IsProst (small_beat ∷ [])) (1 ∷ 2 ∷ 3 ∷ [])) busy_turns).1
        ≡ none)
unfolding beats-IsProst forward
forward-delivers_example =
    let on : IsAlive four_bytes = ((3, 1), refl) in
    let back : IsAlive from_the_server = ((1, 0), refl) in
    forward-delivers beats-IsProst (small_beat ∷ []) (1 ∷ 2 ∷ 3 ∷ []) busy_turns
      ((0 ∷ 0 ∷ 0 ∷ []) ∷ (3 ∷ 5 ∷ 6 ∷ 7 ∷ []) ∷ []) ((omega arith, (5, 6, 7, refl)), tt)
      (
        on,
        (
          on,
          (
            on,
            (
              back,
              (
                on,
                (
                  on,
                  (on, (back, (on, (on, (on, (on, (on, (on, (back, (on, (on, (on, tt)))))))))))),
                ),
              ),
            ),
          ),
        ),
      )
      (omega arith) refl

abbrev over_bluetooth : RelayConfig
over_bluetooth = record default_relay { enable_rfcomm = true }

-- A connection over TCP, whose task fails, and the start of the RFCOMM listener.
abbrev so_far : List Happening
so_far =
    tcp_accepts (ok (between beat_frame []))
    ∷ rfcomm_binds (ok tt) (ok 1)
    ∷ proceeds 0 (server_answers (err "refused"))
    ∷ []

abbrev from_then_on : List Happening
from_then_on =
    tcp_accepts (err "too many open files")
    ∷ proceeds 1 (server_answers (ok tt))
    ∷ proceeds 0 (turns_once (up (record { reads = ok 4; writes = ok 1 })))
    ∷ proceeds 1 (turns_once (up (record { reads = ok 4; writes = ok 1 })))
    ∷ proceeds 1 (turns_once (up (record { reads = ok 4; writes = ok 3 })))
    ∷ []

run-serve_example :
    get_elem?
      (run
        (started over_bluetooth)
        (so_far ++ rfcomm_accepts (ok (between beat_frame [])) ∷ from_then_on)).tasks
      1
    ≡ some (
        turned (spawned rfcomm_handler "127.0.0.1:8080" (between beat_frame [])) (
          serve rfcomm_handler (between beat_frame []) (ok tt) (
            up (record { reads = ok 4; writes = ok 1 })
            ∷ up (record { reads = ok 4; writes = ok 3 })
            ∷ [])))
unfolding run
run-serve_example =
    run-serve over_bluetooth rfcomm_handler (between beat_frame []) so_far from_then_on
      (rfcomm_accepts (ok (between beat_frame []))) (ok tt)
      (up (record { reads = ok 4; writes = ok 1 })
        ∷ up (record { reads = ok 4; writes = ok 3 })
        ∷ [])
      (refl, refl) refl
