-- ===== src/System/Path.antt =====
-- From the edge through the relay to the server: src/connection/manager.rs, relay-node/src/main.rs
-- and server/src/main.rs together.
use res_qterra_engine.Common.{
  ℕ, ◌<◌, ◌≡◌, sym, ap, ◌∙◌, Bool, none, some, List, ◌∷◌, ◌++◌, map, All, length, get_elem?,
}
use mathlib.Core.Option.{some-injective}
use res_qterra_engine.Proto.{Envelope}
use res_qterra_engine.Codec.{Prost, IsProst, new_decoder}
use res_qterra_engine.Codec.Chunks.{concat}
use res_qterra_engine.Connection.{ConnectionConfig}
use res_qterra_engine.Connection.Active.{Activity, Active, opened, handle_connection}
use res_qterra_engine.Connection.Active.Sending.{sent, written-frames}
use res_qterra_engine.Relay.Config.{RelayConfig}
use res_qterra_engine.Relay.Forward.{Relay, Turn, Ending}
use res_qterra_engine.Relay.Messages.{between}
use res_qterra_engine.Relay.Node.{
  Handler, tcp_handler, rfcomm_handler, Task, spawned, turned, server_answers, turns_once, started,
  Happening, run,
}
use res_qterra_engine.Relay.Isolation.{own, Accepts, serve as relayed, run-serve}
use res_qterra_engine.Relay.Streams.{stream, handle_connection-streams}
use res_qterra_engine.Sessions.Session.{DroneSession}
use res_qterra_engine.Sessions.Session.Rounds.{then_closed}
use res_qterra_engine.Server.{Server, Moment}
use res_qterra_engine.Server.Session.{handle_drone_session, Serves, handle_drone_session-serve}

-- A task of the relay keeps the bytes that the edge sends in their order.
relayed-stream :
    (handler : Handler) (r : Relay) (answer : Ending) (ts : List Turn)
    → stream (relayed handler r answer ts).0.edge_to_server ≡ stream r.edge_to_server
relayed-stream tcp_handler r answer ts = ap (λ s. s.0) (handle_connection-streams r answer ts).0
relayed-stream rfcomm_handler r answer ts = ap (λ s. s.0) (handle_connection-streams r answer ts).1

module _ {D N : Type 0} {p : Prost Envelope D N} (law : IsProst p) (up : ℕ → Bool) where
  -- At any moment of any run of the relay, with any other connections: what the server's session has
  -- done when its side of the connection closes is what `serve` does with the first of the valid
  -- messages that the edge has sent over its open connection, heartbeats included, one by one and in
  -- order; and with all of them, where the relay has passed on all bytes.
  pub run-Serves :
      (config : ConnectionConfig) (sequence_id : ℕ) (xs : List Activity) (last : Active)
      (node : RelayConfig) (handler : Handler) (from_server : List ℕ)
      (before after : List Happening) (h : Happening) (answer : Ending) (turns : List Turn)
      (t : Task) (x : Server) (s : DroneSession) (moments : List Moment) (chunks : List (List ℕ))
      → All law.Valid (sent config sequence_id xs)
      → handle_connection p config (opened sequence_id) xs ≡ (last, none)
      → let k = length (run (started node) before).tasks in
        Accepts (run (started node) before) handler (between last.written from_server) h
        → own k after ≡ server_answers answer ∷ map turns_once turns
        → get_elem? (run (started node) (before ++ h ∷ after)).tasks k ≡ some t
        → s.decoder ≡ new_decoder
        → concat chunks ≡ t.relay.edge_to_server.written
        → length (sent config sequence_id xs) < length moments
        → Serves law up x s moments
            (t.relay.edge_to_server.held ++ t.relay.edge_to_server.incoming)
            (sent config sequence_id xs)
            (handle_drone_session p up x s moments (then_closed chunks))
  run-Serves config sequence_id xs last node handler from_server before after h answer turns t x s
        moments chunks valid still accepts mine there fresh got enough =
      let r = between last.written from_server in
      let (fits, whole) = written-frames law config sequence_id xs last valid still in
      let same : t ≡ turned (spawned handler node.server_addr r) (relayed handler r answer turns) =
        some-injective _ _
          (sym there ∙ run-serve node handler r before after h answer turns accepts mine) in
      let kept : stream t.relay.edge_to_server ≡ last.written =
        ap (λ (t : Task). stream t.relay.edge_to_server) same
        ∙ relayed-stream handler r answer turns in
      let left = t.relay.edge_to_server.held ++ t.relay.edge_to_server.incoming in
      handle_drone_session-serve law up x s moments chunks left (sent config sequence_id xs) fits
        (ap (λ d. d.buffer ++ (concat chunks ++ left)) fresh
          ∙ ap (λ l. l ++ left) got
          ∙ kept
          ∙ whole)
        enough
