-- ===== src/Relay/Streams.antt =====
-- relay-node/src/main.rs: what each side gets is a prefix of what the other side sends.
use res_qterra_engine.Common.{
  ℕ, zero, suc, ◌≡◌, refl, sym, ap, ◌∙◌, String, List, [], ◌∷◌, ◌++◌, Result, ok, err, take, drop,
  take-append-drop, append_assoc, Option-cases, inl, inr,
}
use res_qterra_engine.Connection.Loop.{min}
use res_qterra_engine.Relay.Forward.{
  Copy, Ready, buffer_size, Ending, read_round, write_round, copy_round, Relay, Turn, up, down,
  turn, forward, handle_connection, handle_rfcomm_connection,
}

-- All the bytes of a direction: those that got through, those held, and those still to come.
abbrev pub stream : Copy → List ℕ
stream c = c.written ++ (c.held ++ c.incoming)

read_round-stream :
    (c : Copy) (r : Result String ℕ) → c.held ≡ [] → stream (read_round c r).0 ≡ stream c
read_round-stream c (err e) h = refl
read_round-stream c (ok zero) h = refl
read_round-stream c (ok (suc n)) h =
    rw h (ap (λ l. c.written ++ l) (take-append-drop (min (suc n) buffer_size) c.incoming))

write_round-stream : (c : Copy) (r : Result String ℕ) → stream (write_round c r).0 ≡ stream c
write_round-stream c (err e) = refl
write_round-stream c (ok zero) = refl
write_round-stream c (ok (suc n)) =
    append_assoc c.written (take (suc n) c.held) (drop (suc n) c.held ++ c.incoming)
    ∙ ap (λ l. c.written ++ l)
        (sym (append_assoc (take (suc n) c.held) (drop (suc n) c.held) c.incoming)
          ∙ ap (λ l. l ++ c.incoming) (take-append-drop (suc n) c.held))

stream-by_held :
    (incoming held written : List ℕ) (ready : Ready)
    → let c : Copy = record { incoming = incoming; held = held; written = written } in
      stream (copy_round c ready).0 ≡ stream c
unfolding copy_round
stream-by_held incoming [] written ready =
    read_round-stream (record { incoming = incoming; held = []; written = written }) ready.reads
      refl
stream-by_held incoming (b ∷ bs) written ready =
    write_round-stream (record { incoming = incoming; held = b ∷ bs; written = written })
      ready.writes

pub copy_round-stream : (c : Copy) (ready : Ready) → stream (copy_round c ready).0 ≡ stream c
copy_round-stream c ready = stream-by_held c.incoming c.held c.written ready

-- The bytes of both directions.
abbrev pub streams : Relay → List ℕ × List ℕ
streams r = (stream r.edge_to_server, stream r.server_to_edge)

turn-streams : (r : Relay) (t : Turn) → streams (turn r t).0 ≡ streams r
unfolding turn
turn-streams r (up ready) =
    ap (λ s. (s, stream r.server_to_edge)) (copy_round-stream r.edge_to_server ready)
turn-streams r (down ready) =
    ap (λ s. (stream r.edge_to_server, s)) (copy_round-stream r.server_to_edge ready)

pub forward-streams : (r : Relay) (ts : List Turn) → streams (forward r ts).0 ≡ streams r
unfolding forward
forward-streams r [] = refl
forward-streams r (t ∷ ts) = elim (Option-cases (turn r t).1) [
  | inl e ↦ rw (e, forward) (forward-streams (turn r t).0 ts ∙ turn-streams r t)
  | inr (ending, e) ↦ rw (e, forward) (turn-streams r t)
]

-- However the two copy loops take turns, reads and writes are cut, and whatever ends the connection,
-- over TCP and over RFCOMM alike: in each direction the bytes that got through, those held and those
-- still to come are, in this order, the bytes sent.
pub handle_connection-streams :
    (r : Relay) (connect : Ending) (ts : List Turn)
    → (streams (handle_connection r connect ts).0 ≡ streams r)
      × (streams (handle_rfcomm_connection r connect ts).0 ≡ streams r)
unfolding handle_connection handle_rfcomm_connection
handle_connection-streams r (err e) ts = (refl, refl)
handle_connection-streams r (ok connected) ts = (forward-streams r ts, forward-streams r ts)
