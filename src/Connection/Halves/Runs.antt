-- ===== src/Connection/Halves/Runs.antt =====
-- A connection over a socket is a run of the loop over what the socket answers.
use res_qterra_engine.Common.{
  ◌+◌, ◌%◌, ◌^◌, ◌≡◌, refl, ap, sym, ◌∙◌, Option, none, some, List, [], ◌∷◌, arith,
}
use res_qterra_engine.Proto.{Envelope}
use res_qterra_engine.Codec.{Prost, encode}
use res_qterra_engine.Connection.{ConnectionConfig}
use res_qterra_engine.Connection.Active.{
  Activity, ticked, outbound, read_timed_out, Active, heartbeat_envelope, Reason, handle_activity,
  handle_connection,
}
use res_qterra_engine.Connection.Active.Delivery.{continue, handle_connection-continue}
use res_qterra_engine.Connection.Halves.{
  Socket, Ready, beat_due, message_due, read_due, read_late, read_activity, write_encoded, read,
  Running, round, rounds,
}

module _ {T TR TW B BR BW D N : Type 0} (t : Socket T TR TW) (b : Socket B BR BW)
    (p : Prost Envelope D N) (config : ConnectionConfig) where
  -- What a branch comes to, once the socket has answered.
  abbrev activity : Running t b → Ready → Activity
  activity s (beat_due uptime_ms now) =
      let seq = (s.active.sequence_id + 1) % 2 ^ 64 in
      ticked uptime_ms now
        (write_encoded t b s.writer (encode p (heartbeat_envelope config seq uptime_ms now))).1
  activity s (message_due envelope) =
      outbound envelope (write_encoded t b s.writer (encode p envelope)).1
  activity s read_due = read_activity (read t b s.reader).1
  activity s read_late = read_timed_out

  abbrev pub outcome : Running t b × Option (Reason D N) → Active × Option (Reason D N)
  outcome (s, ended) = (s.active, ended)

  outcome-round :
      (s : Running t b) (x : Ready)
      → outcome (round t b p config s x) ≡ handle_activity p config s.active (activity s x)
  unfolding round
  outcome-round s (beat_due uptime_ms now) = refl
  outcome-round s (message_due envelope) = refl
  outcome-round s read_due = refl
  outcome-round s read_late = refl

  -- What the socket makes of a run.
  pub activities : Running t b → List Ready → List Activity
  unfolding round
  activities s [] = []
  activities s (x ∷ xs) = activity s x ∷ activities (round t b p config s x).0 xs

  abbrev go_on : Running t b × Option (Reason D N) → List Ready → Running t b × Option (Reason D N)
  go_on (s, none) xs = rounds t b p config s xs
  go_on (s, some reason) xs = (s, some reason)

  rounds-go_on :
      (s : Running t b) (x : Ready) (xs : List Ready)
      → rounds t b p config s (x ∷ xs) ≡ go_on (round t b p config s x) xs
  unfolding rounds
  rounds-go_on s x xs = ground arith

  continue-go_on :
      (r : Running t b × Option (Reason D N)) (xs : List Ready)
      → handle_connection p config r.0.active (activities r.0 xs)
        ≡ outcome (rounds t b p config r.0 xs)
      → continue p config (outcome r) (activities r.0 xs) ≡ outcome (go_on r xs)
  continue-go_on (s, none) xs h = h
  continue-go_on (s, some reason) xs h = refl

  -- A connection over a socket is the loop of `handle_connection` on what the socket makes of it.
  pub rounds-handle_connection :
      (s : Running t b) (xs : List Ready)
      → handle_connection p config s.active (activities s xs) ≡ outcome (rounds t b p config s xs)
  unfolding activities
  rounds-handle_connection s [] = unfold rounds handle_connection in refl
  rounds-handle_connection s (x ∷ xs) =
      let r = round t b p config s x in
      handle_connection-continue p config s.active (activity s x) (activities r.0 xs)
      ∙ ap (λ o. continue p config o (activities r.0 xs)) (sym (outcome-round s x))
      ∙ continue-go_on r xs (rounds-handle_connection r.0 xs)
      ∙ ap outcome (sym (rounds-go_on s x xs))
