-- ===== src/Connection/Halves/Alike.antt =====
-- Over either kind of socket a connection is the same.
use res_qterra_engine.Common.{
  ℕ, ◌+◌, ◌%◌, ◌^◌, ◌≡◌, refl, ap, sym, ◌∙◌, String, Option, none, some, List, [], ◌∷◌, Result, ok,
  err, arith,
}
use res_qterra_engine.Proto.{Envelope}
use res_qterra_engine.Codec.{Prost, CodecError, encode}
use res_qterra_engine.Connection.{ConnectionConfig}
use res_qterra_engine.Connection.Active.{
  Active, opened, heartbeat_envelope, Reason, handle_activity, ticked, outbound, read_timed_out,
}
use res_qterra_engine.Connection.Halves.{
  Socket, ConnectionStream, ConnectionReader, ConnectionWriter, Ready, beat_due, message_due,
  read_due, read_late, read_activity, failure, write_encoded, Running, round, rounds, handle_stream,
}

-- Two sockets answer alike: `same_r` and `same_w` relate halves that have had the same said to them.
pub record AnswersAlike {T TR TW B BR BW : Type 0} (t : Socket T TR TW) (b : Socket B BR BW)
    (same : T → B → Type 0) (same_r : TR → BR → Type 0) (same_w : TW → BW → Type 0) : Type 0 where
  pub split :
      (s : T) (s' : B)
      → same s s'
      → same_r (t.into_split s).0 (b.into_split s').0
        × same_w (t.into_split s).1 (b.into_split s').1
  pub reads :
      (r : TR) (r' : BR)
      → same_r r r'
      → ((t.read r).1 ≡ (b.read r').1) × same_r (t.read r).0 (b.read r').0
  pub writes :
      (w : TW) (w' : BW) (buf : List ℕ)
      → same_w w w'
      → ((t.write_all w buf).1 ≡ (b.write_all w' buf).1)
        × same_w (t.write_all w buf).0 (b.write_all w' buf).0

module _ {T TR TW B BR BW : Type 0} {t : Socket T TR TW} {b : Socket B BR BW}
    {same : T → B → Type 0} {same_r : TR → BR → Type 0} {same_w : TW → BW → Type 0}
    (alike : AnswersAlike t b same same_r same_w) {D N : Type 0} (p : Prost Envelope D N)
    (config : ConnectionConfig) where
  abbrev over_tcp : Active → TR → TW → Running t b
  over_tcp a r w = record {
    active = a;
    reader = ConnectionReader.tcp r;
    writer = ConnectionWriter.tcp w;
  }

  abbrev over_rfcomm : Active → BR → BW → Running t b
  over_rfcomm a r w = record {
    active = a;
    reader = ConnectionReader.rfcomm r;
    writer = ConnectionWriter.rfcomm w;
  }

  abbrev Outcome : Type 0
  Outcome = Running t b × Option (Reason D N)

  abbrev AreAlike : Outcome → Outcome → Type 0
  AreAlike out out' =
      (a : Active) × (ended : Option (Reason D N)) × (r : TR) × (w : TW) × (r' : BR) × (w' : BW)
      × (out ≡ (over_tcp a r w, ended))
      × (out' ≡ (over_rfcomm a r' w', ended))
      × same_r r r'
      × same_w w w'

  write_encoded-alike :
      (w : TW) (w' : BW) (x : Result (CodecError D N) (List ℕ))
      → same_w w w'
      → (v : TW) × (v' : BW) × (o : Option String) × (write_encoded t b (ConnectionWriter.tcp w) x
          ≡ (ConnectionWriter.tcp v, o))
        × (write_encoded t b (ConnectionWriter.rfcomm w') x ≡ (ConnectionWriter.rfcomm v', o))
        × same_w v v'
  write_encoded-alike w w' (ok buf) h =
      let (e, h') = alike.writes w w' buf h in
      (
        _,
        _,
        failure (t.write_all w buf).1,
        refl,
        ap (λ o. (ConnectionWriter.rfcomm (b.write_all w' buf).0, failure o)) (sym e),
        h',
      )
  write_encoded-alike w w' (err x) h = (w, w', none, refl, refl, h)

  round-alike :
      (a : Active) (r : TR) (w : TW) (r' : BR) (w' : BW) (x : Ready)
      → same_r r r'
      → same_w w w'
      → AreAlike
          (round t b p config (over_tcp a r w) x)
          (round t b p config (over_rfcomm a r' w') x)
  unfolding round
  round-alike a r w r' w' (beat_due uptime_ms now) hr hw =
      let seq = (a.sequence_id + 1) % 2 ^ 64 in
      let (v, v', o, q, q', hv) =
        write_encoded-alike w w' (encode p (heartbeat_envelope config seq uptime_ms now)) hw in
      let (a', ended) = handle_activity p config a (ticked uptime_ms now o) in
      (a', ended, r, v, r', v', rw q refl, rw q' refl, hr, hv)
  round-alike a r w r' w' (message_due envelope) hr hw =
      let (v, v', o, q, q', hv) = write_encoded-alike w w' (encode p envelope) hw in
      let (a', ended) = handle_activity p config a (outbound envelope o) in
      (a', ended, r, v, r', v', rw q refl, rw q' refl, hr, hv)
  round-alike a r w r' w' read_due hr hw =
      let (e, h) = alike.reads r r' hr in
      let (a', ended) = handle_activity p config a (read_activity (t.read r).1) in
      (a', ended, (t.read r).0, w, (b.read r').0, w', refl, rw (sym e) refl, h, hw)
  round-alike a r w r' w' read_late hr hw =
      let (a', ended) = handle_activity p config a read_timed_out in
      (a', ended, r, w, r', w', refl, refl, hr, hw)

  go_on : Outcome → List Ready → Outcome
  go_on (s, none) xs = rounds t b p config s xs
  go_on (s, some reason) xs = (s, some reason)

  rounds-go_on :
      (s : Running t b) (x : Ready) (xs : List Ready)
      → rounds t b p config s (x ∷ xs) ≡ go_on (round t b p config s x) xs
  unfolding rounds go_on
  rounds-go_on s x xs = ground arith

  onwards : {out out' : Outcome} (xs : List Ready) → out ≡ out' → go_on out xs ≡ go_on out' xs
  onwards xs h = ap (λ o. go_on o xs) h

  go_on-alike :
      (out out' : Outcome) (xs : List Ready)
      → ((a : Active) (r : TR) (w : TW) (r' : BR) (w' : BW)
          → same_r r r'
          → same_w w w'
          → AreAlike
              (rounds t b p config (over_tcp a r w) xs)
              (rounds t b p config (over_rfcomm a r' w') xs))
      → AreAlike out out'
      → AreAlike (go_on out xs) (go_on out' xs)
  unfolding go_on
  go_on-alike out out' xs later (a, none, r, w, r', w', q, q', hr, hw) =
      let (a1, e1, r1, w1, r1', w1', s, s', hr1, hw1) = later a r w r' w' hr hw in
      (a1, e1, r1, w1, r1', w1', onwards xs q ∙ s, onwards xs q' ∙ s', hr1, hw1)
  go_on-alike out out' xs later (a, some reason, r, w, r', w', q, q', hr, hw) =
      (a, some reason, r, w, r', w', onwards xs q, onwards xs q', hr, hw)

  rounds-alike :
      (xs : List Ready) (a : Active) (r : TR) (w : TW) (r' : BR) (w' : BW)
      → same_r r r'
      → same_w w w'
      → AreAlike
          (rounds t b p config (over_tcp a r w) xs)
          (rounds t b p config (over_rfcomm a r' w') xs)
  rounds-alike [] a r w r' w' hr hw = unfold rounds in (a, none, r, w, r', w', refl, refl, hr, hw)
  rounds-alike (x ∷ xs) a r w r' w' hr hw =
      rw (rounds-go_on (over_tcp a r w) x xs, rounds-go_on (over_rfcomm a r' w') x xs)
        (go_on-alike (round t b p config (over_tcp a r w) x)
          (round t b p config (over_rfcomm a r' w') x) xs (rounds-alike xs)
          (round-alike a r w r' w' x hr hw))

  -- Over a TCP socket and over an RFCOMM socket that answer alike, a connection writes, reports and
  -- counts the same, and ends for the same reason, whatever falls due.
  pub handle_stream-alike :
      (stream : T) (stream' : B) (sequence_id : ℕ) (xs : List Ready)
      → same stream stream'
      → let (over, ended) =
          handle_stream t b p config (ConnectionStream.tcp stream) sequence_id xs in
        let (over', ended') =
          handle_stream t b p config (ConnectionStream.rfcomm stream') sequence_id xs in
        (over.active ≡ over'.active) × (ended ≡ ended')
  unfolding handle_stream
  handle_stream-alike stream stream' sequence_id xs h =
      let (hr, hw) = alike.split stream stream' h in
      let (a, ended, r, w, r', w', q, q', _, _) =
        rounds-alike xs (opened sequence_id) (t.into_split stream).0 (t.into_split stream).1
          (b.into_split stream').0 (b.into_split stream').1 hr hw in
      (
        ap (λ (o : Outcome). o.0.active) q ∙ sym (ap (λ (o : Outcome). o.0.active) q'),
        ap (λ (o : Outcome). o.1) q ∙ sym (ap (λ (o : Outcome). o.1) q'),
      )
