-- ===== src/Connection/Active/Sending.antt =====
-- What a connection sends, and what its peer makes of it.
use res_qterra_engine.Common.{
  ℕ, ◌+◌, ◌%◌, ◌^◌, ◌≡◌, refl, ap, sym, ◌∙◌, Option, none, some, List, [], ◌∷◌, ◌++◌, Result, ok,
  err, append_assoc, append-nil, subst, arith, dec_le, ◌≢◌, String, All,
}
use res_qterra_engine.Proto.{Envelope}
use res_qterra_engine.Codec.{
  Prost, IsProst, new_decoder, deliver, encode, max_message_size, CodecError,
}
use res_qterra_engine.Codec.Frame.{frame, Fits, encode-frame, encode_too_large}
use res_qterra_engine.Codec.Stream.{frames, AllSound}
use res_qterra_engine.Codec.Chunks.{concat, deliver-frames}
use res_qterra_engine.Connection.{ConnectionConfig}
use res_qterra_engine.Connection.Active.{
  Activity, ticked, outbound, chunk, read_closed, read_failed, read_timed_out, Active, opened,
  Reason, server_closed, read_error, write_envelope, handle_activity, handle_connection,
  finish_write, heartbeat_envelope,
}
use res_qterra_engine.Connection.Active.Delivery.{rest_open, nothing_left}

-- The messages that a run sends: the heartbeats, numbered on from the counter, and the outbound
-- messages.
abbrev pub sent : ConnectionConfig → ℕ → List Activity → List Envelope
sent config seq [] = []
sent config seq (ticked uptime_ms now o ∷ xs) =
    let next = (seq + 1) % 2 ^ 64 in
    heartbeat_envelope config next uptime_ms now ∷ sent config next xs
sent config seq (outbound e o ∷ xs) = e ∷ sent config seq xs
sent config seq (_ ∷ xs) = sent config seq xs

ok_eq : {X A : Type 0} {a b : A} → ◌≡◌ {A = Result X A} (ok a) (ok b) → a ≡ b
ok_eq h = cc

clash : {X A : Type 0} {a : A} {x : X} → ◌≡◌ {A = Result X A} (ok a) (err x) → ⊥
clash h = cc

module _ {D N : Type 0} {p : Prost Envelope D N} (law : IsProst p) where
  encode-Fits :
      (e : Envelope) (bytes : List ℕ) → encode p e ≡ ok bytes → Fits law e × (bytes ≡ frame law e)
  encode-Fits e bytes h = elim (dec_le (p.encoded_len e) max_message_size) [
    | yes fits ↦ (fits, ok_eq (sym h ∙ encode-frame law e fits))
    | no big ↦ absurd (clash (sym h ∙ (encode_too_large law e [] (omega arith)).1))
  ]

  encoded :
      (a : Active) (e : Envelope) (bytes : List ℕ) (o : Option String)
      → encode p e ≡ ok bytes
      → write_envelope p a e o ≡ finish_write p a bytes o
  unfolding write_envelope
  encoded a e bytes o q = rw (write_envelope, q) refl

  refused_text :
      (a : Active) (e : Envelope) (x : CodecError D N) (o : Option String)
      → encode p e ≡ err x
      → (write_envelope p a e o).1 ≢ none
  unfolding write_envelope
  refused_text a e x o q = rw (write_envelope, q) (λ h. cc)

  cut_off : (a : Active) (bytes : List ℕ) (x : String) → (finish_write p a bytes (some x)).1 ≢ none
  unfolding finish_write
  cut_off a bytes x h = cc

  written_out :
      (a : Active) (bytes : List ℕ)
      → (finish_write p a bytes none).0 ≡ record a { written = a.written ++ bytes }
  unfolding finish_write
  written_out a bytes = refl

  -- A write that leaves the connection open has written one frame, of a message that fits.
  write_envelope-frame :
      (a : Active) (e : Envelope) (o : Option String)
      → (write_envelope p a e o).1 ≡ none
      → Fits law e × ((write_envelope p a e o).0 ≡ record a { written = a.written ++ frame law e })
  write_envelope-frame a e o h = by_result (encode p e) refl o h
    where
      by_result :
          (r : Result (CodecError D N) (List ℕ))
          → encode p e ≡ r
          → (o : Option String) → (write_envelope p a e o).1 ≡ none
          → Fits law e
            × ((write_envelope p a e o).0 ≡ record a { written = a.written ++ frame law e })
      by_result (err x) q o h = absurd (refused_text a e x o q h)
      by_result (ok bytes) q (some x) h =
          absurd (cut_off a bytes x (sym (ap (λ r. r.1) (encoded a e bytes (some x) q)) ∙ h))
      by_result (ok bytes) q none h =
          let (fits, same) = encode-Fits e bytes q in
          (fits, rw (encoded a e bytes none q, written_out a bytes, same))

module _ {D N : Type 0} {p : Prost Envelope D N} (law : IsProst p) (config : ConnectionConfig) where
  -- What a run that ends open has written.
  abbrev Writes : Active → List Envelope → Active → Type 0
  Writes a es last = All (Fits law) es × (last.written ≡ a.written ++ frames law es)

  Writes-more :
      (a b last : Active) (e : Envelope) (es : List Envelope)
      → Fits law e
      → b.written ≡ a.written ++ frame law e
      → Writes b es last
      → Writes a (e ∷ es) last
  Writes-more a b last e es fits more (fit, rest) = (
    (fits, fit),
    rest ∙ ap (λ w. w ++ frames law es) more ∙ append_assoc a.written (frame law e) (frames law es),
  )

  Writes-step :
      (a last : Active) (e : Envelope) (o : Option String) (xs : List Activity)
      → (write_envelope p a e o).1 ≡ none
      → Writes
          (write_envelope p a e o).0
          (sent config (write_envelope p a e o).0.sequence_id xs)
          last
      → Writes a (e ∷ sent config a.sequence_id xs) last
  Writes-step a last e o xs still later =
      let (fits, w) = write_envelope-frame law a e o still in
      Writes-more a (write_envelope p a e o).0 last e (sent config a.sequence_id xs) fits
        (ap (λ r. r.written) w)
        (subst (λ s. Writes (write_envelope p a e o).0 (sent config s xs) last)
          (ap (λ r. r.sequence_id) w) later)

  closed : ◌≡◌ {A = Option (Reason D N)} (some server_closed) none → ⊥
  closed h = cc

  failed : (e : String) → ◌≡◌ {A = Option (Reason D N)} (some (read_error e)) none → ⊥
  failed e h = cc

  handle_connection-Writes :
      (a last : Active) (xs : List Activity)
      → handle_connection p config a xs ≡ (last, none)
      → Writes a (sent config a.sequence_id xs) last
  unfolding handle_activity
  handle_connection-Writes a last [] h =
      (tt, ap (λ r. r.written) (nothing_left p config a last h) ∙ sym (append-nil a.written))
  handle_connection-Writes a last (ticked up now o ∷ xs) h =
      let (still, rest) = rest_open p config a last (ticked up now o) xs h in
      Writes-step (record a { sequence_id = (a.sequence_id + 1) % 2 ^ 64 }) last
        (heartbeat_envelope config ((a.sequence_id + 1) % 2 ^ 64) up now) o xs still
        (handle_connection-Writes (handle_activity p config a (ticked up now o)).0 last xs rest)
  handle_connection-Writes a last (outbound e o ∷ xs) h =
      let (still, rest) = rest_open p config a last (outbound e o) xs h in
      Writes-step a last e o xs still
        (handle_connection-Writes (handle_activity p config a (outbound e o)).0 last xs rest)
  handle_connection-Writes a last (chunk bytes ∷ xs) h =
      handle_connection-Writes (handle_activity p config a (chunk bytes)).0 last xs
        (rest_open p config a last (chunk bytes) xs h).1
  handle_connection-Writes a last (read_closed ∷ xs) h =
      absurd (closed (rest_open p config a last read_closed xs h).0)
  handle_connection-Writes a last (read_failed e ∷ xs) h =
      absurd (failed e (rest_open p config a last (read_failed e) xs h).0)
  handle_connection-Writes a last (read_timed_out ∷ xs) h =
      handle_connection-Writes a last xs (rest_open p config a last read_timed_out xs h).1

  sound : (es : List Envelope) → All (Fits law) es → All law.Valid es → AllSound law es
  sound [] fit valid = tt
  sound (e ∷ es) (f, fit) (v, valid) = ((f, v), sound es fit valid)

  -- What an open connection has written is the frames of what it sent.
  pub written-frames :
      (sequence_id : ℕ) (xs : List Activity) (last : Active)
      → All law.Valid (sent config sequence_id xs)
      → handle_connection p config (opened sequence_id) xs ≡ (last, none)
      → AllSound law (sent config sequence_id xs)
        × (last.written ≡ frames law (sent config sequence_id xs))
  written-frames sequence_id xs last valid up =
      let (fit, whole) = handle_connection-Writes (opened sequence_id) last xs up in
      (sound (sent config sequence_id xs) fit valid, whole)

  -- While a connection is open since its start, its peer decodes from the bytes written, however
  -- they are cut, exactly the messages sent, in order, heartbeats included, and nothing is left
  -- over, as long as these messages are valid. The heartbeats are numbered on from the counter,
  -- modulo 2 ^ 64.
  pub deliver-written :
      (sequence_id : ℕ) (xs : List Activity) (last : Active) (chunks : List (List ℕ))
      → All law.Valid (sent config sequence_id xs)
      → handle_connection p config (opened sequence_id) xs ≡ (last, none)
      → concat chunks ≡ last.written
      → deliver p new_decoder chunks ≡ (sent config sequence_id xs, new_decoder)
  deliver-written sequence_id xs last chunks valid up cut =
      let (fits, whole) = written-frames sequence_id xs last valid up in
      deliver-frames law (sent config sequence_id xs) chunks fits (cut ∙ whole)
