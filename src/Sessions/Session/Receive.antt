-- ===== src/Sessions/Session/Receive.antt =====
-- What `recv` returns from the bytes of a connection.
use res_qterra_engine.Common.{
  ℕ, ◌≤◌, ◌≡◌, refl, ap, ◌∙◌, List, [], ◌∷◌, ◌++◌, length, arith, append_assoc, append-split,
  dec_le,
}
use res_qterra_engine.Proto.{Envelope}
use res_qterra_engine.Codec.{Prost, IsProst, decode, extend}
use res_qterra_engine.Codec.Frame.{frame, decode-frame}
use res_qterra_engine.Codec.Stream.{frames, AllSound, Drained-partial}
use res_qterra_engine.Codec.Chunks.{concat}
use res_qterra_engine.Sessions.Session.{DroneSession, Received, message, accept, recv}
use res_qterra_engine.Sessions.Session.Rounds.{all_bytes, recv_ready, recv_more}

module _ {D N : Type 0} {p : Prost Envelope D N} (law : IsProst p) where
  -- `recv` has returned the first message and left the rest of the bytes.
  abbrev pub Returns :
      DroneSession → ℕ → Envelope → List Envelope → DroneSession × Received → Type 0
  Returns s now e es out =
      (buf : List ℕ) × (cs : List (List ℕ)) × (out
        ≡ (accept (record s { decoder = record { buffer = buf } }) now e, message e (all_bytes cs)))
      × (buf ++ concat cs ≡ frames law es)

  Returns-ready :
      (s : DroneSession) (now : ℕ) (chunks : List (List ℕ)) (e : Envelope) (es : List Envelope)
      → AllSound law (e ∷ es)
      → s.decoder.buffer ++ concat chunks ≡ frames law (e ∷ es)
      → length (frame law e) ≤ length s.decoder.buffer
      → Returns s now e es (recv p s now (all_bytes chunks))
  Returns-ready s now chunks e es fit whole there =
      let (b, cut, q) =
        append-split s.decoder.buffer (concat chunks) (frame law e) (frames law es) whole there in
      (
        b,
        chunks,
        recv_ready p s now (all_bytes chunks) b e (ap (decode p) cut ∙ decode-frame law e b fit.0),
        q,
      )

  -- If what a session holds and will read is the frames of some valid messages that fit, however
  -- they are cut into reads, `recv` returns the first of them, and leaves the frames of the others
  -- to the next calls.
  pub recv-frames :
      (s : DroneSession) (now : ℕ) (chunks : List (List ℕ)) (e : Envelope) (es : List Envelope)
      → AllSound law (e ∷ es)
      → s.decoder.buffer ++ concat chunks ≡ frames law (e ∷ es)
      → Returns s now e es (recv p s now (all_bytes chunks))
  recv-frames s now [] e es fit whole =
      elim (dec_le (length (frame law e)) (length s.decoder.buffer)) [
        | yes there ↦ Returns-ready s now [] e es fit whole there
        | no cut_short ↦
            absurd ((Drained-partial law e es s.decoder.buffer [] fit whole (omega arith)).1 refl)
      ]
  recv-frames s now (c ∷ cs) e es fit whole =
      elim (dec_le (length (frame law e)) (length s.decoder.buffer)) [
        | yes there ↦ Returns-ready s now (c ∷ cs) e es fit whole there
        | no cut_short ↦
            let waits =
              (Drained-partial law e es s.decoder.buffer (c ++ concat cs) fit whole
                (omega arith)).0 in
            let (buf, left, out, rest) =
              recv-frames (record s { decoder = extend s.decoder c }) now cs e es fit
                (append_assoc s.decoder.buffer c (concat cs) ∙ whole) in
            (buf, left, recv_more p s now c (all_bytes cs) waits ∙ out, rest)
      ]
