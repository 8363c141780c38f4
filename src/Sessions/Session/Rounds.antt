-- ===== src/Sessions/Session/Rounds.antt =====
-- The rounds of `recv`, by what the decoder answers.
use res_qterra_engine.Common.{ℕ, ◌≡◌, refl, none, some, List, [], ◌∷◌, ok}
use res_qterra_engine.Proto.{Envelope}
use res_qterra_engine.Codec.{Prost, decode, decode_next, extend}
use res_qterra_engine.Sessions.Session.{
  DroneSession, Read, bytes, end_of_stream, read_failed, message, closed, accept, recv,
  after_decode,
}

-- The reads of a connection that is up.
abbrev pub all_bytes : List (List ℕ) → List Read
all_bytes [] = []
all_bytes (c ∷ cs) = bytes c ∷ all_bytes cs

-- The reads of a connection that closes after some bytes.
abbrev pub then_closed : List (List ℕ) → List Read
then_closed [] = end_of_stream ∷ []
then_closed (c ∷ cs) = bytes c ∷ then_closed cs

abbrev pub buffering : DroneSession → List ℕ → DroneSession
buffering s buf = record s { decoder = record { buffer = buf } }

module _ {D N : Type 0} (p : Prost Envelope D N) where
  pub recv_ready :
      (s : DroneSession) (now : ℕ) (reads : List Read) (buf : List ℕ) (e : Envelope)
      → decode p s.decoder.buffer ≡ (buf, ok (some e))
      → recv p s now reads ≡ (accept (buffering s buf) now e, message e reads)
  unfolding recv decode_next after_decode
  recv_ready s now [] buf e h = rw h refl
  recv_ready s now (bytes c ∷ reads) buf e h = rw h refl
  recv_ready s now (end_of_stream ∷ reads) buf e h = rw h refl
  recv_ready s now (read_failed ∷ reads) buf e h = rw h refl

  pub recv_more :
      (s : DroneSession) (now : ℕ) (c : List ℕ) (reads : List Read)
      → decode p s.decoder.buffer ≡ (s.decoder.buffer, ok none)
      → recv p s now (bytes c ∷ reads)
        ≡ recv p (record s { decoder = extend s.decoder c }) now reads
  unfolding recv decode_next after_decode
  recv_more s now c reads h = rw h refl

  pub recv-closed :
      (s : DroneSession) (now : ℕ) (reads : List Read)
      → decode p s.decoder.buffer ≡ (s.decoder.buffer, ok none)
      → recv p s now (end_of_stream ∷ reads) ≡ (s, closed)
  unfolding recv decode_next after_decode
  recv-closed s now reads h = rw h refl
