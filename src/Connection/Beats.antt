-- ===== src/Connection/Beats.antt =====
-- A serialiser that knows one kind of message, the heartbeats of the edge that
-- src/connection/manager.rs sends: the theorems' concrete case.
use res_qterra_engine.Common.{
  ℕ, ◌≡◌, refl, Option, some, List, [], ◌∷◌, ◌++◌, length, Result, ok, err,
}
use res_qterra_engine.Proto.{Envelope, Header, Payload, heartbeat}
use res_qterra_engine.Codec.{Prost, IsProst}
use res_qterra_engine.Connection.{default_config}
use res_qterra_engine.Connection.Active.{heartbeat_envelope}

-- The numbers of a heartbeat of the edge; other messages have an empty wire form.
abbrev numbers : Option Header → Option Payload → List ℕ
numbers (some h) (some (heartbeat b)) = h.sequence_id ∷ b.uptime_ms ∷ h.timestamp_ms ∷ []
numbers _ _ = []

abbrev pub beat_bytes : Envelope → List ℕ
beat_bytes e = numbers e.header e.payload

abbrev pub beat_of : List ℕ → Result (Unit {0}) Envelope
beat_of (s ∷ u ∷ n ∷ []) = ok (heartbeat_envelope default_config s u n)
beat_of _ = err tt

abbrev pub beats : Prost Envelope Unit Unit
beats = record {
  encoded_len = λ e. length (beat_bytes e);
  encode = λ e buf. ok (buf ++ beat_bytes e);
  decode = beat_of;
}

abbrev IsBeat : Envelope → Type 0
IsBeat e = (s : ℕ) × (u : ℕ) × (n : ℕ) × (e ≡ heartbeat_envelope default_config s u n)

read_back : (e : Envelope) → IsBeat e → beat_of (beat_bytes e) ≡ ok e
read_back e (s, u, n, q) = rw q refl

unfoldable pub beats-IsProst : IsProst beats
unfolding read_back
beats-IsProst = record {
  Valid = IsBeat;
  length-wire = λ e. refl;
  wire = beat_bytes;
  encode_appends = λ e buf h. refl;
  decode-wire = read_back;
}
