-- ===== src/Codec/Encoder.antt =====
-- `FrameEncoder`: what many messages leave in its output, and what a decoder makes of it.
use res_qterra_engine.Common.{
  ℕ, ◌+◌, ◌^◌, ◌<◌, ◌≡◌, sym, ap, ◌∙◌, List, [], ◌∷◌, ◌++◌, map, Bool, All, length, length-append,
  Result, ok, err, ltb, if◌then◌else◌, append_assoc, append-nil, arith, Bool-cases, ltb→lt, inl,
  inr,
}
use res_qterra_engine.Codec.{
  Prost, IsProst, CodecError, message_too_large, max_message_size, FrameEncoder, new_encoder,
  encode_frame, encode_into, take_output, new_decoder, deliver,
}
use res_qterra_engine.Codec.Frame.{frame, Fits, encode_into-frame, encode_too_large, length-frame}
use res_qterra_engine.Codec.Stream.{frames, AllSound}
use res_qterra_engine.Codec.Chunks.{concat, deliver-frames}

module _ {E D N : Type 0} (p : Prost E D N) where
  -- One message after the other, with the results.
  unfoldable pub encode_all :
      FrameEncoder → List E → FrameEncoder × List (Result (CodecError D N) (Unit {0}))
  unfolding encode_frame
  encode_all enc [] = (enc, [])
  encode_all enc (e ∷ es) =
      let (enc', r) = encode_frame p enc e in let (last, rs) = encode_all enc' es in (last, r ∷ rs)

  abbrev pub is_too_large : E → Bool
  is_too_large e = ltb max_message_size (p.encoded_len e)

  abbrev pub fitting : List E → List E
  fitting [] = []
  fitting (e ∷ es) = let rest = fitting es in if is_too_large e then rest else e ∷ rest

  -- Why a message is refused, or that it is not.
  abbrev pub verdict : E → Result (CodecError D N) (Unit {0})
  verdict e = if is_too_large e then err (message_too_large (p.encoded_len e)) else ok tt

module _ {E D N : Type 0} {p : Prost E D N} (law : IsProst p) where
  after_first :
      (enc enc' : FrameEncoder) (e : E) (es : List E) (r : Result (CodecError D N) (Unit {0}))
      → encode_into p e enc.output ≡ (enc'.output, r)
      → encode_all p enc (e ∷ es) ≡ ((encode_all p enc' es).0, r ∷ (encode_all p enc' es).1)
  unfolding encode_all encode_frame
  after_first enc enc' e es r h =
      ap
        (λ (q : List ℕ × Result (CodecError D N) (Unit {0})).
          let rest = encode_all p (record { output = q.0 }) es in (rest.0, q.1 ∷ rest.1))
        h

  abbrev Run : Type 0
  Run = FrameEncoder × List (Result (CodecError D N) (Unit {0}))

  encode_all-frames :
      (enc : FrameEncoder) (es : List E)
      → length enc.output + length (frames law (fitting p es)) < 2 ^ 64
      → encode_all p enc es
        ≡ (record { output = enc.output ++ frames law (fitting p es) }, map (verdict p) es)
  encode_all-frames enc [] room =
      unfold encode_all in ap (λ l. (record { output = l }, [])) (sym (append-nil enc.output))
  encode_all-frames enc (e ∷ es) room = elim (Bool-cases (is_too_large p e)) [
    | inl big ↦ rw big (
        after_first enc enc e es _ (encode_too_large law e enc.output (ltb→lt _ _ big)).0
        ∙ ap (λ (q : Run). (q.0, err (message_too_large (p.encoded_len e)) ∷ q.1))
            (encode_all-frames enc es (rw big at room)))
    | inr small ↦
        let fits : Fits law e = ground arith in
        let more : length enc.output + length (frame law e ++ frames law (fitting p es)) < 2 ^ 64 =
          rw small at room in
        let enc' : FrameEncoder = record { output = enc.output ++ frame law e } in
        rw small (
          after_first enc enc' e es (ok tt) (
            encode_into-frame law e enc.output fits (
              omega (
                arith,
                length-append (frame law e) (frames law (fitting p es)),
                length-frame law e,
              )))
          ∙ ap (λ (q : Run). (q.0, ok tt ∷ q.1))
              (encode_all-frames enc' es (
                omega (
                  arith,
                  length-append (frame law e) (frames law (fitting p es)),
                  length-append enc.output (frame law e),
                )))
          ∙ ap (λ l. (record { output = l }, ok tt ∷ map (verdict p) es))
              (append_assoc enc.output (frame law e) _))
  ]

  fitting-AllSound : (es : List E) → All law.Valid es → AllSound law (fitting p es)
  fitting-AllSound [] valid = tt
  fitting-AllSound (e ∷ es) (v, valid) = elim (Bool-cases (is_too_large p e)) [
    | inl big ↦ rw big (fitting-AllSound es valid)
    | inr small ↦
        let fits : Fits law e = ground arith in rw small ((fits, v), fitting-AllSound es valid)
  ]

  -- An encoder that is given some valid messages refuses the too large ones, each with its length,
  -- and leaves no trace of them: the bytes taken from it, however they are cut into reads, are decoded
  -- to exactly the others, in order, and nothing is left, as long as there is room for their frames.
  pub encode_all-delivers :
      (es : List E) (chunks : List (List ℕ))
      → All law.Valid es
      → length (frames law (fitting p es)) < 2 ^ 64
      → let (enc, results) = encode_all p new_encoder es in
        concat chunks ≡ (take_output enc).0
        → (results ≡ map (verdict p) es)
          × (deliver p new_decoder chunks ≡ (fitting p es, new_decoder))
  encode_all-delivers es chunks valid room cut =
      let run = encode_all-frames new_encoder es (omega arith) in
      (
        ap (λ (q : Run). q.1) run,
        deliver-frames law (fitting p es) chunks (fitting-AllSound es valid)
            (cut ∙ ap (λ (q : Run). q.0.output) run),
      )
