-- ===== src/Codec/Chunks.antt =====
-- Delivery does not depend on how the stream is cut into reads, and the drain loop ends by itself.
use res_qterra_engine.Common.{
  ℕ, zero, suc, ◌+◌, ◌≤◌, ◌≡◌, refl, sym, ap, ◌∙◌, ◌⊎◌, inl, inr, Option, none, some, List, [], ◌∷◌,
  ◌++◌, length, drop, Result, ok, err, arith, append-nil, append_assoc, length-drop,
}
use res_qterra_engine.Codec.{
  Prost, IsProst, CodecError, FrameDecoder, new_decoder, decode_next, extend, decode, drain,
  byte_at, from_be_bytes, drain_from, deliver, decode_frame, consume,
}
use res_qterra_engine.Codec.Stream.{
  frames, AllSound, Drained, drain-frames, holding, frames-nil, drain_zero, drain_none, drain_some,
  drain_err, decode-nil,
}

abbrev pub concat : List (List ℕ) → List ℕ
concat [] = []
concat (c ∷ cs) = c ++ concat cs

module _ {E D N : Type 0} {p : Prost E D N} (law : IsProst p) where
  deliver_from :
      (chunks : List (List ℕ)) (es : List E) (buf : List ℕ)
      → AllSound law es
      → buf ++ concat chunks ≡ frames law es
      → (concat chunks ≡ [] → es ≡ [])
      → deliver p (holding p buf) chunks ≡ (es, new_decoder)
  unfolding deliver
  deliver_from [] es buf fit whole last =
      let none_left = last refl in
      rw none_left (
        ap (λ (b : List ℕ). ([], record { buffer = b }))
          (sym (append-nil buf) ∙ whole ∙ ap (frames law) none_left))
  deliver_from (c ∷ cs) es buf fit whole last =
      let (later, split, left, done, fits) =
        drained (buf ++ c) (append_assoc buf c (concat cs) ∙ whole) in
      rw (deliver_from cs later (drain p (extend (holding p buf) c)).1.buffer fits left done)
        (ap (λ (xs : List E). (xs, new_decoder)) (sym split))
    where
      drained :
          (b : List ℕ)
          → b ++ concat cs ≡ frames law es
          → Drained law es (concat cs) (drain p (holding p b))
      drained b h = unfold drain in drain-frames law (length b) es b (concat cs) fit h (omega arith)

  -- Any valid messages that fit arrive whole and in order, whatever the reads into which the bytes
  -- of their frames are cut, and nothing is left in the decoder.
  pub deliver-frames :
      (es : List E) (chunks : List (List ℕ))
      → AllSound law es
      → concat chunks ≡ frames law es
      → deliver p new_decoder chunks ≡ (es, new_decoder)
  deliver-frames es chunks fit whole =
      deliver_from chunks es [] fit whole (λ z. frames-nil law es (sym z ∙ whole))

module _ {E D N : Type 0} (p : Prost E D N) where
  -- The finite runs of `while let Ok(Some(envelope)) = decoder.decode_next()`, without any fuel: what
  -- comes out, and the decoder that is left.
  pub data Drains : FrameDecoder → List E → FrameDecoder → Type 0 where
    goes_on :
        {d d' last : FrameDecoder} {e : E} {es : List E}
        → decode_next p d ≡ (d', ok (some e))
        → Drains d' es last
        → Drains d (e ∷ es) last
    waits : {d last : FrameDecoder} → decode_next p d ≡ (last, ok none) → Drains d [] last
    fails :
        {d last : FrameDecoder} (x : CodecError D N)
        → decode_next p d ≡ (last, err x)
        → Drains d [] last

  consume-rest : (body : List ℕ) (n : ℕ) → (consume p body n).0 ≡ drop n body
  unfolding consume
  consume-rest body n = ground arith

  -- A decoded message took at least its prefix from the buffer.
  decode_shrinks :
      (buf rest : List ℕ) (e : E)
      → decode p buf ≡ (rest, ok (some e))
      → length rest + 4 ≤ length buf
  unfolding decode decode_frame
  decode_shrinks buf rest e h =
      let n = from_be_bytes (byte_at buf 0) (byte_at buf 1) (byte_at buf 2) (byte_at buf 3) in
      ground (arith, consume-rest (drop 4 buf) n, length-drop 4 buf, length-drop n (drop 4 buf))

  abbrev Answer : List ℕ × Result (CodecError D N) (Option E) → Type 0
  Answer r =
      ((rest : List ℕ) × (e : E) × (r ≡ (rest, ok (some e))))
      ⊎ (((rest : List ℕ) × (r ≡ (rest, ok none)))
          ⊎ ((rest : List ℕ) × (x : CodecError D N) × (r ≡ (rest, err x))))

  Answer-cases : (r : List ℕ × Result (CodecError D N) (Option E)) → Answer r
  Answer-cases (rest, ok (some e)) = inl (rest, e, refl)
  Answer-cases (rest, ok none) = inr (inl (rest, refl))
  Answer-cases (rest, err x) = inr (inr (rest, x, refl))

  decode_next-decode :
      (buf rest : List ℕ) (r : Result (CodecError D N) (Option E))
      → decode p buf ≡ (rest, r)
      → decode_next p (holding p buf) ≡ (holding p rest, r)
  unfolding decode_next
  decode_next-decode buf rest r h = ground (arith, h)

  drain_from-Drains :
      (f : ℕ) (buf : List ℕ)
      → length buf ≤ f
      → Drains (holding p buf) (drain_from p f (holding p buf)).0 (drain_from p f (holding p buf)).1
  drain_from-Drains zero [] enough =
      rw (drain_zero p (holding p [])) (waits (decode_next-decode [] [] (ok none) (decode-nil p)))
  drain_from-Drains zero (b ∷ buf) enough = absurd (omega arith)
  drain_from-Drains (suc f) buf enough = elim (Answer-cases (decode p buf)) [
    | inl (rest, e, h) ↦
        let less = decode_shrinks buf rest e h in
        rw (drain_some p f buf rest e h) (
          goes_on (decode_next-decode buf rest (ok (some e)) h)
            (drain_from-Drains f rest (omega arith)))
    | inr (inl (rest, h)) ↦
        rw (drain_none p f buf rest h) (waits (decode_next-decode buf rest (ok none) h))
    | inr (inr (rest, x, h)) ↦
        rw (drain_err p f buf rest x h) (fails x (decode_next-decode buf rest (err x) h))
  ]

  -- Whatever bytes the decoder holds, the loop ends by its own test after finitely many rounds, and
  -- `drain` gives the messages that it delivers and the decoder that it leaves.
  pub drain-Drains : (d : FrameDecoder) → Drains d (drain p d).0 (drain p d).1
  unfolding drain
  drain-Drains d = drain_from-Drains (length d.buffer) d.buffer (omega arith)
