-- ===== src/Codec/Stuck.antt =====
-- Bad input: an oversized length prefix, and a frame that does not decode.
use res_qterra_engine.Common.{
  ℕ, suc, ◌^◌, ◌≤◌, ◌<◌, ◌≡◌, ◌∙◌, List, [], ◌∷◌, ◌++◌, length, err, arith, length-append,
  append_assoc, append-nil, take-append, drop-append,
}
use res_qterra_engine.Codec.{
  Prost, u32_be, decode, decode_frame, consume, drain, deliver, max_message_size, invalid_length,
  decode_error,
}
use res_qterra_engine.Codec.Frame.{from_be-u32_be, decode_whole}
use res_qterra_engine.Codec.Stream.{holding, drain_err}
use res_qterra_engine.Codec.Chunks.{concat}

module _ {E D N : Type 0} (p : Prost E D N) where
  -- A length prefix above the maximum is refused with the length, and consumes nothing.
  pub decode_oversized :
      (n : ℕ) (body : List ℕ)
      → max_message_size < n
      → n < 2 ^ 32
      → decode p (u32_be n ++ body) ≡ (u32_be n ++ body, err (invalid_length n))
  unfolding decode decode_frame
  decode_oversized n body big word = rw (from_be-u32_be n body word) (ground arith)

  drain_oversized :
      (n : ℕ) (body : List ℕ)
      → max_message_size < n
      → n < 2 ^ 32
      → drain p (holding p (u32_be n ++ body)) ≡ ([], holding p (u32_be n ++ body))
  unfolding drain
  drain_oversized n body big word =
      drain_err p (suc (suc (suc (length body)))) (u32_be n ++ body) (u32_be n ++ body)
        (invalid_length n) (decode_oversized n body big word)

  -- Once the buffer begins with a length prefix above the maximum, no message is ever delivered
  -- again, whatever is read; all that is read piles up in the buffer.
  pub deliver_oversized :
      (n : ℕ) (body : List ℕ) (chunks : List (List ℕ))
      → max_message_size < n
      → n < 2 ^ 32
      → deliver p (record { buffer = u32_be n ++ body }) chunks
        ≡ ([], record { buffer = u32_be n ++ (body ++ concat chunks) })
  unfolding deliver
  deliver_oversized n body [] big word = rw append-nil
  deliver_oversized n body (c ∷ cs) big word = rw (
    drain_oversized n (body ++ c) big word,
    deliver_oversized n (body ++ c) cs big word,
    append_assoc body c (concat cs),
  )

  -- A frame whose body does not decode is consumed whole, so the next frame is met intact.
  pub decode_bad_body :
      (body rest : List ℕ) (x : D)
      → length body ≤ max_message_size
      → p.decode body ≡ err x
      → decode p (u32_be (length body) ++ (body ++ rest)) ≡ (rest, err (decode_error x))
  unfolding consume
  decode_bad_body body rest x small bad =
      decode_whole p (length body) (body ++ rest) small (omega (arith, length-append body rest))
      ∙ rw (consume, take-append body rest, bad, drop-append body rest)
