-- ===== src/Codec/Frame.antt =====
-- One frame: what is written is read back, from a buffer that holds it whole and no less.
use res_qterra_engine.Common.{
  ℕ, ◌+◌, ◌%◌, ◌^◌, ◌≤◌, ◌<◌, ◌≡◌, refl, sym, ap, ◌∙◌, ◌≢◌, none, some, false, List, [], ◌∷◌, ◌++◌,
  length, ltb, ok, err, arith, subst, length-append, take-append, drop-append, append_assoc,
  append-split, lt→ltb, dec_lt,
}
use res_qterra_engine.Codec.{
  Prost, IsProst, max_message_size, u32_be, byte_at, from_be_bytes, encode, encode_into,
  write_message, finish_encode, consume, decode_frame, decode, message_too_large,
}

-- The four bytes of a length below 2 ^ 32, and the rest of the buffer behind them.
pub from_be-u32_be :
    (n : ℕ) (rest : List ℕ)
    → n < 2 ^ 32
    → let buf = u32_be n ++ rest in
      from_be_bytes (byte_at buf 0) (byte_at buf 1) (byte_at buf 2) (byte_at buf 3) ≡ n
from_be-u32_be n rest h = omega arith

length-cut :
    {n : ℕ} (s rest whole : List ℕ)
    → s ++ rest ≡ whole
    → rest ≢ []
    → length whole ≡ n
    → length s < n
length-cut s [] whole e more h = absurd (more refl)
length-cut s (r ∷ rest) whole e more h =
    omega (arith, length-append s (r ∷ rest), ap (length {A = ℕ}) e)

module _ {E D N : Type 0} (p : Prost E D N) where
  -- A buffer that begins with the length `n`, when the body is there.
  pub decode_whole :
      (n : ℕ) (body : List ℕ)
      → n ≤ max_message_size
      → n ≤ length body
      → decode p (u32_be n ++ body) ≡ consume p body n
  unfolding decode decode_frame
  decode_whole n body small there = rw (from_be-u32_be n body (omega arith)) (ground arith)

  decode_short :
      (n : ℕ) (body : List ℕ)
      → n ≤ max_message_size
      → length body < n
      → decode p (u32_be n ++ body) ≡ (u32_be n ++ body, ok none)
  unfolding decode decode_frame
  decode_short n body small there = rw (from_be-u32_be n body (omega arith)) (ground arith)

module _ {E D N : Type 0} {p : Prost E D N} (law : IsProst p) where
  open law use {wire, length-wire, encode_appends, decode-wire}

  -- The frame of a message: the length prefix, and the wire form.
  abbrev pub frame : E → List ℕ
  frame e = u32_be (p.encoded_len e) ++ wire e

  abbrev pub Fits : E → Type 0
  Fits e = p.encoded_len e ≤ max_message_size

  -- A message that can be sent and read back.
  abbrev pub Sound : E → Type 0
  Sound e = Fits e × law.Valid e

  pub length-frame : (e : E) → length (frame e) ≡ 4 + p.encoded_len e
  length-frame e = omega (arith, length-wire e)

  low_word : (e : E) → Fits e → p.encoded_len e % 2 ^ 32 ≡ p.encoded_len e
  low_word e fits = omega arith

  not_too_large : (e : E) → Fits e → ltb max_message_size (p.encoded_len e) ≡ false
  not_too_large e fits = ground arith

  write_message-frame :
      (e : E) (buf : List ℕ)
      → Fits e
      → length buf + 4 + p.encoded_len e < 2 ^ 64
      → write_message p e buf ≡ (buf ++ frame e, ok tt)
  unfolding write_message
  write_message-frame e buf fits room = rw (
    low_word e fits,
    write_message,
    encode_appends e (buf ++ u32_be (p.encoded_len e))
        (omega (arith, length-append buf (u32_be (p.encoded_len e)))),
    append_assoc buf (u32_be (p.encoded_len e)) (wire e),
  )

  -- A message that fits is appended to the buffer as one frame, if the buffer has room for it.
  pub encode_into-frame :
      (e : E) (buf : List ℕ)
      → Fits e
      → length buf + 4 + p.encoded_len e < 2 ^ 64
      → encode_into p e buf ≡ (buf ++ frame e, ok tt)
  unfolding encode_into
  encode_into-frame e buf fits room =
      rw (not_too_large e fits) (write_message-frame e buf fits room)

  -- A message that does not fit is refused with its length, and nothing is written.
  pub encode_too_large :
      (e : E) (buf : List ℕ)
      → max_message_size < p.encoded_len e
      → (encode_into p e buf ≡ (buf, err (message_too_large (p.encoded_len e))))
        × (encode p e ≡ err (message_too_large (p.encoded_len e)))
  unfolding encode_into encode
  encode_too_large e buf big = ground arith

  pub encode-frame : (e : E) → Fits e → encode p e ≡ ok (frame e)
  unfolding encode finish_encode
  encode-frame e fits = rw (not_too_large e fits, write_message-frame e [] fits (omega arith))

  -- The decoder reads the first frame of a buffer, of a valid message that fits, and leaves what
  -- stands behind it.
  pub decode-frame :
      (e : E) (rest : List ℕ) → Sound e → decode p (frame e ++ rest) ≡ (rest, ok (some e))
  unfolding consume
  decode-frame e rest (fits, valid) =
      decode_whole p (p.encoded_len e) (wire e ++ rest) fits
        (omega (arith, length-wire e, length-append (wire e) rest))
      ∙ subst (λ k. consume p (wire e ++ rest) k ≡ (rest, ok (some e))) (length-wire e)
          (rw (consume, take-append (wire e) rest, decode-wire e valid, drop-append (wire e) rest))

  -- A frame cut short is left in the buffer, and more data is asked for.
  pub decode_partial :
      (e : E) (start rest : List ℕ)
      → Fits e
      → start ++ rest ≡ frame e
      → rest ≢ []
      → decode p start ≡ (start, ok none)
  unfolding decode
  decode_partial e start rest fits whole more = elim (dec_lt (length start) 4) [
    | yes few ↦ rw (lt→ltb (length start) 4 few)
    | no enough ↦
        let (s, cut, q) =
          append-split start rest (u32_be (p.encoded_len e)) (wire e) whole (omega arith) in
        subst (λ b. decode p b ≡ (b, ok none)) (sym cut)
          (decode_short p (p.encoded_len e) s fits
            (length-cut s rest (wire e) q more (length-wire e)))
  ]
