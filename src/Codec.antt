-- ===== src/Codec.antt =====
-- shared/src/codec.rs: length-prefixed frames over a byte stream. A `BytesMut` is the list of its
-- bytes, and a function that takes `&mut BytesMut` returns the new buffer with its result.
pub mod Frame
pub mod Stream
pub mod Chunks
pub mod Stuck
pub mod Encoder
mod Tests
mod UnitTests
use res_qterra_engine.Common.{
  ℕ, zero, suc, ◌+◌, ◌*◌, ◌/◌, ◌%◌, ◌^◌, ◌≤◌, ◌<◌, ◌≡◌, Option, none, some, Bool, List, [], ◌∷◌,
  ◌++◌, length, take, drop, ltb, ◌==◌, if◌then◌else◌, Result, ok, err,
}

-- The serialiser that `prost` generates for messages `E`, with its decode errors `D` and encode
-- errors `N`. `encode` appends to a buffer.
pub record Prost (E D N : Type 0) : Type 0 where
  pub encoded_len : E → ℕ
  pub encode : E → List ℕ → Result N (List ℕ)
  pub decode : List ℕ → Result D E

-- What the codec relies on: a message has a wire form of the length announced, which `encode`
-- appends if the buffer has room for it below `usize::MAX`, and which `decode` reads back if the
-- message is valid, that is, if its fields lie in the ranges of their types.
pub record IsProst {E D N : Type 0} (p : Prost E D N) : Type 1 where
  pub Valid : E → Type 0
  pub wire : E → List ℕ
  pub length-wire : (e : E) → length (wire e) ≡ p.encoded_len e
  pub encode_appends :
      (e : E) (buf : List ℕ)
      → length buf + p.encoded_len e < 2 ^ 64
      → p.encode e buf ≡ ok (buf ++ wire e)
  pub decode-wire : (e : E) → Valid e → p.decode (wire e) ≡ ok e

pub data CodecError (D N : Type 0) : Type 0 where
  message_too_large : ℕ → CodecError D N
  invalid_length : ℕ → CodecError D N
  not_enough_data : ℕ → ℕ → CodecError D N
  decode_error : D → CodecError D N
  encode_error : N → CodecError D N

-- 10 * 1024 * 1024.
abbrev pub max_message_size : ℕ
max_message_size = 10485760

abbrev pub u32_be : ℕ → List ℕ
u32_be n = n / 2 ^ 24 % 256 ∷ n / 2 ^ 16 % 256 ∷ n / 2 ^ 8 % 256 ∷ n % 256 ∷ []

abbrev pub byte_at : List ℕ → ℕ → ℕ
byte_at [] i = 0
byte_at (b ∷ bs) zero = b
byte_at (b ∷ bs) (suc i) = byte_at bs i

abbrev pub from_be_bytes : ℕ → ℕ → ℕ → ℕ → ℕ
from_be_bytes a b c d = a * 2 ^ 24 + b * 2 ^ 16 + c * 2 ^ 8 + d

module _ {E D N : Type 0} (p : Prost E D N) where
  -- `encode` and `encode_into` after the size check: the prefix is written, then the message.
  write_message : E → List ℕ → List ℕ × Result (CodecError D N) (Unit {0})
  write_message e buf =
      let prefixed = buf ++ u32_be (p.encoded_len e % 2 ^ 32) in
      elim (p.encode e prefixed) [
        | ok written ↦ (written, ok tt)
        | err failure ↦ (prefixed, err (encode_error failure))
      ]

  unfoldable pub encode_into : E → List ℕ → List ℕ × Result (CodecError D N) (Unit {0})
  unfolding write_message
  encode_into e buf =
      if ltb max_message_size (p.encoded_len e)
      then (buf, err (message_too_large (p.encoded_len e)))
      else write_message e buf

  finish_encode : List ℕ × Result (CodecError D N) (Unit {0}) → Result (CodecError D N) (List ℕ)
  finish_encode (written, ok _) = ok written
  finish_encode (written, err failure) = err failure

  -- `encode` is `encode_into` a buffer of its own, which an error drops.
  unfoldable pub encode : E → Result (CodecError D N) (List ℕ)
  unfolding finish_encode encode_into
  encode e =
      if ltb max_message_size (p.encoded_len e)
      then err (message_too_large (p.encoded_len e))
      else finish_encode (write_message e [])

  -- The last part of `decode`: prefix and message are consumed before the message is decoded.
  unfoldable pub consume : List ℕ → ℕ → List ℕ × Result (CodecError D N) (Option E)
  consume body msg_len = elim (p.decode (take msg_len body)) [
    | ok envelope ↦ (drop msg_len body, ok (some envelope))
    | err failure ↦ (drop msg_len body, err (decode_error failure))
  ]

  decode_frame : List ℕ → ℕ → List ℕ × Result (CodecError D N) (Option E)
  unfolding consume
  decode_frame buf msg_len =
      if ltb max_message_size msg_len
      then (buf, err (invalid_length msg_len))
      else if ltb (length buf) (4 + msg_len)
      then (buf, ok none)
      else consume (drop 4 buf) msg_len

  unfoldable pub decode : List ℕ → List ℕ × Result (CodecError D N) (Option E)
  unfolding decode_frame
  decode buf =
      if ltb (length buf) 4
      then (buf, ok none)
      else decode_frame buf
          (from_be_bytes (byte_at buf 0) (byte_at buf 1) (byte_at buf 2) (byte_at buf 3))

-- The streaming decoder: its buffer.
pub record FrameDecoder : Type 0 where
  pub buffer : List ℕ

abbrev pub new_decoder : FrameDecoder
new_decoder = record { buffer = [] }

abbrev pub extend : FrameDecoder → List ℕ → FrameDecoder
extend d bytes = record { buffer = d.buffer ++ bytes }

abbrev pub buffer_len : FrameDecoder → ℕ
buffer_len d = length d.buffer

-- The encoder of frames: its output buffer.
pub record FrameEncoder : Type 0 where
  pub output : List ℕ

abbrev pub new_encoder : FrameEncoder
new_encoder = record { output = [] }

abbrev pub take_output : FrameEncoder → List ℕ × FrameEncoder
take_output enc = (enc.output, new_encoder)

abbrev pub is_empty : FrameEncoder → Bool
is_empty enc = length enc.output == 0

module _ {E D N : Type 0} (p : Prost E D N) where
  unfoldable pub decode_next : FrameDecoder → FrameDecoder × Result (CodecError D N) (Option E)
  unfolding decode
  decode_next d = let (rest, r) = decode p d.buffer in (record { buffer = rest }, r)

  unfoldable pub encode_frame : FrameEncoder → E → FrameEncoder × Result (CodecError D N) (Unit {0})
  unfolding encode_into
  encode_frame enc e = let (out, r) = encode_into p e enc.output in (record { output = out }, r)

  -- `while let Ok(Some(envelope)) = decoder.decode_next()`: the envelopes that come out, in order.
  -- Each round consumes a prefix of four bytes, so the length of the buffer is fuel enough.
  unfoldable pub drain_from : ℕ → FrameDecoder → List E × FrameDecoder
  unfolding decode_next
  drain_from zero d = ([], d)
  drain_from (suc fuel) d =
      let (d', r) = decode_next d in
      elim r [
        | ok received ↦ elim received [
          | some e ↦ let (es, last) = drain_from fuel d' in (e ∷ es, last)
          | none ↦ ([], d')
        ]
        | err _ ↦ ([], d')
      ]

  unfoldable pub drain : FrameDecoder → List E × FrameDecoder
  unfolding drain_from
  drain d = drain_from (length d.buffer) d

  -- What a connection does with the chunks that it reads: each is appended to the decoder, and the
  -- messages that are then whole are delivered.
  unfoldable pub deliver : FrameDecoder → List (List ℕ) → List E × FrameDecoder
  unfolding drain
  deliver d [] = ([], d)
  deliver d (chunk ∷ chunks) =
      let (now, d') = drain (extend d chunk) in
      let (later, last) = deliver d' chunks in (now ++ later, last)
