-- ===== src/Codec/UnitTests.antt =====
-- The unit tests of shared/src/codec.rs, over a serialiser that knows the envelope of the tests.
use res_qterra_engine.Common.{
  ℕ, zero, suc, ◌+◌, ◌-◌, ◌≡◌, refl, String, Bool, true, false, ◌&&◌, Option, some, List, [], ◌∷◌,
  ◌++◌, length, take, drop, Result, ok, err, ◌==◌, string_key, if◌then◌else◌,
}
use res_qterra_engine.Common.Asserts.{all_pass, expect, expect_some, is_none, is_some}
use res_qterra_engine.Proto.{
  Envelope, heartbeat, msg_heartbeat, drone_idle, new_header, new_heartbeat,
}
use res_qterra_engine.Codec.{
  Prost, CodecError, invalid_length, encode, decode, new_decoder, extend, decode_next,
  max_message_size, u32_be, from_be_bytes, byte_at,
}

create_test_envelope : Envelope
create_test_envelope = record {
  header = some (new_header "test-device" msg_heartbeat 1 1700000000000);
  payload = some (heartbeat (new_heartbeat 1000 drone_idle 0 true));
}

-- Its wire form, of which the tests rely on nothing but the length.
abbrev wire : List ℕ
wire = 10 ∷ 4 ∷ 1 ∷ 2 ∷ 3 ∷ 4 ∷ []

abbrev decode_wire : List ℕ → Result (Unit {0}) Envelope
decode_wire bytes = if length bytes == length wire then ok create_test_envelope else err tt

abbrev prost : Prost Envelope Unit Unit
prost = record {
  encoded_len = λ e. length wire;
  encode = λ e buf. ok (buf ++ wire);
  decode = decode_wire;
}

abbrev Decoded : Type 0
Decoded = Result (CodecError Unit Unit) (Option Envelope)

-- `expect("decode failed").expect("no message")`, and the device of the message.
abbrev decoded_device_is : Decoded → String → Bool
decoded_device_is r device_id =
    expect r
      (λ o. expect_some o (λ e. expect_some e.header (λ h. string_key.beq h.device_id device_id)))

abbrev nothing_yet : Decoded → Bool
nothing_yet r = expect r is_none

abbrev has_message : Decoded → Bool
has_message r = expect r is_some

test_encode_decode_roundtrip : Bool
unfolding create_test_envelope encode decode
test_encode_decode_roundtrip = expect (encode prost create_test_envelope) λ encoded.
    let len_prefix =
      from_be_bytes (byte_at encoded 0) (byte_at encoded 1) (byte_at encoded 2)
        (byte_at encoded 3) in
    let (buf, decoded) = decode prost encoded in
    len_prefix == length encoded - 4 && decoded_device_is decoded "test-device" && length buf == 0

test_partial_decode : Bool
unfolding create_test_envelope encode decode
test_partial_decode = expect (encode prost create_test_envelope) λ encoded.
    let (buf, result) = decode prost (take 5 encoded) in nothing_yet result && length buf == 5

test_frame_decoder : Bool
unfolding create_test_envelope encode decode_next
test_frame_decoder = expect (encode prost create_test_envelope) λ encoded.
    let (decoder, first) = decode_next prost (extend new_decoder (take 5 encoded)) in
    let (decoder, second) = decode_next prost (extend decoder (drop 5 encoded)) in
    nothing_yet first && decoded_device_is second "test-device"

test_multiple_frames : Bool
unfolding create_test_envelope encode decode_next
test_multiple_frames = expect (encode prost create_test_envelope) λ encoded1.
    expect (encode prost create_test_envelope) λ encoded2.
      let (decoder, first) = decode_next prost (extend (extend new_decoder encoded1) encoded2) in
      let (decoder, second) = decode_next prost decoder in
      let (decoder, third) = decode_next prost decoder in
      has_message first && has_message second && nothing_yet third

-- `matches!(result, Err(CodecError::InvalidLength(_)))`.
abbrev is_invalid_length : Decoded → Bool
is_invalid_length (err (invalid_length n)) = true
is_invalid_length _ = false

abbrev zeros : ℕ → List ℕ
zeros zero = []
zeros (suc n) = 0 ∷ zeros n

test_message_too_large : Bool
unfolding decode
test_message_too_large =
    is_invalid_length (decode prost (u32_be (max_message_size + 1) ++ zeros 100)).1

tests_pass :
    all_pass (
      test_encode_decode_roundtrip ∷ test_partial_decode ∷ test_frame_decoder ∷ test_multiple_frames
      ∷ test_message_too_large ∷ [])
    ≡ true
unfolding test_encode_decode_roundtrip test_partial_decode test_frame_decoder test_multiple_frames
    test_message_too_large
tests_pass = refl
