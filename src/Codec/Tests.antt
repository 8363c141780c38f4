-- ===== src/Codec/Tests.antt =====
-- The codec on bytes: a serialiser whose messages are their own wire form, and the theorems there.
use res_qterra_engine.Common.{ℕ, ◌≡◌, refl, List, [], ◌∷◌, ◌++◌, length, map, ok, err, arith}
use res_qterra_engine.Codec.{
  FrameDecoder, drain, Prost, IsProst, new_decoder, new_encoder, deliver, u32_be,
}
use res_qterra_engine.Codec.Chunks.{deliver-frames, Drains, drain-Drains}
use res_qterra_engine.Codec.Stuck.{deliver_oversized}
use res_qterra_engine.Codec.Encoder.{encode_all, encode_all-delivers, verdict}

abbrev plain : Prost (List ℕ) Unit Unit
plain = record { encoded_len = length; encode = λ e buf. ok (buf ++ e); decode = ok }

plain-IsProst : IsProst plain
plain-IsProst = record {
  Valid = λ e. Unit;
  wire = λ e. e;
  length-wire = λ e. refl;
  encode_appends = λ e buf h. refl;
  decode-wire = λ e v. refl;
}

abbrev reads : List (List ℕ)
reads = (0 ∷ 0 ∷ []) ∷ (0 ∷ 2 ∷ 7 ∷ []) ∷ (8 ∷ 0 ∷ 0 ∷ 0 ∷ 1 ∷ 9 ∷ []) ∷ []

deliver_run : deliver plain new_decoder reads ≡ ((7 ∷ 8 ∷ []) ∷ (9 ∷ []) ∷ [], new_decoder)
unfolding deliver
deliver_run = refl

deliver-frames_example :
    deliver plain new_decoder reads ≡ ((7 ∷ 8 ∷ []) ∷ (9 ∷ []) ∷ [], new_decoder)
unfolding plain-IsProst
deliver-frames_example =
    deliver-frames plain-IsProst ((7 ∷ 8 ∷ []) ∷ (9 ∷ []) ∷ []) reads
      ((omega arith, tt), ((omega arith, tt), tt)) refl

deliver_oversized_example :
    deliver plain (record { buffer = u32_be 10485761 ++ (1 ∷ []) }) ((2 ∷ []) ∷ (3 ∷ []) ∷ [])
    ≡ ([], record { buffer = u32_be 10485761 ++ (1 ∷ 2 ∷ 3 ∷ []) })
deliver_oversized_example =
    deliver_oversized plain 10485761 (1 ∷ []) ((2 ∷ []) ∷ (3 ∷ []) ∷ []) (omega arith) (omega arith)

abbrev stuck : FrameDecoder
stuck = record { buffer = 0 ∷ 0 ∷ 0 ∷ 1 ∷ 7 ∷ 255 ∷ 255 ∷ 255 ∷ 255 ∷ [] }

drain-Drains_example : Drains plain stuck (drain plain stuck).0 (drain plain stuck).1
drain-Drains_example = drain-Drains plain stuck

-- A serialiser that decodes nothing.
abbrev picky : Prost (List ℕ) Unit Unit
picky = record { encoded_len = length; encode = λ e buf. ok (buf ++ e); decode = λ b. err tt }

encode_all-delivers_example :
    ((encode_all plain new_encoder ((7 ∷ 8 ∷ []) ∷ (9 ∷ []) ∷ [])).1
      ≡ map (verdict plain) ((7 ∷ 8 ∷ []) ∷ (9 ∷ []) ∷ []))
    × (deliver plain new_decoder reads ≡ ((7 ∷ 8 ∷ []) ∷ (9 ∷ []) ∷ [], new_decoder))
unfolding plain-IsProst encode_all
encode_all-delivers_example =
    encode_all-delivers plain-IsProst ((7 ∷ 8 ∷ []) ∷ (9 ∷ []) ∷ []) reads (tt, (tt, tt))
      (omega arith) refl
