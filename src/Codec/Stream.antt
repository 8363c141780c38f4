-- ===== src/Codec/Stream.antt =====
-- The drain loop over a buffer that holds the beginning of a stream of frames.
use res_qterra_engine.Common.{
  ℕ, zero, suc, ◌≤◌, ◌<◌, ◌≡◌, refl, sym, ap, ◌∙◌, ◌≢◌, none, some, List, [], ◌∷◌, ◌++◌, length, ok,
  err, arith, subst, length-append, append-nil, All, dec_le, append-split,
}
use res_qterra_engine.Codec.{
  Prost, IsProst, CodecError, FrameDecoder, decode, decode_next, drain_from,
}
use res_qterra_engine.Codec.Frame.{frame, Sound, length-frame, decode-frame, decode_partial}

pub append-nil_left : (xs ys : List ℕ) → xs ++ ys ≡ [] → xs ≡ []
append-nil_left [] ys h = refl
append-nil_left (x ∷ xs) ys h = cc

module _ {E D N : Type 0} (p : Prost E D N) where
  abbrev pub holding : List ℕ → FrameDecoder
  holding buf = record { buffer = buf }

  -- One round of the loop, by what the decoder answers.
  pub drain_some :
      (fuel : ℕ) (buf rest : List ℕ) (e : E)
      → decode p buf ≡ (rest, ok (some e))
      → drain_from p (suc fuel) (holding buf)
        ≡ (e ∷ (drain_from p fuel (holding rest)).0, (drain_from p fuel (holding rest)).1)
  unfolding drain_from decode_next
  drain_some fuel buf rest e h = ground arith

  pub drain_none :
      (fuel : ℕ) (buf rest : List ℕ)
      → decode p buf ≡ (rest, ok none)
      → drain_from p (suc fuel) (holding buf) ≡ ([], holding rest)
  unfolding drain_from decode_next
  drain_none fuel buf rest h = ground arith

  pub drain_err :
      (fuel : ℕ) (buf rest : List ℕ) (x : CodecError D N)
      → decode p buf ≡ (rest, err x)
      → drain_from p (suc fuel) (holding buf) ≡ ([], holding rest)
  unfolding drain_from decode_next
  drain_err fuel buf rest x h = ground arith

  pub drain_zero : (d : FrameDecoder) → drain_from p zero d ≡ ([], d)
  unfolding drain_from
  drain_zero d = refl

  pub decode-nil : decode p [] ≡ ([], ok none)
  unfolding decode
  decode-nil = refl

module _ {E D N : Type 0} {p : Prost E D N} (law : IsProst p) where
  -- The bytes of a sequence of messages.
  abbrev pub frames : List E → List ℕ
  frames [] = []
  frames (e ∷ es) = frame law e ++ frames es

  abbrev pub AllSound : List E → Type 0
  AllSound = All (Sound law)

  -- What the drain loop makes of a buffer: the messages that are whole, and the start of the next.
  abbrev pub Drained : List E → List ℕ → List E × FrameDecoder → Type 0
  Drained es rest out =
      (later : List E) × (es ≡ out.0 ++ later)
      × (out.1.buffer ++ rest ≡ frames later)
      × (rest ≡ [] → later ≡ [])
      × AllSound later

  pub frames-nil : (es : List E) → [] ≡ frames es → es ≡ []
  frames-nil [] h = refl
  frames-nil (e ∷ es) h = cc

  Drained-whole :
      (e : E) (es : List E) (rest : List ℕ) (out : List E × FrameDecoder)
      → Drained es rest out
      → Drained (e ∷ es) rest (e ∷ out.0, out.1)
  Drained-whole e es rest out (later, split, left, last, fit) =
      (later, ap (◌∷◌ e) split, left, last, fit)

  -- The buffer holds less than the next frame.
  pub Drained-partial :
      (e : E) (es : List E) (buf rest : List ℕ)
      → AllSound (e ∷ es)
      → buf ++ rest ≡ frames (e ∷ es)
      → length buf < length (frame law e)
      → (decode p buf ≡ (buf, ok none)) × (rest ≢ [])
  Drained-partial e es buf rest fit whole short =
      let (s, cut, q) = append-split (frame law e) (frames es) buf rest (sym whole) (omega arith) in
      let more : s ≢ [] =
        λ z. omega (arith, ap (length {A = ℕ}) (cut ∙ ap (◌++◌ buf) z ∙ append-nil buf)) in
      (
        decode_partial law e buf s fit.0.0 (sym cut) more,
        λ z. more (append-nil_left s (frames es) (q ∙ z)),
      )

  pub drain-frames :
      (fuel : ℕ) (es : List E) (buf rest : List ℕ)
      → AllSound es
      → buf ++ rest ≡ frames es
      → length buf ≤ fuel
      → Drained es rest (drain_from p fuel (holding p buf))
  drain-frames zero es [] rest fit whole enough =
      rw (drain_zero p (holding p [])) (es, refl, whole, λ z. frames-nil es (sym z ∙ whole), fit)
  drain-frames zero es (b ∷ buf) rest fit whole enough = absurd (omega arith)
  drain-frames (suc fuel) [] buf rest fit whole enough =
      let none_left = append-nil_left buf rest whole in
      rw (none_left, drain_none p fuel [] [] (decode-nil p))
        ([], refl, subst (λ b. b ++ rest ≡ []) none_left whole, λ z. refl, tt)
  drain-frames (suc fuel) (e ∷ es) buf rest fit whole enough =
      elim (dec_le (length (frame law e)) (length buf)) [
        | yes there ↦
            let (b, cut, q) = append-split buf rest (frame law e) (frames es) whole there in
            let short : length b ≤ fuel =
              omega (
                arith,
                ap (length {A = ℕ}) cut,
                length-append (frame law e) b,
                length-frame law e,
              ) in
            rw (cut, drain_some p fuel (frame law e ++ b) b e (decode-frame law e b fit.0))
              (Drained-whole e es rest _ (drain-frames fuel es b rest fit.1 q short))
        | no cut_short ↦
            let (waits, more) = Drained-partial e es buf rest fit whole (omega arith) in
            rw (drain_none p fuel buf buf waits) (e ∷ es, refl, whole, λ z. absurd (more z), fit)
      ]
