-- ===== src/Server/Session.antt =====
-- server/src/main.rs: `handle_drone_session` from the reads of its socket on.
use res_qterra_engine.Common.{
  ℕ, ◌≤◌, ◌<◌, ◌≡◌, refl, ap, sym, ◌∙◌, ◌⊎◌, inl, inr, Bool, true, false, none, List, [], ◌∷◌, ◌++◌,
  length, ok, arith, append_assoc, append-split, dec_le, subst,
}
use res_qterra_engine.Proto.{Envelope}
use res_qterra_engine.Codec.{Prost, IsProst, decode, extend}
use res_qterra_engine.Codec.Frame.{frame, decode-frame}
use res_qterra_engine.Codec.Stream.{frames, AllSound, Drained-partial, decode-nil, append-nil_left}
use res_qterra_engine.Codec.Chunks.{concat}
use res_qterra_engine.Sessions.Session.{
  DroneSession, Read, Received, message, closed, waiting, accept, recv,
}
use res_qterra_engine.Sessions.Session.Rounds.{
  then_closed, buffering, recv_ready, recv_more, recv-closed,
}
use res_qterra_engine.Server.{Server, Moment, on_message, on_disconnect, serve}

module _ {D N : Type 0} (p : Prost Envelope D N) (up : ℕ → Bool) where
  -- What is done with the answer of `recv`, and whether the session is over. Where nothing more is
  -- to be read yet, the session waits.
  after_recv :
      Server
      → Moment
      → DroneSession × Received
      → (Server → DroneSession → List Read → Server × Bool)
      → Server × Bool
  unfolding on_message on_disconnect
  after_recv x t (session, message e rest) more = more (on_message p up x session t e) session rest
  after_recv x t (session, closed) more = (on_disconnect x session, true)
  after_recv x t (session, waiting) more = (x, false)

  -- The loop, with the readings of the clock for each of its rounds.
  unfoldable pub handle_drone_session :
      Server → DroneSession → List Moment → List Read → Server × Bool
  unfolding after_recv recv
  handle_drone_session x session [] reads = (x, false)
  handle_drone_session x session (t ∷ ts) reads =
      after_recv x t (recv p session t.noted reads)
        (λ x session rest. handle_drone_session x session ts rest)

joined :
    (buf c : List ℕ) (cs : List (List ℕ)) (rest : List ℕ)
    → (buf ++ c) ++ (concat cs ++ rest) ≡ buf ++ (concat (c ∷ cs) ++ rest)
joined buf c cs rest = simp append_assoc

-- The messages with the readings of the clock for each.
abbrev pub zip : List Moment → List Envelope → List (Moment × Envelope)
zip [] es = []
zip (t ∷ ts) [] = []
zip (t ∷ ts) (e ∷ es) = (t, e) ∷ zip ts es

module _ {D N : Type 0} {p : Prost Envelope D N} (law : IsProst p) (up : ℕ → Bool) where
  -- Of the bytes that `rest` completes to the frames of some messages, `recv` has returned the first
  -- message and left the others, or it has met the end of the stream before that message was whole.
  abbrev pub Next : DroneSession → ℕ → List Envelope → List ℕ → DroneSession × Received → Type 0
  Next s now es rest out =
      ((e : Envelope) × (later : List Envelope) × (buf : List ℕ) × (cs : List (List ℕ)) × (es
          ≡ e ∷ later)
        × (out ≡ (accept (buffering s buf) now e, message e (then_closed cs)))
        × (buf ++ (concat cs ++ rest) ≡ frames law later)
        × AllSound law later)
      ⊎ ((buf : List ℕ) × (out ≡ (buffering s buf, closed)) × (rest ≡ [] → es ≡ []))

  empty_waits : (buf rest : List ℕ) → buf ++ rest ≡ [] → decode p buf ≡ (buf, ok none)
  empty_waits buf rest h = let none_left = append-nil_left buf rest h in rw none_left (decode-nil p)

  recv_none :
      (s : DroneSession) (now : ℕ) (chunks : List (List ℕ)) (rest : List ℕ)
      → s.decoder.buffer ++ (concat chunks ++ rest) ≡ []
      → Next s now [] rest (recv p s now (then_closed chunks))
  recv_none s now [] rest whole =
      inr
        (s.decoder.buffer, recv-closed p s now [] (empty_waits s.decoder.buffer _ whole), λ h. refl)
  recv_none s now (c ∷ cs) rest whole =
      subst (Next s now [] rest)
        (sym (recv_more p s now c (then_closed cs) (empty_waits s.decoder.buffer _ whole)))
        (recv_none (record s { decoder = extend s.decoder c }) now cs rest
          (joined s.decoder.buffer c cs rest ∙ whole))

  -- The first frame is in the buffer.
  recv-whole :
      (s : DroneSession) (now : ℕ) (chunks : List (List ℕ)) (rest : List ℕ) (e : Envelope)
      (es : List Envelope)
      → AllSound law (e ∷ es)
      → s.decoder.buffer ++ (concat chunks ++ rest) ≡ frames law (e ∷ es)
      → length (frame law e) ≤ length s.decoder.buffer
      → Next s now (e ∷ es) rest (recv p s now (then_closed chunks))
  recv-whole s now chunks rest e es fit whole there =
      let (b, cut, q) =
        append-split s.decoder.buffer (concat chunks ++ rest) (frame law e) (frames law es) whole
          there in
      inl (
        e,
        es,
        b,
        chunks,
        refl,
        recv_ready p s now (then_closed chunks) b e
            (ap (decode p) cut ∙ decode-frame law e b fit.0),
        q,
        fit.1,
      )

  recv-Next_first :
      (s : DroneSession) (now : ℕ) (chunks : List (List ℕ)) (rest : List ℕ) (e : Envelope)
      (es : List Envelope)
      → AllSound law (e ∷ es)
      → s.decoder.buffer ++ (concat chunks ++ rest) ≡ frames law (e ∷ es)
      → Next s now (e ∷ es) rest (recv p s now (then_closed chunks))
  recv-Next_first s now [] rest e es fit whole =
      elim (dec_le (length (frame law e)) (length s.decoder.buffer)) [
        | yes there ↦ recv-whole s now [] rest e es fit whole there
        | no cut_short ↦
            let (waits, more) =
              Drained-partial law e es s.decoder.buffer rest fit whole (omega arith) in
            inr (s.decoder.buffer, recv-closed p s now [] waits, λ h. absurd (more h))
      ]
  recv-Next_first s now (c ∷ cs) rest e es fit whole =
      elim (dec_le (length (frame law e)) (length s.decoder.buffer)) [
        | yes there ↦ recv-whole s now (c ∷ cs) rest e es fit whole there
        | no cut_short ↦
            let waits =
              (Drained-partial law e es s.decoder.buffer (concat (c ∷ cs) ++ rest) fit whole
                (omega arith)).0 in
            subst (Next s now (e ∷ es) rest) (sym (recv_more p s now c (then_closed cs) waits)) (
              recv-Next_first (record s { decoder = extend s.decoder c }) now cs rest e es fit
                (joined s.decoder.buffer c cs rest ∙ whole))
      ]

  -- What a session does with a message depends on its handle, and not on what is in its decoder.
  serve-buffering :
      (x : Server) (s : DroneSession) (buf : List ℕ) (l : List (Moment × Envelope))
      → serve p up x (buffering s buf) l ≡ serve p up x s l
  unfolding serve on_disconnect on_message accept
  serve-buffering x s buf [] = refl
  serve-buffering x s buf ((t, e) ∷ l) =
      let s' = accept s t.noted e in serve-buffering (on_message p up x s' t e) s' buf l

  pub recv-Next :
      (s : DroneSession) (now : ℕ) (chunks : List (List ℕ)) (rest : List ℕ) (es : List Envelope)
      → AllSound law es
      → s.decoder.buffer ++ (concat chunks ++ rest) ≡ frames law es
      → Next s now es rest (recv p s now (then_closed chunks))
  recv-Next s now chunks rest [] fit whole = recv_none s now chunks rest whole
  recv-Next s now chunks rest (e ∷ es) fit whole = recv-Next_first s now chunks rest e es fit whole

  abbrev pub Serves :
      Server → DroneSession → List Moment → List ℕ → List Envelope → Server × Bool → Type 0
  Serves x s ts rest es out =
      (now : List Envelope) × (later : List Envelope) × (es ≡ now ++ later)
      × (out ≡ (serve p up x s (zip ts now), true))
      × (rest ≡ [] → later ≡ [])

  pub handle_drone_session-serve :
      (x : Server) (s : DroneSession) (ts : List Moment) (chunks : List (List ℕ)) (rest : List ℕ)
      (es : List Envelope)
      → AllSound law es
      → s.decoder.buffer ++ (concat chunks ++ rest) ≡ frames law es
      → length es < length ts
      → Serves x s ts rest es (handle_drone_session p up x s ts (then_closed chunks))
  unfolding handle_drone_session after_recv serve on_disconnect accept
  handle_drone_session-serve x s [] chunks rest es fit whole enough = absurd (omega arith)
  handle_drone_session-serve x s (t ∷ ts) chunks rest es fit whole enough =
      elim (recv-Next s t.noted chunks rest es fit whole) [
        | inr (buf, out, all) ↦ ([], es, refl, ap (λ r. after_recv p up x t r (more ts)) out, all)
        | inl (e, es', buf, cs, split, out, whole', fit') ↦
            let s' = accept (buffering s buf) t.noted e in
            let (now, later, cut, same, all) =
              handle_drone_session-serve (on_message p up x s' t e) s' ts cs rest es' fit' whole'
                (omega (arith, ap (length {A = Envelope}) split)) in
            (
              e ∷ now,
              later,
              split ∙ ap (◌∷◌ e) cut,
              ap (λ r. after_recv p up x t r (more ts)) out
                  ∙ same
                  ∙ ap (λ y. (y, true)) (serve-buffering x s buf ((t, e) ∷ zip ts now)),
              λ h. all h,
            )
      ]
    where
      more : List Moment → Server → DroneSession → List Read → Server × Bool
      more ts y session left = handle_drone_session p up y session ts left
