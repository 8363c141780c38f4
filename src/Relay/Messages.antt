-- ===== src/Relay/Messages.antt =====
-- relay-node/src/main.rs with shared/src/codec.rs: messages sent through the relay.
use res_qterra_engine.Common.{
  ℕ, ◌≡◌, refl, sym, ap, ◌∙◌, List, [], ◌∷◌, ◌++◌, length, arith, append_assoc,
}
use res_qterra_engine.Codec.{Prost, IsProst, new_decoder, extend, deliver, drain}
use res_qterra_engine.Codec.Stream.{frames, AllSound, Drained, drain-frames, holding}
use res_qterra_engine.Codec.Chunks.{concat}
use res_qterra_engine.Relay.Forward.{stream_of, Relay, Turn, forward}
use res_qterra_engine.Relay.Streams.{forward-streams}

-- The relay when the edge will send the one list of bytes and the server the other.
abbrev pub between : List ℕ → List ℕ → Relay
between from_edge from_server = record {
  edge_to_server = stream_of from_edge;
  server_to_edge = stream_of from_server;
}

module _ {E D N : Type 0} {p : Prost E D N} (law : IsProst p) where
  -- What the first bytes of some frames deliver: the first messages.
  deliver-prefix :
      (chunks : List (List ℕ)) (es : List E) (buf rest : List ℕ)
      → AllSound law es
      → buf ++ (concat chunks ++ rest) ≡ frames law es
      → (later : List E) × (es ≡ (deliver p (holding p buf) chunks).0 ++ later)
  unfolding deliver
  deliver-prefix [] es buf rest fit whole = (es, refl)
  deliver-prefix (c ∷ cs) es buf rest fit whole =
      let (left, split, fits, done, sound) = drained (buf ++ c) (
        append_assoc buf c (concat cs ++ rest)
        ∙ ap (λ l. buf ++ l) (sym (append_assoc c (concat cs) rest))
        ∙ whole) in
      let (later, cut) =
        deliver-prefix cs left (drain p (extend (holding p buf) c)).1.buffer rest sound fits in
      (
        later,
        split
            ∙ ap (λ l. (drain p (extend (holding p buf) c)).0 ++ l) cut
            ∙ sym (append_assoc (drain p (extend (holding p buf) c)).0 _ later),
      )
    where
      drained :
          (b : List ℕ)
          → b ++ (concat cs ++ rest) ≡ frames law es
          → Drained law es (concat cs ++ rest) (drain p (holding p b))
      drained b h =
          unfold drain in drain-frames law (length b) es b (concat cs ++ rest) fit h (omega arith)

  -- At any moment of any run of the relay, the messages that the server has of what got through,
  -- however that is cut into reads, are the first of the valid messages that the edge sends.
  pub forward-prefix :
      (es : List E) (from_server : List ℕ) (ts : List Turn) (chunks : List (List ℕ))
      → AllSound law es
      → concat chunks ≡ (forward (between (frames law es) from_server) ts).0.edge_to_server.written
      → (later : List E) × (es ≡ (deliver p new_decoder chunks).0 ++ later)
  forward-prefix es from_server ts chunks fit got =
      let r = (forward (between (frames law es) from_server) ts).0 in
      let kept = ap (λ s. s.0) (forward-streams (between (frames law es) from_server) ts) in
      deliver-prefix chunks es [] (r.edge_to_server.held ++ r.edge_to_server.incoming) fit
        (ap (λ l. l ++ (r.edge_to_server.held ++ r.edge_to_server.incoming)) got ∙ kept)
