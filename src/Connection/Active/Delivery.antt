-- ===== src/Connection/Active/Delivery.antt =====
-- What a connection receives.
use res_qterra_engine.Common.{
  ℕ, ◌≡◌, refl, ap, sym, ◌∙◌, Option, none, some, List, [], ◌∷◌, ◌++◌, map, append_assoc,
  append-nil, arith, String,
}
use res_qterra_engine.Proto.{Envelope}
use res_qterra_engine.Codec.{Prost, IsProst, new_decoder, deliver, drain, extend}
use res_qterra_engine.Codec.Stream.{frames, AllSound}
use res_qterra_engine.Codec.Chunks.{concat, deliver-frames}
use res_qterra_engine.Connection.{ConnectionConfig, received}
use res_qterra_engine.Connection.Active.{
  Activity, ticked, outbound, chunk, read_closed, read_failed, read_timed_out, Active, opened,
  Reason, write_envelope, handle_activity, handle_connection,
}

-- The chunks that a run reads.
abbrev pub reads : List Activity → List (List ℕ)
reads [] = []
reads (chunk bytes ∷ xs) = bytes ∷ reads xs
reads (_ ∷ xs) = reads xs

map-append_received :
    (xs ys : List Envelope) → map received (xs ++ ys) ≡ map received xs ++ map received ys
map-append_received [] ys = refl
map-append_received (x ∷ xs) ys = ap (◌∷◌ (received x)) (map-append_received xs ys)

module _ {D N : Type 0} (p : Prost Envelope D N) (config : ConnectionConfig) where
  abbrev pub Step : Type 0
  Step = Active × Option (Reason D N)

  -- The rest of a run after one branch.
  abbrev pub continue : Step → List Activity → Step
  continue (a, none) xs = handle_connection p config a xs
  continue (a, some reason) xs = (a, some reason)

  pub handle_connection-continue :
      (a : Active) (x : Activity) (xs : List Activity)
      → handle_connection p config a (x ∷ xs) ≡ continue (handle_activity p config a x) xs
  unfolding handle_connection
  handle_connection-continue a x xs = ground arith

  pub open_before :
      (r : Step) (xs : List Activity) (last : Active)
      → continue r xs ≡ (last, none)
      → (r.1 ≡ none) × (handle_connection p config r.0 xs ≡ (last, none))
  open_before (a, none) xs last h = (refl, h)
  open_before (a, some reason) xs last h = cc

  -- A write touches neither the decoder nor the events.
  write_envelope_frame :
      (a : Active) (e : Envelope) (o : Option String)
      → let a' = (write_envelope p a e o).0 in (a'.decoder ≡ a.decoder) × (a'.events ≡ a.events)
  unfolding write_envelope
  write_envelope_frame a e o = ground arith

  -- What the branches but `chunk` leave alone.
  quiet_frame :
      (a : Active) (x : Activity)
      → reads (x ∷ []) ≡ []
      → let a' = (handle_activity p config a x).0 in
        (a'.decoder ≡ a.decoder) × (a'.events ≡ a.events)
  unfolding handle_activity
  quiet_frame a (ticked up now o) h = write_envelope_frame _ _ o
  quiet_frame a (outbound e o) h = write_envelope_frame a e o
  quiet_frame a (chunk bytes) h = cc
  quiet_frame a read_closed h = (refl, refl)
  quiet_frame a (read_failed e) h = (refl, refl)
  quiet_frame a read_timed_out h = (refl, refl)

  chunk_step :
      (a : Active) (bytes : List ℕ)
      → let (es, decoder) = drain p (extend a.decoder bytes) in
        handle_activity p config a (chunk bytes)
        ≡ (record a { decoder = decoder; events = a.events ++ map received es }, none)
  unfolding handle_activity
  chunk_step a bytes = refl

  -- What a run that ends open makes of the decoder and the events.
  abbrev Delivers : Active → List (List ℕ) → Active → Type 0
  Delivers a chunks last =
      let (es, decoder) = deliver p a.decoder chunks in
      (last.decoder ≡ decoder) × (last.events ≡ a.events ++ map received es)

  Delivers-chunk :
      (a last : Active) (bytes : List ℕ) (chunks : List (List ℕ))
      → Delivers (handle_activity p config a (chunk bytes)).0 chunks last
      → Delivers a (bytes ∷ chunks) last
  unfolding handle_activity deliver
  Delivers-chunk a last bytes chunks (same, more) =
      let now = (drain p (extend a.decoder bytes)).0 in
      let later = (deliver p (drain p (extend a.decoder bytes)).1 chunks).0 in
      (
        same,
        more
            ∙ append_assoc a.events (map received now) (map received later)
            ∙ ap (◌++◌ a.events) (sym (map-append_received now later)),
      )

  Delivers-quiet :
      (a last : Active) (x : Activity) (chunks : List (List ℕ))
      → reads (x ∷ []) ≡ []
      → Delivers (handle_activity p config a x).0 chunks last
      → Delivers a chunks last
  Delivers-quiet a last x chunks quiet (same, more) =
      let (d, ev) = quiet_frame a x quiet in (same ∙ rw d, more ∙ rw (d, ev))

  pub rest_open :
      (a last : Active) (x : Activity) (xs : List Activity)
      → handle_connection p config a (x ∷ xs) ≡ (last, none)
      → ((handle_activity p config a x).1 ≡ none)
        × (handle_connection p config (handle_activity p config a x).0 xs ≡ (last, none))
  rest_open a last x xs h =
      open_before (handle_activity p config a x) xs last
        (sym (handle_connection-continue a x xs) ∙ h)

  pub nothing_left : (a last : Active) → handle_connection p config a [] ≡ (last, none) → last ≡ a
  unfolding handle_connection
  nothing_left a last h = sym (ap (λ r. r.0) h)

  handle_connection-Delivers :
      (a last : Active) (xs : List Activity)
      → handle_connection p config a xs ≡ (last, none)
      → Delivers a (reads xs) last
  handle_connection-Delivers a last [] h =
      unfold deliver in
      (
        ap (λ r. r.decoder) (nothing_left a last h),
        ap (λ r. r.events) (nothing_left a last h) ∙ sym (append-nil a.events),
      )
  handle_connection-Delivers a last (x ∷ xs) h = after x (
      handle_connection-Delivers (handle_activity p config a x).0 last xs
        (rest_open a last x xs h).1)
    where
      after :
          (x : Activity)
          → Delivers (handle_activity p config a x).0 (reads xs) last
          → Delivers a (reads (x ∷ xs)) last
      after (chunk bytes) v = Delivers-chunk a last bytes (reads xs) v
      after (ticked up now o) v = Delivers-quiet a last (ticked up now o) (reads xs) refl v
      after (outbound e o) v = Delivers-quiet a last (outbound e o) (reads xs) refl v
      after read_closed v = Delivers-quiet a last read_closed (reads xs) refl v
      after (read_failed e) v = Delivers-quiet a last (read_failed e) (reads xs) refl v
      after read_timed_out v = Delivers-quiet a last read_timed_out (reads xs) refl v

module _ {D N : Type 0} {p : Prost Envelope D N} (law : IsProst p) (config : ConnectionConfig) where
  -- While a connection is open since its start, whatever it sends in between and however the bytes
  -- are cut into reads: if what it has read is the frames of some valid messages that fit, then
  -- exactly these messages have been reported as received, in order, and nothing is left in the
  -- decoder.
  pub received-frames :
      (sequence_id : ℕ) (xs : List Activity) (last : Active) (es : List Envelope)
      → AllSound law es
      → concat (reads xs) ≡ frames law es
      → handle_connection p config (opened sequence_id) xs ≡ (last, none)
      → (last.events ≡ map received es) × (last.decoder ≡ new_decoder)
  received-frames sequence_id xs last es fit whole up =
      let (same, more) = handle_connection-Delivers p config (opened sequence_id) last xs up in
      let all = deliver-frames law es (reads xs) fit whole in (more ∙ rw all, same ∙ rw all)
