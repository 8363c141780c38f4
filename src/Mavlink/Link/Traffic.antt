-- ===== src/Mavlink/Link/Traffic.antt =====
-- src/mavlink/connection.rs: what passes over a connection to the flight controller, both ways.
use res_qterra_engine.Common.{
  ◌≡◌, refl, sym, ◌∙◌, ap, String, Option, none, some, true, List, [], ◌∷◌, ◌++◌, map, inl, inr,
  append-nil, append_assoc, Option-cases,
}
use res_qterra_engine.Common.Text.{◌<>◌}
use res_qterra_engine.Mavlink.Messages.{MavMessage, MavHeartbeat, as_heartbeat}
use res_qterra_engine.Mavlink.Link.{
  FcConfig, FcLink, FcEvent, fc_connected, fc_disconnected, fc_message, fc_heartbeat,
  heartbeat_event, told_of, make_header, FcActivity, outgoing, polled, polled_message, would_block,
  poll_failed, handle_activity, handle_connection, established,
}

-- What happened until the connection failed: the messages read, the messages that went out, and the
-- reason for the end.
abbrev pub messages_read : List FcActivity → List MavMessage
messages_read [] = []
messages_read (outgoing msg none ∷ xs) = messages_read xs
messages_read (outgoing msg (some e) ∷ xs) = []
messages_read (polled (polled_message msg) ∷ xs) = msg ∷ messages_read xs
messages_read (polled would_block ∷ xs) = messages_read xs
messages_read (polled (poll_failed e) ∷ xs) = []

abbrev pub messages_out : List FcActivity → List MavMessage
messages_out [] = []
messages_out (outgoing msg none ∷ xs) = msg ∷ messages_out xs
messages_out (outgoing msg (some e) ∷ xs) = []
messages_out (polled (poll_failed e) ∷ xs) = []
messages_out (polled _ ∷ xs) = messages_out xs

abbrev pub first_error : List FcActivity → Option String
first_error [] = none
first_error (outgoing msg none ∷ xs) = first_error xs
first_error (outgoing msg (some e) ∷ xs) = some e
first_error (polled (poll_failed e) ∷ xs) = some ("Read error: " <> e)
first_error (polled _ ∷ xs) = first_error xs

-- What the receiver of the events hears: the messages, and of each heartbeat its fields.
abbrev pub heard : List FcEvent → List MavMessage
heard [] = []
heard (fc_message msg ∷ es) = msg ∷ heard es
heard (_ ∷ es) = heard es

abbrev pub beats_heard : List FcEvent → List FcEvent
beats_heard [] = []
beats_heard (fc_heartbeat a t s b c ∷ es) = fc_heartbeat a t s b c ∷ beats_heard es
beats_heard (_ ∷ es) = beats_heard es

abbrev pub beats_of : List MavMessage → List FcEvent
beats_of [] = []
beats_of (msg ∷ ms) = elim (as_heartbeat msg) [
  | some hb ↦
      fc_heartbeat hb.autopilot hb.mavtype hb.system_status hb.base_mode hb.custom_mode
      ∷ beats_of ms
  | none ↦ beats_of ms
]

pub heard-append : (es fs : List FcEvent) → heard (es ++ fs) ≡ heard es ++ heard fs
heard-append [] fs = refl
heard-append (fc_message m ∷ es) fs = ap (◌∷◌ m) (heard-append es fs)
heard-append (fc_connected ∷ es) fs = heard-append es fs
heard-append (fc_disconnected r ∷ es) fs = heard-append es fs
heard-append (fc_heartbeat a t s b c ∷ es) fs = heard-append es fs

beats_heard-append :
    (es fs : List FcEvent) → beats_heard (es ++ fs) ≡ beats_heard es ++ beats_heard fs
beats_heard-append [] fs = refl
beats_heard-append (fc_heartbeat a t s b c ∷ es) fs =
    ap (◌∷◌ (fc_heartbeat a t s b c)) (beats_heard-append es fs)
beats_heard-append (fc_connected ∷ es) fs = beats_heard-append es fs
beats_heard-append (fc_disconnected r ∷ es) fs = beats_heard-append es fs
beats_heard-append (fc_message m ∷ es) fs = beats_heard-append es fs

-- The events of a message that was read.
heard-told :
    (o : Option MavHeartbeat) (msg : MavMessage)
    → heard (heartbeat_event o ++ fc_message msg ∷ []) ≡ msg ∷ []
heard-told (some hb) msg = refl
heard-told none msg = refl

beats_heard-told :
    (o : Option MavHeartbeat) (msg : MavMessage)
    → beats_heard (heartbeat_event o ++ fc_message msg ∷ [])
      ≡ elim o [ some hb ↦ told_of hb ∷ [] | none ↦ [] ]
beats_heard-told (some hb) msg = refl
beats_heard-told none msg = refl

beats_of-cons :
    (msg : MavMessage) (ms : List MavMessage)
    → beats_heard (heartbeat_event (as_heartbeat msg) ++ fc_message msg ∷ []) ++ beats_of ms
      ≡ beats_of (msg ∷ ms)
beats_of-cons msg ms = elim (Option-cases (as_heartbeat msg)) [
  | inl e ↦ rw (e, beats_of) refl
  | inr (hb, e) ↦ rw (e, beats_of) refl
]

heard-after :
    (es : List FcEvent) (msg : MavMessage) (ms : List MavMessage)
    → heard (es ++ (heartbeat_event (as_heartbeat msg) ++ fc_message msg ∷ [])) ++ ms
      ≡ heard es ++ msg ∷ ms
heard-after es msg ms =
    rw
      (
        heard-append es (heartbeat_event (as_heartbeat msg) ++ fc_message msg ∷ []),
        heard-told (as_heartbeat msg) msg,
      )
      (append_assoc (heard es) (msg ∷ []) ms)

beats_heard-after :
    (es : List FcEvent) (msg : MavMessage) (ms : List MavMessage)
    → beats_heard (es ++ (heartbeat_event (as_heartbeat msg) ++ fc_message msg ∷ [])) ++ beats_of ms
      ≡ beats_heard es ++ beats_of (msg ∷ ms)
beats_heard-after es msg ms =
    let told = heartbeat_event (as_heartbeat msg) ++ fc_message msg ∷ [] in
    ap (λ l. l ++ beats_of ms) (beats_heard-append es told)
    ∙ append_assoc (beats_heard es) (beats_heard told) (beats_of ms)
    ∙ ap (λ l. beats_heard es ++ l) (beats_of-cons msg ms)

-- What an open connection has done when the activities `xs` are over: it has read and reported,
-- sent, and ended.
abbrev pub HasPassed : FcConfig → FcLink → List FcActivity → FcLink × Option String → Type 0
HasPassed config k xs (k', ended) =
    (heard k'.events ≡ heard k.events ++ messages_read xs)
    × (beats_heard k'.events ≡ beats_heard k.events ++ beats_of (messages_read xs))
    × (k'.written ≡ k.written ++ map (λ msg. (make_header config, msg)) (messages_out xs))
    × (ended ≡ first_error xs)

abbrev open_link : FcLink → FcLink
open_link k = record k { stored = true }

open_link-HasPassed :
    (config : FcConfig) (k : FcLink) (xs : List FcActivity)
    → HasPassed config k xs (handle_connection config (open_link k) xs)
unfolding handle_connection handle_activity
open_link-HasPassed config k [] = (sym (append-nil _), sym (append-nil _), sym (append-nil _), refl)
open_link-HasPassed config k (outgoing msg none ∷ xs) =
    let sent = record k { written = k.written ++ (make_header config, msg) ∷ [] } in
    let (h, b, w, e) = open_link-HasPassed config sent xs in
    (h, b, w ∙ append_assoc k.written _ _, e)
open_link-HasPassed config k (outgoing msg (some e) ∷ xs) =
    (sym (append-nil _), sym (append-nil _), sym (append-nil _), refl)
open_link-HasPassed config k (polled (polled_message msg) ∷ xs) =
    let told = heartbeat_event (as_heartbeat msg) ++ fc_message msg ∷ [] in
    let (h, b, w, e) = open_link-HasPassed config (record k { events = k.events ++ told }) xs in
    (
      h ∙ heard-after k.events msg (messages_read xs),
      b ∙ beats_heard-after k.events msg (messages_read xs),
      w,
      e,
    )
open_link-HasPassed config k (polled would_block ∷ xs) = open_link-HasPassed config k xs
open_link-HasPassed config k (polled (poll_failed e) ∷ xs) =
    (sym (append-nil _), sym (append-nil _), sym (append-nil _), refl)

-- Over an open connection every message read is reported once and in order, each heartbeat also by
-- its fields; every message to send is written in order under the header of the configuration; and
-- the connection ends at the first error of a read or a write, with its reason, and only there.
pub handle_connection-HasPassed :
    (config : FcConfig) (k : FcLink) (xs : List FcActivity)
    → HasPassed config (established k) xs (handle_connection config (established k) xs)
handle_connection-HasPassed config k xs = open_link-HasPassed config (established k) xs
