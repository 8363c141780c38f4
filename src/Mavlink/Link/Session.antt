-- ===== src/Mavlink/Link/Session.antt =====
-- src/mavlink/connection.rs: the events that `connection_loop` sends tell the state of the link.
use res_qterra_engine.Common.{
  String, ◌≡◌, refl, ◌∙◌, inl, inr, Option, none, some, Bool, true, false, List, [], ◌∷◌, ◌++◌,
  arith, Option-cases,
}
use res_qterra_engine.Mavlink.Messages.{MavMessage, MavHeartbeat, as_heartbeat}
use res_qterra_engine.Mavlink.Link.{
  FcConfig, FcLink, FcEvent, fc_connected, fc_disconnected, fc_message, fc_heartbeat, new_link,
  heartbeat_event, FcActivity, outgoing, polled, polled_message, would_block, poll_failed,
  handle_activity, handle_connection, FcAttempt, fc_refused, fc_marks, fc_announces, fc_opens,
  fc_reports, fc_unmarks, Position, apart, marked, announced, handling, reported, unmarked, closing,
  goes_on, send_disconnected, mark_disconnected, established, finished, attempt, connection_loop,
}

-- A listener that knows whether the link is up, and refuses an event out of turn.
abbrev pub follow : Bool → List FcEvent → Option Bool
follow up [] = some up
follow false (fc_connected ∷ es) = follow true es
follow true (fc_disconnected reason ∷ es) = follow false es
follow true (fc_message msg ∷ es) = follow true es
follow true (fc_heartbeat a t s b c ∷ es) = follow true es
follow _ _ = none

follow-append :
    (up up' : Bool) (es fs : List FcEvent)
    → follow up es ≡ some up'
    → follow up (es ++ fs) ≡ follow up' fs
follow-append true up' [] fs h = ground arith
follow-append false up' [] fs h = ground arith
follow-append true up' (fc_connected ∷ es) fs h = absurd (ground arith)
follow-append true up' (fc_disconnected r ∷ es) fs h = follow-append false up' es fs h
follow-append true up' (fc_message m ∷ es) fs h = follow-append true up' es fs h
follow-append true up' (fc_heartbeat a t s b c ∷ es) fs h = follow-append true up' es fs h
follow-append false up' (fc_connected ∷ es) fs h = follow-append true up' es fs h
follow-append false up' (fc_disconnected r ∷ es) fs h = absurd (ground arith)
follow-append false up' (fc_message m ∷ es) fs h = absurd (ground arith)
follow-append false up' (fc_heartbeat a t s b c ∷ es) fs h = absurd (ground arith)

follow-message :
    (o : Option MavHeartbeat) (msg : MavMessage)
    → follow true (heartbeat_event o ++ fc_message msg ∷ []) ≡ some true
follow-message (some hb) msg = refl
follow-message none msg = refl

-- At each place of the loop: whether the events so far say that the link is up, what `is_connected`
-- answers, and whether a connection is stored.
abbrev pub flags : Position → Bool × Bool × Bool
flags apart = (false, false, false)
flags marked = (false, true, false)
flags announced = (true, true, false)
flags handling = (true, true, true)
flags reported = (false, true, true)
flags unmarked = (false, false, true)

abbrev pub IsAt : FcLink × Position → Type 0
IsAt (k, there) =
    (follow false k.events ≡ some (flags there).0)
    × (k.connected ≡ (flags there).1)
    × (k.stored ≡ (flags there).2)

-- An open connection.
abbrev IsUp : FcLink → Type 0
IsUp k = (follow false k.events ≡ some true) × (k.stored ≡ true) × (k.connected ≡ true)

handle_activity-IsUp :
    (config : FcConfig) (k : FcLink) (a : FcActivity) → IsUp k → IsUp (handle_activity config k a).0
unfolding handle_activity
handle_activity-IsUp config k (outgoing msg none) h = ground (arith, h)
handle_activity-IsUp config k (outgoing msg (some e)) h = ground (arith, h)
handle_activity-IsUp config k (polled (polled_message msg)) h = rw h.1 (
    (
      follow-append false true k.events (heartbeat_event (as_heartbeat msg) ++ fc_message msg ∷ [])
            h.0
          ∙ follow-message (as_heartbeat msg) msg,
      refl,
      h.2,
    ))
handle_activity-IsUp config k (polled would_block) h = ground (arith, h)
handle_activity-IsUp config k (polled (poll_failed e)) h = ground (arith, h)

handle_connection-IsUp :
    (config : FcConfig) (k : FcLink) (xs : List FcActivity)
    → IsUp k
    → IsUp (handle_connection config k xs).0
unfolding handle_connection
handle_connection-IsUp config k [] h = h
handle_connection-IsUp config k (a ∷ xs) h =
    let up = handle_activity-IsUp config k a h in
    let later = handle_connection-IsUp config (handle_activity config k a).0 xs up in
    elim (Option-cases (handle_activity config k a).1) [
      | inl e ↦ rw (e, handle_connection) later
      | inr (reason, e) ↦ rw (e, handle_connection) up
    ]

connected-follow :
    (k : FcLink) → IsAt (k, apart) → follow false (k.events ++ fc_connected ∷ []) ≡ some true
connected-follow k h = follow-append false false k.events (fc_connected ∷ []) h.0

disconnected-follow :
    (k : FcLink) (reason : String)
    → IsUp k
    → follow false (k.events ++ fc_disconnected reason ∷ []) ≡ some false
disconnected-follow k reason up =
    follow-append false true k.events (fc_disconnected reason ∷ []) up.0

established-IsUp : (k : FcLink) → IsAt (k, apart) → IsUp (established k)
established-IsUp k h = (connected-follow k h, refl, refl)

-- A connection that goes on is up, and one that is over is where the steps after it have come.
closing-IsAt :
    (r : FcLink × Option String) (there : Position) (after : FcLink → String → FcLink)
    → IsUp r.0
    → ((reason : String) → IsAt (after r.0 reason, there))
    → IsAt (closing r there after)
closing-IsAt (k, none) there after up over = (up.0, up.2, up.1)
closing-IsAt (k, some reason) there after up over = over reason

attempt-IsAt :
    (config : FcConfig) (k : FcLink) (a : FcAttempt) → IsAt (k, apart) → IsAt (attempt config k a)
unfolding attempt
attempt-IsAt config k (fc_refused e) h = h
attempt-IsAt config k fc_marks h = (h.0, refl, h.2)
attempt-IsAt config k fc_announces h = (connected-follow k h, refl, h.2)
attempt-IsAt config k (fc_opens xs) h =
    let r = handle_connection config (established k) xs in
    let up = handle_connection-IsUp config (established k) xs (established-IsUp k h) in
    closing-IsAt r apart finished up (λ reason. (disconnected-follow r.0 reason up, refl, refl))
attempt-IsAt config k (fc_reports xs) h =
    let r = handle_connection config (established k) xs in
    let up = handle_connection-IsUp config (established k) xs (established-IsUp k h) in
    closing-IsAt r reported send_disconnected up
      (λ reason. (disconnected-follow r.0 reason up, up.2, up.1))
attempt-IsAt config k (fc_unmarks xs) h =
    let r = handle_connection config (established k) xs in
    let up = handle_connection-IsUp config (established k) xs (established-IsUp k h) in
    closing-IsAt r unmarked (λ k' reason. mark_disconnected (send_disconnected k' reason)) up
      (λ reason. (disconnected-follow r.0 reason up, refl, up.1))

goes_on-IsAt :
    (r : FcLink × Position) (later : FcLink → FcLink × Position)
    → IsAt r
    → ((k : FcLink) → IsAt (k, apart) → IsAt (later k))
    → IsAt (goes_on r later)
goes_on-IsAt (k, apart) later h next = next k h
goes_on-IsAt (k, marked) later h next = h
goes_on-IsAt (k, announced) later h next = h
goes_on-IsAt (k, handling) later h next = h
goes_on-IsAt (k, reported) later h next = h
goes_on-IsAt (k, unmarked) later h next = h

connection_loop-IsAt :
    (config : FcConfig) (k : FcLink) (rounds : List FcAttempt)
    → IsAt (k, apart)
    → IsAt (connection_loop config k rounds)
unfolding connection_loop
connection_loop-IsAt config k [] h = h
connection_loop-IsAt config k (a ∷ rest) h =
    goes_on-IsAt (attempt config k a) (λ k'. connection_loop config k' rest)
      (attempt-IsAt config k a h) (λ k' h'. connection_loop-IsAt config k' rest h')

-- Whatever the attempts to connect come to, the events of the link are in turn (connected, then
-- messages and heartbeats, then disconnected), and what they, `is_connected` and the stored
-- connection say of it agree, but for the moments between the steps of opening and closing: the link
-- is connected just before that is reported and just after its end is, and a connection is stored
-- last and cleared last.
pub connection_loop-follow :
    (config : FcConfig) (rounds : List FcAttempt) → IsAt (connection_loop config new_link rounds)
connection_loop-follow config rounds =
    connection_loop-IsAt config new_link rounds (refl, refl, refl)
