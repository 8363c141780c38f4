-- ===== src/Mavlink/Link/Rounds.antt =====
-- src/mavlink/connection.rs: what is read over all the connections to the flight controller.
use res_qterra_engine.Common.{
  ◌≡◌, refl, sym, ◌∙◌, ap, String, Option, none, some, List, [], ◌∷◌, ◌++◌, append-nil,
  append_assoc,
}
use res_qterra_engine.Mavlink.Messages.{MavMessage}
use res_qterra_engine.Mavlink.Link.{
  FcConfig, FcLink, fc_connected, fc_disconnected, FcActivity, handle_connection, FcAttempt,
  fc_opens, fc_refused, established, finished, attempt, connection_loop, closing, goes_on, Position,
  fc_marks, fc_announces, fc_reports, fc_unmarks, reported, unmarked, apart, mark_disconnected,
  send_disconnected,
}
use res_qterra_engine.Mavlink.Link.Traffic.{
  messages_read, first_error, heard, heard-append, handle_connection-HasPassed,
}

-- The messages read over all the connections that there were, as far as the loop has come.
abbrev pub all_read : List FcAttempt → List MavMessage
all_read [] = []
all_read (fc_refused e ∷ rest) = all_read rest
all_read (fc_marks ∷ rest) = []
all_read (fc_announces ∷ rest) = []
all_read (fc_opens xs ∷ rest) =
    messages_read xs ++ elim (first_error xs) [ none ↦ [] | some reason ↦ all_read rest ]
all_read (fc_reports xs ∷ rest) = messages_read xs
all_read (fc_unmarks xs ∷ rest) = messages_read xs

heard-connected : (k : FcLink) → heard (k.events ++ fc_connected ∷ []) ≡ heard k.events
heard-connected k = heard-append k.events (fc_connected ∷ []) ∙ append-nil (heard k.events)

heard-disconnected :
    (k : FcLink) (reason : String)
    → heard (k.events ++ fc_disconnected reason ∷ []) ≡ heard k.events
heard-disconnected k reason =
    heard-append k.events (fc_disconnected reason ∷ []) ∙ append-nil (heard k.events)

connection-heard :
    (config : FcConfig) (k : FcLink) (xs : List FcActivity)
    → heard (handle_connection config (established k) xs).0.events
      ≡ heard k.events ++ messages_read xs
connection-heard config k xs =
    (handle_connection-HasPassed config k xs).0
    ∙ ap (λ l. l ++ messages_read xs) (heard-connected k)

-- Behind the end of a connection nothing is read until the next one.
stopped-heard :
    (r : FcLink × Option String) (there : Position) (after : FcLink → String → FcLink)
    (later : FcLink → FcLink × Position)
    → ((k : FcLink) → goes_on (k, there) later ≡ (k, there))
    → ((k : FcLink) (reason : String) → heard (after k reason).events ≡ heard k.events)
    → heard (goes_on (closing r there after) later).0.events ≡ heard r.0.events
stopped-heard (k, none) there after later stays same = refl
stopped-heard (k, some reason) there after later stays same =
    ap (λ y. heard y.0.events) (stays (after k reason)) ∙ same k reason

finished-heard :
    (config : FcConfig) (r : FcLink × Option String) (rest : List FcAttempt)
    → ((k : FcLink)
        → heard (connection_loop config k rest).0.events ≡ heard k.events ++ all_read rest)
    → heard (goes_on (closing r apart finished) (λ k. connection_loop config k rest)).0.events
      ≡ heard r.0.events ++ elim r.1 [ none ↦ [] | some reason ↦ all_read rest ]
finished-heard config (k, none) rest later = sym (append-nil _)
finished-heard config (k, some reason) rest later =
    later (finished k reason) ∙ ap (λ l. l ++ all_read rest) (heard-disconnected k reason)

-- Over any attempts to connect, the messages of the events are the messages read, all and in order.
pub connection_loop-heard :
    (config : FcConfig) (k : FcLink) (rounds : List FcAttempt)
    → heard (connection_loop config k rounds).0.events ≡ heard k.events ++ all_read rounds
unfolding connection_loop attempt
connection_loop-heard config k [] = sym (append-nil _)
connection_loop-heard config k (fc_refused e ∷ rest) = connection_loop-heard config k rest
connection_loop-heard config k (fc_marks ∷ rest) = sym (append-nil _)
connection_loop-heard config k (fc_announces ∷ rest) = heard-connected k ∙ sym (append-nil _)
connection_loop-heard config k (fc_reports xs ∷ rest) =
    stopped-heard (handle_connection config (established k) xs) reported send_disconnected
      (λ k'. connection_loop config k' rest) (λ k'. refl) heard-disconnected
    ∙ connection-heard config k xs
connection_loop-heard config k (fc_unmarks xs ∷ rest) =
    stopped-heard (handle_connection config (established k) xs) unmarked
      (λ k' reason. mark_disconnected (send_disconnected k' reason))
      (λ k'. connection_loop config k' rest) (λ k'. refl) heard-disconnected
    ∙ connection-heard config k xs
connection_loop-heard config k (fc_opens xs ∷ rest) =
    let next : Option String → List MavMessage =
      λ o. elim o [ none ↦ [] | some reason ↦ all_read rest ] in
    let r = handle_connection config (established k) xs in
    finished-heard config r rest (λ k'. connection_loop-heard config k' rest)
    ∙ ap (λ o. heard r.0.events ++ next o) (handle_connection-HasPassed config k xs).3
    ∙ ap (λ l. l ++ next (first_error xs)) (connection-heard config k xs)
    ∙ append_assoc (heard k.events) (messages_read xs) (next (first_error xs))
