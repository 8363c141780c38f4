-- ===== src/Dispatcher/Tracking.antt =====
-- The table of pending commands: each stands under its own identifier, and has been retried no more
-- often than it may.
use res_qterra_engine.Common.{
  ℕ, ◌+◌, ◌≡◌, ◌≤◌, refl, String, Option, none, some, Bool, true, List, [], ◌∷◌, arith, nat_key,
  ◌%◌, ◌^◌, ◌↔◌, Result, ok, err, Bool-cases, inl, inr,
}
use res_qterra_engine.Common.Dict
use res_qterra_engine.Common.Dict.{Dict, get-insert, get-remove, get-adjust}
use res_qterra_engine.Common.Dict.Distinct.{Unique, insert-Unique, remove-Unique, adjust-Unique}
use res_qterra_engine.Proto.{Command, Envelope, Ack, AckStatus, command, msg_command, new_header}
use res_qterra_engine.Codec.{Prost}
use res_qterra_engine.Sessions.Handle.{SendError, Wire}
use res_qterra_engine.Sessions.{SessionManager, send_to}
use res_qterra_engine.Dispatcher.{
  PendingCommand, CommandDispatcher, tracked, handle_ack, settle, finish_send, ack_status,
  send_command, retry_command, retry_found, cleanup_expired, remove_ids, expired_in, can_retry,
}

abbrev pub pending_at : ℕ → CommandDispatcher → Option PendingCommand
pending_at id d = Dict.get id d.pending

-- A command stands under its own identifier, and has no more retries than it may have.
abbrev pub IsOwn : ℕ → PendingCommand → Type 0
IsOwn id c = (c.command_id ≡ id) × (c.retries ≤ c.max_retries) × (c.max_retries ≤ 3)

abbrev pub AllOwn : Dict ℕ PendingCommand → Type 0
AllOwn [] = Unit
AllOwn ((id, c) ∷ m) = IsOwn id c × AllOwn m

pub record IsTracked (d : CommandDispatcher) : Type 0 where
  pub unique : Unique d.pending
  pub own : AllOwn d.pending

pub get-IsOwn :
    (id : ℕ) (c : PendingCommand) (m : Dict ℕ PendingCommand)
    → AllOwn m
    → Dict.get id m ≡ some c
    → IsOwn id c
unfolding Dict.get
get-IsOwn id c [] all h = cc
get-IsOwn id c ((j, x) ∷ m) all h = ground (arith, get-IsOwn id c m all.1)

insert-AllOwn :
    (id : ℕ) (c : PendingCommand) (m : Dict ℕ PendingCommand)
    → IsOwn id c
    → AllOwn m
    → AllOwn (Dict.insert id c m)
unfolding Dict.insert
insert-AllOwn id c [] h all = (h, tt)
insert-AllOwn id c ((j, x) ∷ m) h all = ground (arith, insert-AllOwn id c m h all.1)

remove-AllOwn : (id : ℕ) (m : Dict ℕ PendingCommand) → AllOwn m → AllOwn (Dict.remove id m)
unfolding Dict.remove
remove-AllOwn id [] all = tt
remove-AllOwn id ((j, x) ∷ m) all = ground (arith, remove-AllOwn id m all.1)

-- A write through the reference that suits the command that is there.
adjust-AllOwn :
    (id : ℕ) (f : PendingCommand → PendingCommand) (m : Dict ℕ PendingCommand)
    → ((c : PendingCommand) → Dict.get id m ≡ some c → IsOwn id (f c))
    → AllOwn m
    → AllOwn (Dict.adjust id f m)
unfolding Dict.adjust Dict.get
adjust-AllOwn id f [] keep all = tt
adjust-AllOwn id f ((j, x) ∷ m) keep all = ground (arith, keep x, adjust-AllOwn id f m)

-- The calls that change the table. A send changes it in the same way whether it succeeds or not.
pub data Call : Type 0 where
  sends : String → Command → ℕ → Call
  acked : String → Ack → Call
  retries : ℕ → ℕ → ℕ → Call
  cleans : (ℕ → ℕ) → Call

-- What `send_command` does to the dispatcher.
abbrev pub track : CommandDispatcher → String → Command → ℕ → CommandDispatcher
track d device_id c sent_at =
    let seq = (d.sequence_id + 1) % 2 ^ 64 in
    record d {
      sequence_id = seq;
      pending = Dict.insert c.command_id (tracked device_id c seq sent_at) d.pending;
    }

module _ {D N : Type 0} (p : Prost Envelope D N) (up : ℕ → Bool) where
  finish_send-track :
      (d : CommandDispatcher) (id : ℕ) (r : Wire × Result (SendError D N) (Unit {0}))
      → let sent = finish_send p up d id r in
        (sent.dispatcher ≡ d) × (sent.wire ≡ r.0) × ((sent.result ≡ ok id) ↔ (r.1 ≡ ok tt))
  unfolding finish_send
  finish_send-track d id (wire, ok _) = (refl, refl, (λ _. refl, λ _. refl))
  finish_send-track d id (wire, err x) = (refl, refl, (λ e. cc, λ e. cc))

  -- Whether the drone is connected or not, the message fits or not and the write succeeds or not,
  -- the command is tracked under a new sequence number with no retries, replacing whatever stood
  -- under its identifier, and nothing else changes in the dispatcher; the call succeeds exactly if
  -- the send does, with the identifier.
  pub send_command-track :
      (sessions : SessionManager) (stamped sent_at : ℕ) (d : CommandDispatcher) (wire : Wire)
      (device_id : String) (c : Command)
      → let sent = send_command p up sessions stamped sent_at d wire device_id c in
        let seq = (d.sequence_id + 1) % 2 ^ 64 in
        let (written, outcome) =
          send_to p up sessions device_id
            (record {
              header = some (new_header "server" msg_command seq stamped);
              payload = some (command c);
            })
            wire in
        (sent.dispatcher ≡ track d device_id c sent_at)
        × (sent.wire ≡ written)
        × ((sent.result ≡ ok c.command_id) ↔ (outcome ≡ ok tt))
  unfolding send_command
  send_command-track sessions stamped sent_at d wire device_id c =
      finish_send-track _ c.command_id _

pub track-IsTracked :
    (d : CommandDispatcher) (device_id : String) (c : Command) (sent_at : ℕ)
    → IsTracked d
    → IsTracked (track d device_id c sent_at)
track-IsTracked d device_id c sent_at v = record {
  unique = insert-Unique c.command_id _ d.pending v.unique;
  own = insert-AllOwn c.command_id _ d.pending (omega arith) v.own;
}

settle-IsTracked :
    (s : AckStatus) (id : ℕ) (d : CommandDispatcher) → IsTracked d → IsTracked (settle s id d)
unfolding settle
settle-IsTracked s id d v =
    ground (arith, remove-Unique id d.pending v.unique, remove-AllOwn id d.pending v.own)

retried-IsOwn :
    (id : ℕ) (c x : PendingCommand) (judged resent : ℕ) (m : Dict ℕ PendingCommand)
    → Dict.get id m ≡ some c
    → Dict.get id m ≡ some x
    → IsOwn id c
    → can_retry c judged ≡ true
    → IsOwn id (record x { retries = (x.retries + 1) % 2 ^ 32; sent_at = resent })
unfolding can_retry
retried-IsOwn id c x judged resent m h there own again = ground arith

retry_found-IsTracked :
    (d : CommandDispatcher) (judged resent id : ℕ) (o : Option PendingCommand)
    → Dict.get id d.pending ≡ o
    → IsTracked d
    → IsTracked (retry_found d judged resent id o).0
unfolding retry_found
retry_found-IsTracked d judged resent id none h v = v
retry_found-IsTracked d judged resent id (some c) h v = elim (Bool-cases (can_retry c judged)) [
  | inl again ↦
      let own = get-IsOwn id c d.pending v.own h in
      rw again (record {
        unique = adjust-Unique id _ d.pending v.unique;
        own =
            adjust-AllOwn id _ d.pending
              (λ x there. retried-IsOwn id c x judged resent d.pending h there own again) v.own;
      })
  | inr done ↦ rw done (record {
    unique = remove-Unique id d.pending v.unique;
    own = remove-AllOwn id d.pending v.own;
  })
]

remove_ids-IsTracked :
    (ids : List ℕ) (m : Dict ℕ PendingCommand)
    → Unique m
    → AllOwn m
    → Unique (remove_ids ids m) × AllOwn (remove_ids ids m)
unfolding remove_ids
remove_ids-IsTracked [] m u all = (u, all)
remove_ids-IsTracked (id ∷ ids) m u all =
    remove_ids-IsTracked ids (Dict.remove id m) (remove-Unique id m u) (remove-AllOwn id m all)

unfoldable pub step : CommandDispatcher → Call → CommandDispatcher
unfolding handle_ack retry_command cleanup_expired
step d (sends device_id c sent_at) = track d device_id c sent_at
step d (acked device_id a) = handle_ack d device_id a
step d (retries judged resent id) = (retry_command d judged resent id).0
step d (cleans now) = (cleanup_expired d now).0

handle_ack-IsTracked :
    (d : CommandDispatcher) (device_id : String) (a : Ack)
    → IsTracked d
    → IsTracked (handle_ack d device_id a)
unfolding handle_ack
handle_ack-IsTracked d device_id a v =
    ground (arith, settle-IsTracked (ack_status a) a.command_id d v)

-- Every call keeps each identifier at most once in the table, each command under its own
-- identifier, and no command retried more often than it may be, which is at most three times.
pub step-IsTracked : (d : CommandDispatcher) (c : Call) → IsTracked d → IsTracked (step d c)
unfolding step
step-IsTracked d (sends device_id c sent_at) v = track-IsTracked d device_id c sent_at v
step-IsTracked d (acked device_id a) v = handle_ack-IsTracked d device_id a v
step-IsTracked d (retries judged resent id) v =
    retry_found-IsTracked d judged resent id (Dict.get id d.pending) refl v
step-IsTracked d (cleans now) v =
    let (u, all) = remove_ids-IsTracked (expired_in now d.pending) d.pending v.unique v.own in
    record { unique = u; own = all }
