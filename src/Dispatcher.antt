-- ===== src/Dispatcher.antt =====
-- server/src/command/dispatcher.rs: the commands that the server has sent and not seen answered.
-- The clock readings are arguments; where a method reads the clock once for each command, the
-- readings are a function of the command's identifier.
pub mod Tracking
pub mod Acks
pub mod Broadcast
mod Tests
use res_qterra_engine.Common.{
  ℕ, ◌+◌, ◌%◌, ◌^◌, String, Option, none, some, Bool, true, false, not, ◌&&◌, List, [], ◌∷◌, Result,
  ok, err, ltb, if◌then◌else◌, length, nat_key, string_key,
}
use res_qterra_engine.Common.Dict
use res_qterra_engine.Common.Dict.{Dict}
use res_qterra_engine.Proto.{
  CommandType, cmd_unknown, command_type_try_from, AckStatus, ack_unknown, ack_received,
  ack_accepted, ack_rejected, ack_completed, ack_failed, ack_expired, ack_status_try_from, Command,
  Ack, Envelope, command, msg_command, new_header, command_ack_timeout_ms, command_max_retries,
}
use res_qterra_engine.Codec.{Prost}
use res_qterra_engine.Sessions.Handle.{SendError, Wire}
use res_qterra_engine.Sessions.{SessionManager, connected_devices, send_to}

pub record PendingCommand : Type 0 where
  pub command_id : ℕ  -- u64
  pub sequence_id : ℕ  -- u64
  pub device_id : String
  pub cmd_type : CommandType
  pub sent_at : ℕ  -- u64
  pub expires_at : ℕ  -- u64
  pub retries : ℕ  -- u32
  pub max_retries : ℕ  -- u32

unfoldable pub is_timed_out : PendingCommand → ℕ → Bool
is_timed_out c now = ltb ((c.sent_at + command_ack_timeout_ms) % 2 ^ 64) now

unfoldable pub is_expired : PendingCommand → ℕ → Bool
is_expired c now = ltb 0 c.expires_at && ltb c.expires_at now

unfoldable pub can_retry : PendingCommand → ℕ → Bool
unfolding is_expired
can_retry c now = ltb c.retries c.max_retries && not (is_expired c now)

pub record CommandDispatcher : Type 0 where
  pub sequence_id : ℕ  -- u64
  pub last_command_id : ℕ  -- u64, the counter `command_id`
  pub pending : Dict ℕ PendingCommand

unfoldable pub new_dispatcher : ℕ → CommandDispatcher
new_dispatcher sequence_id = record { sequence_id = sequence_id; last_command_id = 0; pending = [] }

unfoldable pub next_command_id : CommandDispatcher → CommandDispatcher × ℕ
next_command_id d =
    let id = (d.last_command_id + 1) % 2 ^ 64 in (record d { last_command_id = id }, id)

unfoldable pub next_sequence_id : CommandDispatcher → CommandDispatcher × ℕ
next_sequence_id d = let seq = (d.sequence_id + 1) % 2 ^ 64 in (record d { sequence_id = seq }, seq)

abbrev pub command_type : Command → CommandType
command_type c = elim (command_type_try_from c.cmd_type) [ some t ↦ t | none ↦ cmd_unknown ]

-- What a command is tracked by when it is sent.
abbrev pub tracked : String → Command → ℕ → ℕ → PendingCommand
tracked device_id c seq sent_at = record {
  command_id = c.command_id;
  sequence_id = seq;
  device_id = device_id;
  cmd_type = command_type c;
  sent_at = sent_at;
  expires_at = c.expires_at_ms;
  retries = 0;
  max_retries = command_max_retries;
}

module _ {D N : Type 0} (p : Prost Envelope D N) (up : ℕ → Bool) where
  pub record Sent : Type 0 where
    pub dispatcher : CommandDispatcher
    pub wire : Wire
    pub result : Result (SendError D N) ℕ

  -- The `?` behind `send_to`.
  finish_send : CommandDispatcher → ℕ → Wire × Result (SendError D N) (Unit {0}) → Sent
  finish_send d cmd_id (wire, ok _) = record { dispatcher = d; wire = wire; result = ok cmd_id }
  finish_send d cmd_id (wire, err x) = record { dispatcher = d; wire = wire; result = err x }

  -- `stamped` and `sent_at` are the readings of the clock for the header and for the tracking.
  unfoldable pub send_command :
      SessionManager → ℕ → ℕ → CommandDispatcher → Wire → String → Command → Sent
  unfolding next_sequence_id send_to finish_send
  send_command sessions stamped sent_at d wire device_id c =
      let (numbered, seq) = next_sequence_id d in
      let envelope : Envelope = record {
        header = some (new_header "server" msg_command seq stamped);
        payload = some (command c);
      } in
      let tracking = record numbered {
        pending = Dict.insert c.command_id (tracked device_id c seq sent_at) numbered.pending;
      } in
      finish_send tracking c.command_id (send_to p up sessions device_id envelope wire)

  abbrev pub sent_id : Result (SendError D N) ℕ → List ℕ → List ℕ
  sent_id (ok id) ids = id ∷ ids
  sent_id (err x) ids = ids

  -- The loop of `broadcast_command`; `stamped` and `sent_at` are read anew for each device.
  unfoldable pub broadcast_to :
      SessionManager
      → (String → ℕ)
      → (String → ℕ)
      → List String
      → CommandDispatcher
      → Wire
      → Command
      → CommandDispatcher × Wire × List ℕ
  unfolding next_command_id send_command
  broadcast_to sessions stamped sent_at [] d wire c = (d, wire, [])
  broadcast_to sessions stamped sent_at (device_id ∷ devices) d wire c =
      let (numbered, id) = next_command_id d in
      let own = record c { command_id = id } in
      let sent =
        send_command sessions (stamped device_id) (sent_at device_id) numbered wire device_id own in
      let (d', wire', ids) =
        broadcast_to sessions stamped sent_at devices sent.dispatcher sent.wire own in
      (d', wire', sent_id sent.result ids)

  unfoldable pub broadcast_command :
      SessionManager
      → (String → ℕ)
      → (String → ℕ)
      → CommandDispatcher
      → Wire
      → Command
      → CommandDispatcher × Wire × List ℕ
  unfolding broadcast_to connected_devices
  broadcast_command sessions stamped sent_at d wire c =
      broadcast_to sessions stamped sent_at (connected_devices sessions) d wire c

-- The `match` of `handle_ack` on the status of the answer to a tracked command.
settle : AckStatus → ℕ → CommandDispatcher → CommandDispatcher
settle ack_completed id d = record d { pending = Dict.remove id d.pending }
settle ack_failed id d = record d { pending = Dict.remove id d.pending }
settle ack_rejected id d = record d { pending = Dict.remove id d.pending }
settle ack_expired id d = record d { pending = Dict.remove id d.pending }
settle _ id d = d

abbrev pub ack_status : Ack → AckStatus
ack_status a = elim (ack_status_try_from a.status) [ some s ↦ s | none ↦ ack_unknown ]

unfoldable pub handle_ack : CommandDispatcher → String → Ack → CommandDispatcher
unfolding settle
handle_ack d device_id a = elim (Dict.get a.command_id d.pending) [
  | none ↦ d
  | some c ↦ settle (ack_status a) a.command_id d
]

unfoldable pub timed_out_in : (ℕ → ℕ) → Dict ℕ PendingCommand → List PendingCommand
unfolding is_timed_out
timed_out_in now [] = []
timed_out_in now ((id, c) ∷ m) =
    let rest = timed_out_in now m in if is_timed_out c (now id) then c ∷ rest else rest

unfoldable pub get_timed_out_commands : CommandDispatcher → (ℕ → ℕ) → List PendingCommand
unfolding timed_out_in
get_timed_out_commands d now = timed_out_in now d.pending

-- `judged` and `resent` are the readings in `can_retry` and for `sent_at`; the Boolean is whether
-- the call succeeds.
retry_found : CommandDispatcher → ℕ → ℕ → ℕ → Option PendingCommand → CommandDispatcher × Bool
unfolding can_retry
retry_found d judged resent id none = (d, true)
retry_found d judged resent id (some c) =
    if not (can_retry c judged) then (record d { pending = Dict.remove id d.pending }, false) else (
      record d {
        pending =
            Dict.adjust id (λ c. record c { retries = (c.retries + 1) % 2 ^ 32; sent_at = resent })
              d.pending;
      },
      true,
    )

unfoldable pub retry_command : CommandDispatcher → ℕ → ℕ → ℕ → CommandDispatcher × Bool
unfolding retry_found
retry_command d judged resent id = retry_found d judged resent id (Dict.get id d.pending)

expired_in : (ℕ → ℕ) → Dict ℕ PendingCommand → List ℕ
unfolding is_expired
expired_in now [] = []
expired_in now ((id, c) ∷ m) =
    let rest = expired_in now m in if is_expired c (now id) then id ∷ rest else rest

remove_ids : List ℕ → Dict ℕ PendingCommand → Dict ℕ PendingCommand
remove_ids [] m = m
remove_ids (id ∷ ids) m = remove_ids ids (Dict.remove id m)

-- Check and removal are under one lock.
unfoldable pub cleanup_expired : CommandDispatcher → (ℕ → ℕ) → CommandDispatcher × List ℕ
unfolding expired_in remove_ids
cleanup_expired d now =
    let expired = expired_in now d.pending in
    (record d { pending = remove_ids expired d.pending }, expired)

unfoldable pub pending_count : CommandDispatcher → ℕ
pending_count d = length d.pending

count_for : String → Dict ℕ PendingCommand → ℕ
count_for device_id [] = 0
count_for device_id ((id, c) ∷ m) =
    let rest = count_for device_id m in
    if string_key.beq c.device_id device_id then rest + 1 else rest

unfoldable pub pending_count_for : CommandDispatcher → String → ℕ
unfolding count_for
pending_count_for d device_id = count_for device_id d.pending
