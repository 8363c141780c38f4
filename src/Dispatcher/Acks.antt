-- ===== src/Dispatcher/Acks.antt =====
-- What an ACK, a retry and a cleanup do to the command under any identifier.
use res_qterra_engine.Common.{
  ℕ, ◌+◌, ◌%◌, ◌^◌, ◌≡◌, refl, ◌∙◌, String, Option, none, some, Bool, true, false, not, ◌&&◌, List,
  [], ◌∷◌, arith, if◌then◌else◌, nat_key, ◌==◌, ==_iff, ltb,
}
use res_qterra_engine.Common.Dict
use res_qterra_engine.Common.Dict.{Dict, get-remove, get-adjust}
use res_qterra_engine.Common.Dict.Distinct.{Unique}
use res_qterra_engine.Proto.{Ack}
use res_qterra_engine.Dispatcher.{
  PendingCommand, CommandDispatcher, handle_ack, settle, ack_status, retry_command, cleanup_expired,
  remove_ids, expired_in, is_expired,
}
use res_qterra_engine.Dispatcher.Tracking.{pending_at, IsTracked}

-- The statuses by which a command is done: rejected 3, completed 4, failed 5, expired 6.
abbrev pub is_final : ℕ → Bool
is_final status = ltb 2 status && ltb status 7

settle-is_final :
    (d : CommandDispatcher) (a : Ack) (j : ℕ)
    → pending_at j (settle (ack_status a) a.command_id d)
      ≡ (if is_final a.status && (a.command_id == j) then none else pending_at j d)
unfolding settle
settle-is_final d a j = ground (arith, get-remove a.command_id j d.pending)

-- An ACK takes its command out of the table exactly if its status says that the command is done
-- (3 to 6 on the wire); any other status, known or not, and every other command, is left alone.
-- Which device sent the ACK makes no difference.
pub handle_ack-pending_at :
    (d : CommandDispatcher) (device_id : String) (a : Ack) (j : ℕ)
    → pending_at j (handle_ack d device_id a)
      ≡ (if is_final a.status && (a.command_id == j) then none else pending_at j d)
unfolding handle_ack
handle_ack-pending_at d device_id a j = ground (arith, settle-is_final d a j, ==_iff a.command_id j)

abbrev again : ℕ → PendingCommand → PendingCommand
again resent c = record c { retries = (c.retries + 1) % 2 ^ 32; sent_at = resent }

-- How a retry turns out for the command that it is about, with the clock at `judged` for the test
-- and at `resent` for the new time of sending.
abbrev pub retried : ℕ → ℕ → Option PendingCommand → Option PendingCommand
retried judged resent none = none
retried judged resent (some c) =
    if ltb c.retries c.max_retries && not (ltb 0 c.expires_at && ltb c.expires_at judged)
    then some (record c { retries = (c.retries + 1) % 2 ^ 32; sent_at = resent })
    else none

-- A retry of a command that has tries left and has not expired counts one more and notes the time;
-- otherwise the command is dropped and the call fails. No other command changes.
pub retry_command-pending_at :
    (d : CommandDispatcher) (judged resent id j : ℕ)
    → pending_at j (retry_command d judged resent id).0
      ≡ (if id == j then retried judged resent (pending_at j d) else pending_at j d)
unfolding retry_command is_expired
retry_command-pending_at d judged resent id j =
    ground (arith, get-remove id j d.pending, get-adjust id j (again resent) d.pending, ==_iff id j)

abbrev pub contains : ℕ → List ℕ → Bool
contains id [] = false
contains id (x ∷ xs) = let rest = contains id xs in if x == id then true else rest

get-remove_ids :
    (id : ℕ) (ids : List ℕ) (m : Dict ℕ PendingCommand)
    → Dict.get id (remove_ids ids m) ≡ (if contains id ids then none else Dict.get id m)
unfolding remove_ids
get-remove_ids id [] m = refl
get-remove_ids id (x ∷ xs) m =
    ground (arith, get-remove_ids id xs (Dict.remove x m), get-remove x id m)

-- Past a time of expiry that is not 0.
abbrev pub has_expired : ℕ → Option PendingCommand → Bool
has_expired now none = false
has_expired now (some c) = ltb 0 c.expires_at && ltb c.expires_at now

contains-expired_in :
    (id : ℕ) (now : ℕ → ℕ) (m : Dict ℕ PendingCommand)
    → Unique m
    → contains id (expired_in now m) ≡ has_expired (now id) (Dict.get id m)
unfolding expired_in Dict.get
contains-expired_in id now [] u = refl
contains-expired_in id now ((j, c) ∷ m) u =
    ground (arith, ==_iff j id, contains-expired_in id now m u.1)

-- A cleanup reports and drops exactly the commands past their time of expiry, of those that have
-- one, and leaves every other as it was.
pub cleanup_expired-pending_at :
    (d : CommandDispatcher) (now : ℕ → ℕ) (id : ℕ)
    → IsTracked d
    → (contains id (cleanup_expired d now).1 ≡ has_expired (now id) (pending_at id d))
      × (pending_at id (cleanup_expired d now).0
          ≡ (if has_expired (now id) (pending_at id d) then none else pending_at id d))
unfolding cleanup_expired
cleanup_expired-pending_at d now id v = (
  contains-expired_in id now d.pending v.unique,
  get-remove_ids id (expired_in now d.pending) d.pending
      ∙ rw (contains-expired_in id now d.pending v.unique),
)
