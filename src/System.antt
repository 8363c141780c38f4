-- ===== src/System.antt =====
-- src/ and server/ together: a command of the server on the edge, and its answer back on the server.
pub mod Path
mod Tests
use res_qterra_engine.Common.{
  ℕ, ◌+◌, ◌%◌, ◌^◌, ◌≡◌, refl, ap, sym, subst, ◌∙◌, String, Option, none, some, Bool, true, false,
  arith, if◌then◌else◌, ◌&&◌, ◌==◌, nat_key,
}
use res_qterra_engine.Proto.{
  new_header, msg_ack, Envelope, Header, Payload, Command, Ack, ack, telemetry, command, heartbeat,
  sensor_data, AckStatus, ack_expired, ack_status_to_i32,
}
use res_qterra_engine.Codec.{Prost}
use res_qterra_engine.Executor.{CommandExecutor, Clock, execute, is_expired_at}
use res_qterra_engine.Executor.Answers.{refers_to, execute-answers}
use res_qterra_engine.Executor.Verdict.{status_of, verdict, execute-verdict}
use res_qterra_engine.Dispatcher.{handle_ack}
use res_qterra_engine.Dispatcher.Tracking.{pending_at}
use res_qterra_engine.Dispatcher.Acks.{is_final, handle_ack-pending_at}
use res_qterra_engine.Sessions.Handle.{SessionHandle}
use res_qterra_engine.Server.{Server, Moment, handle_envelope}

-- The status of an answer is one of those by which a command is done.
answer_is_final :
    (x : CommandExecutor) (t : Clock) (c : Command)
    → is_final (
        ack_status_to_i32
          (if is_expired_at c t.checked then ack_expired else verdict x.current_state c))
      ≡ true
answer_is_final x t c = ground arith

module _ {D N : Type 0} (p : Prost Envelope D N) (up : ℕ → Bool) where
  -- An answer with a final status settles the command to which it refers.
  payload-settles :
      (x : Server) (handle : SessionHandle) (t : Moment) (to : Header) (o : Option Payload)
      (status seq id j : ℕ)
      → status_of o ≡ some status
      → refers_to o ≡ some (seq, id)
      → is_final status ≡ true
      → pending_at j
          (handle_envelope p up x handle t (record { header = some to; payload = o })).dispatcher
        ≡ (if id == j then none else pending_at j x.dispatcher)
  unfolding handle_envelope
  payload-settles x handle t to (some (ack a)) status seq id j hs hr final =
      let same_status : a.status ≡ status = ground (arith, hs) in
      let same_id : a.command_id ≡ id = ground (arith, hr) in
      handle_ack-pending_at x.dispatcher to.device_id a j ∙ rw (same_status, same_id, final) refl
  payload-settles x handle t to (some (telemetry a)) status seq id j hs hr final =
      absurd (ground arith)
  payload-settles x handle t to (some (command a)) status seq id j hs hr final =
      absurd (ground arith)
  payload-settles x handle t to (some (heartbeat a)) status seq id j hs hr final =
      absurd (ground arith)
  payload-settles x handle t to (some (sensor_data a)) status seq id j hs hr final =
      absurd (ground arith)
  payload-settles x handle t to none status seq id j hs hr final = absurd (ground arith)

  -- Whatever the edge makes of a command, its answer takes the command out of the server's table of
  -- commands when it arrives, and leaves every other command as it was.
  pub answer-settles :
      (e : CommandExecutor) (clock : Clock) (c : Command) (h : Header) (x : Server)
      (handle : SessionHandle) (t : Moment) (j : ℕ)
      → pending_at j (handle_envelope p up x handle t (execute e clock c h).1).dispatcher
        ≡ (if c.command_id == j then none else pending_at j x.dispatcher)
  unfolding handle_envelope
  answer-settles e clock c h x handle t j =
      let (header, refers, _) = execute-answers e clock c h in
      let answer = (execute e clock c h).1 in
      let arrives : Option Header → Server =
        λ o. handle_envelope p up x handle t (record { header = o; payload = answer.payload }) in
      subst
        (λ o.
          pending_at j (arrives o).dispatcher
          ≡ (if c.command_id == j then none else pending_at j x.dispatcher))
        (sym header)
        (payload-settles x handle t
          (new_header e.device_id msg_ack ((e.sequence_id + 1) % 2 ^ 64) clock.stamped)
          answer.payload _ h.sequence_id c.command_id j (execute-verdict e clock c h) refers
          (answer_is_final e clock c))
