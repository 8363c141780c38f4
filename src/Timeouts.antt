-- ===== src/Timeouts.antt =====
-- server/src/command/timeout.rs: the loop that retries commands whose ACK is late. One round of the
-- loop is a function; each reading of the clock is a function of the command that it is about.
pub mod Round
pub mod Leak
mod Tests
use res_qterra_engine.Common.{ℕ, Bool, List, [], ◌∷◌, if◌then◌else◌}
use res_qterra_engine.Dispatcher.{
  PendingCommand, CommandDispatcher, can_retry, get_timed_out_commands, retry_command,
  cleanup_expired,
}

-- The readings of a round: for the list of late commands, for the test of `run`, for the test and
-- the new time of sending of `retry_command`, and for the cleanup.
pub record RoundClock : Type 0 where
  pub listed : ℕ → ℕ
  pub judged : ℕ → ℕ
  pub rejudged : ℕ → ℕ
  pub resent : ℕ → ℕ
  pub cleaned : ℕ → ℕ

-- The body of the loop over the late commands, which are copies from the table.
unfoldable pub retry_late : RoundClock → PendingCommand → CommandDispatcher → CommandDispatcher
unfolding can_retry retry_command
retry_late t c d =
    if can_retry c (t.judged c.command_id)
    then (retry_command d (t.rejudged c.command_id) (t.resent c.command_id) c.command_id).0
    else d

unfoldable pub retry_all : RoundClock → List PendingCommand → CommandDispatcher → CommandDispatcher
unfolding retry_late
retry_all t [] d = d
retry_all t (c ∷ cs) d = retry_all t cs (retry_late t c d)

unfoldable pub round : CommandDispatcher → RoundClock → CommandDispatcher
unfolding get_timed_out_commands retry_all cleanup_expired
round d t = (cleanup_expired (retry_all t (get_timed_out_commands d t.listed) d) t.cleaned).0

unfoldable pub rounds : CommandDispatcher → List RoundClock → CommandDispatcher
unfolding round
rounds d [] = d
rounds d (t ∷ ts) = rounds (round d t) ts
