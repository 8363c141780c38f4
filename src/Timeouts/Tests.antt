-- ===== src/Timeouts/Tests.antt =====
-- Rounds of the timeout tracker on a small table.
use res_qterra_engine.Common.{ℕ, ◌≡◌, refl, some, [], ◌∷◌, arith, nat_key}
use res_qterra_engine.Common.Dict
use res_qterra_engine.Proto.{cmd_rth, cmd_status_request}
use res_qterra_engine.Dispatcher.{PendingCommand, CommandDispatcher}
use res_qterra_engine.Dispatcher.Tracking.{pending_at, IsTracked}
use res_qterra_engine.Timeouts.{RoundClock, round, rounds}
use res_qterra_engine.Timeouts.Round.{pending_at-round}
use res_qterra_engine.Timeouts.Leak.{pending_at-rounds_spent}

abbrev rth : PendingCommand
rth = record {
  command_id = 7;
  sequence_id = 3;
  device_id = "edge-001";
  cmd_type = cmd_rth;
  sent_at = 1000;
  expires_at = 31000;
  retries = 2;
  max_retries = 3;
}

abbrev spent : PendingCommand
spent = record {
  command_id = 8;
  sequence_id = 4;
  device_id = "edge-001";
  cmd_type = cmd_status_request;
  sent_at = 1000;
  expires_at = 0;
  retries = 3;
  max_retries = 3;
}

abbrev two_sent : CommandDispatcher
two_sent = record { sequence_id = 4; last_command_id = 8; pending = (7, rth) ∷ (8, spent) ∷ [] }

two_sent-IsTracked : IsTracked two_sent
unfolding Dict.get
two_sent-IsTracked = record {
  unique = (refl, (refl, tt));
  own = ((refl, omega arith, omega arith), ((refl, omega arith, omega arith), tt));
}

abbrev at : ℕ → RoundClock
at now = record {
  listed = λ id. now;
  judged = λ id. now;
  rejudged = λ id. now;
  resent = λ id. now;
  cleaned = λ id. now;
}

pending_at-round_example :
    pending_at 7 (round two_sent (at 4001)) ≡ some (record rth { retries = 3; sent_at = 4001 })
unfolding Dict.get
pending_at-round_example = pending_at-round two_sent (at 4001) 7 two_sent-IsTracked

pending_at-rounds_spent_example :
    pending_at 8 (rounds two_sent (at 4001 ∷ at 8002 ∷ [])) ≡ some spent
unfolding Dict.get
pending_at-rounds_spent_example =
    pending_at-rounds_spent two_sent (at 4001 ∷ at 8002 ∷ []) 8 spent two_sent-IsTracked refl refl
      refl
