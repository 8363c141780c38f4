-- ===== src/Timeouts/Leak.antt =====
-- Commands with no expiry that nobody answers.
use res_qterra_engine.Common.{ℕ, ◌≡◌, ◌∙◌, some, List, [], ◌∷◌, arith}
use res_qterra_engine.Dispatcher.{PendingCommand, CommandDispatcher}
use res_qterra_engine.Dispatcher.Tracking.{pending_at, IsTracked}
use res_qterra_engine.Timeouts.{RoundClock, round, rounds}
use res_qterra_engine.Timeouts.Round.{after_round, pending_at-round, round-IsTracked}

after_round-spent :
    (t : RoundClock) (id : ℕ) (c : PendingCommand)
    → c.expires_at ≡ 0
    → c.retries ≡ c.max_retries
    → after_round t id (some c) ≡ some c
after_round-spent t id c never spent = ground arith

-- A command with no expiry that has used up its retries is never dropped and never retried again,
-- however many rounds the timeout tracker makes.
pub pending_at-rounds_spent :
    (d : CommandDispatcher) (ts : List RoundClock) (id : ℕ) (c : PendingCommand)
    → IsTracked d
    → c.expires_at ≡ 0
    → c.retries ≡ c.max_retries
    → pending_at id d ≡ some c
    → pending_at id (rounds d ts) ≡ some c
unfolding rounds
pending_at-rounds_spent d [] id c v never spent there = there
pending_at-rounds_spent d (t ∷ ts) id c v never spent there =
    pending_at-rounds_spent (round d t) ts id c (round-IsTracked d t v) never spent
      (pending_at-round d t id v ∙ rw there (after_round-spent t id c never spent))
