-- ===== src/Timeouts/Round.antt =====
-- What a round of the timeout tracker does to the command under any identifier.
use res_qterra_engine.Common.{
  ℕ, ◌+◌, ◌%◌, ◌^◌, ◌≡◌, refl, ◌∙◌, Option, none, some, Bool, not, ◌&&◌, List, [], ◌∷◌, arith,
  if◌then◌else◌, nat_key, ◌==◌, ==_iff, ltb, Bool-cases, inl, inr,
}
use res_qterra_engine.Common.Dict
use res_qterra_engine.Common.Dict.{Dict}
use res_qterra_engine.Common.Dict.Distinct.{Unique}
use res_qterra_engine.Dispatcher.{
  PendingCommand, CommandDispatcher, can_retry, is_timed_out, is_expired, get_timed_out_commands,
  timed_out_in,
}
use res_qterra_engine.Dispatcher.Tracking.{
  pending_at, IsTracked, AllOwn, step, step-IsTracked, retries, cleans,
}
use res_qterra_engine.Dispatcher.Acks.{
  retried, retry_command-pending_at, has_expired, cleanup_expired-pending_at,
}
use res_qterra_engine.Timeouts.{RoundClock, retry_late, retry_all, round, rounds}

-- Whether the round retries the command: it is late, has tries left and has not expired.
abbrev is_due : RoundClock → ℕ → PendingCommand → Bool
is_due t id c =
    ltb ((c.sent_at + 3000) % 2 ^ 64) (t.listed id)
    && (ltb c.retries c.max_retries && not (ltb 0 c.expires_at && ltb c.expires_at (t.judged id)))

-- What the loop over the late commands makes of the command `now`, where the copy says `seen`.
abbrev after_retries :
    RoundClock → ℕ → Option PendingCommand → Option PendingCommand → Option PendingCommand
after_retries t id none now = now
after_retries t id (some c) now =
    if is_due t id c then retried (t.rejudged id) (t.resent id) now else now

abbrev unless_expired : ℕ → Option PendingCommand → Option PendingCommand
unless_expired now o = if has_expired now o then none else o

retry_late-pending_at :
    (t : RoundClock) (c : PendingCommand) (d : CommandDispatcher) (id : ℕ)
    → pending_at id (retry_late t c d) ≡ (
        if can_retry c (t.judged c.command_id) && (c.command_id == id)
        then retried (t.rejudged id) (t.resent id) (pending_at id d)
        else pending_at id d)
unfolding retry_late
retry_late-pending_at t c d id = ground (
  arith,
  retry_command-pending_at d (t.rejudged c.command_id) (t.resent c.command_id) c.command_id id,
  ==_iff c.command_id id,
)

retry_all-pending_at :
    (t : RoundClock) (m : Dict ℕ PendingCommand) (d : CommandDispatcher) (id : ℕ)
    → Unique m
    → AllOwn m
    → pending_at id (retry_all t (timed_out_in t.listed m) d)
      ≡ after_retries t id (Dict.get id m) (pending_at id d)
unfolding retry_all timed_out_in is_timed_out can_retry is_expired Dict.get
retry_all-pending_at t [] d id u own = refl
retry_all-pending_at t ((j, c) ∷ m) d id u own = ground (
  arith,
  retry_all-pending_at t m d id u.1 own.1,
  retry_all-pending_at t m (retry_late t c d) id u.1 own.1,
  retry_late-pending_at t c d id,
  ==_iff j id,
)

retry_late-IsTracked :
    (t : RoundClock) (c : PendingCommand) (d : CommandDispatcher)
    → IsTracked d
    → IsTracked (retry_late t c d)
unfolding retry_late step
retry_late-IsTracked t c d v = elim (Bool-cases (can_retry c (t.judged c.command_id))) [
  | inl again ↦
      rw again (
        step-IsTracked d (retries (t.rejudged c.command_id) (t.resent c.command_id) c.command_id) v)
  | inr done ↦ rw done v
]

retry_all-IsTracked :
    (t : RoundClock) (cs : List PendingCommand) (d : CommandDispatcher)
    → IsTracked d
    → IsTracked (retry_all t cs d)
unfolding retry_all
retry_all-IsTracked t [] d v = v
retry_all-IsTracked t (c ∷ cs) d v =
    retry_all-IsTracked t cs (retry_late t c d) (retry_late-IsTracked t c d v)

pub round-IsTracked : (d : CommandDispatcher) (t : RoundClock) → IsTracked d → IsTracked (round d t)
unfolding round step
round-IsTracked d t v =
    step-IsTracked (retry_all t (get_timed_out_commands d t.listed) d) (cleans t.cleaned)
      (retry_all-IsTracked t (get_timed_out_commands d t.listed) d v)

-- Any number of rounds leaves each identifier at most once in the table, each command under its
-- own identifier, and no command retried more often than it may be.
pub rounds-IsTracked :
    (d : CommandDispatcher) (ts : List RoundClock) → IsTracked d → IsTracked (rounds d ts)
unfolding rounds
rounds-IsTracked d [] v = v
rounds-IsTracked d (t ∷ ts) v = rounds-IsTracked (round d t) ts (round-IsTracked d t v)

-- What a round makes of one command: if its ACK is more than three seconds late, it has tries left
-- and has not expired, it is retried, which drops it if it has expired by then; whatever is left
-- is dropped if it is past its expiry.
abbrev pub after_round : RoundClock → ℕ → Option PendingCommand → Option PendingCommand
after_round t id o = unless_expired (t.cleaned id) (after_retries t id o o)

-- A round of the timeout tracker over the whole table does to the command under each identifier
-- what `after_round` does to that command alone, if the table is well formed: no command is met
-- twice, and none is touched for the sake of another.
pub pending_at-round :
    (d : CommandDispatcher) (t : RoundClock) (id : ℕ)
    → IsTracked d
    → pending_at id (round d t) ≡ after_round t id (pending_at id d)
unfolding round get_timed_out_commands
pending_at-round d t id v =
    let late = get_timed_out_commands d t.listed in
    (cleanup_expired-pending_at (retry_all t late d) t.cleaned id
      (retry_all-IsTracked t late d v)).1
    ∙ rw (retry_all-pending_at t d.pending d id v.unique v.own)
