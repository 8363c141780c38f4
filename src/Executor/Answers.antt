-- ===== src/Executor/Answers.antt =====
-- Every command is answered, whatever it is.
use res_qterra_engine.Common.{
  ℕ, zero, suc, ◌+◌, ◌%◌, ◌^◌, ◌<◌, ◌≡◌, refl, ap, ◌∙◌, length, Option, none, some, List, [], ◌∷◌,
  arith,
}
use res_qterra_engine.Proto.{Command, Header, Envelope, Payload, ack, new_header, msg_ack}
use res_qterra_engine.Executor.{CommandExecutor, Clock, execute}

-- What an answer refers to: the sequence number and the command of the request.
abbrev pub refers_to : Option Payload → Option (ℕ × ℕ)
refers_to (some (ack a)) = some (a.ack_sequence_id, a.command_id)
refers_to _ = none

-- Every command gets exactly one answer: an ACK from this device under the next sequence number,
-- which refers to the request; the state and the list of pending commands are left alone.
pub execute-answers :
    (x : CommandExecutor) (t : Clock) (c : Command) (h : Header)
    → let (x', answer) = execute x t c h in
      let seq = (x.sequence_id + 1) % 2 ^ 64 in
      (answer.header ≡ some (new_header x.device_id msg_ack seq t.stamped))
      × (refers_to answer.payload ≡ some (h.sequence_id, c.command_id))
      × (x' ≡ record x { sequence_id = seq })
unfolding execute
execute-answers x t c h = ground arith

abbrev pub Request : Type 0
Request = Clock × Command × Header

-- The requests of a connection, one after the other.
unfoldable pub execute_all : CommandExecutor → List Request → CommandExecutor × List Envelope
unfolding execute
execute_all x [] = (x, [])
execute_all x ((t, c, h) ∷ rs) =
    let (x', answer) = execute x t c h in
    let (last, answers) = execute_all x' rs in (last, answer ∷ answers)

abbrev pub number_of : Envelope → Option ℕ
number_of e = elim e.header [ none ↦ none | some h ↦ some h.sequence_id ]

-- The sequence number of the answer at a position.
abbrev pub number_at : List Envelope → ℕ → Option ℕ
number_at [] k = none
number_at (e ∷ es) zero = number_of e
number_at (e ∷ es) (suc k) = number_at es k

execute-number :
    (x : CommandExecutor) (t : Clock) (c : Command) (h : Header)
    → number_of (execute x t c h).1 ≡ some ((x.sequence_id + 1) % 2 ^ 64)
execute-number x t c h = rw ((execute-answers x t c h).0, number_of)

next_number :
    (x : CommandExecutor) (t : Clock) (c : Command) (h : Header) (k : ℕ)
    → ((execute x t c h).0.sequence_id + suc k) % 2 ^ 64 ≡ (x.sequence_id + suc (suc k)) % 2 ^ 64
next_number x t c h k = rw (execute-answers x t c h).2 (omega arith)

numbers :
    (x : CommandExecutor) (rs : List Request) (k : ℕ)
    → k < length rs
    → number_at (execute_all x rs).1 k ≡ some ((x.sequence_id + suc k) % 2 ^ 64)
unfolding execute_all
numbers x [] k h = absurd (omega arith)
numbers x ((t, c, h) ∷ rs) zero lt = execute-number x t c h
numbers x ((t, c, h) ∷ rs) (suc k) lt =
    numbers (execute x t c h).0 rs k (omega arith) ∙ ap some (next_number x t c h k)

frame :
    (x : CommandExecutor) (rs : List Request)
    → ((execute_all x rs).0.current_state ≡ x.current_state)
      × ((execute_all x rs).0.pending_commands ≡ x.pending_commands)
unfolding execute_all
frame x [] = (refl, refl)
frame x ((t, c, h) ∷ rs) =
    let (state, list) = frame (execute x t c h).0 rs in
    (state ∙ rw (execute-answers x t c h).2, list ∙ rw (execute-answers x t c h).2)

-- The answers to a run of requests are numbered on from the counter, one by one, modulo 2 ^ 64, and
-- nothing but the counter changes.
pub execute_all-numbers :
    (x : CommandExecutor) (rs : List Request) (k : ℕ)
    → k < length rs
    → (number_at (execute_all x rs).1 k ≡ some ((x.sequence_id + suc k) % 2 ^ 64))
      × ((execute_all x rs).0.current_state ≡ x.current_state)
      × ((execute_all x rs).0.pending_commands ≡ x.pending_commands)
execute_all-numbers x rs k h = let (state, list) = frame x rs in (numbers x rs k h, state, list)
