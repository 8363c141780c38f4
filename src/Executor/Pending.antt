-- ===== src/Executor/Pending.antt =====
-- Completing a pending command.
use res_qterra_engine.Common.{
  ℕ, ◌≡◌, ◌≢◌, refl, ap, inl, inr, Option, none, some, List, [], ◌∷◌, ◌++◌, All, arith, ◌==◌,
  ==_iff, Bool-cases,
}
use res_qterra_engine.Executor.{PendingCommand, CommandExecutor, complete_pending, remove_first}

abbrev pub OtherThan : ℕ → List PendingCommand → Type 0
OtherThan command_id = All (λ c. c.command_id ≢ command_id)

-- What taking the first command with an identifier out of a list means.
abbrev pub TakenOut : ℕ → List PendingCommand → List PendingCommand × Option PendingCommand → Type 0
TakenOut command_id cs (left, none) = (left ≡ cs) × OtherThan command_id cs
TakenOut command_id cs (left, some c) =
    (before : List PendingCommand) × (after : List PendingCommand) × (cs ≡ before ++ c ∷ after)
    × (left ≡ before ++ after)
    × (c.command_id ≡ command_id)
    × OtherThan command_id before

taken_later :
    (command_id : ℕ) (c : PendingCommand) (cs : List PendingCommand)
    (r : List PendingCommand × Option PendingCommand)
    → c.command_id ≢ command_id
    → TakenOut command_id cs r
    → TakenOut command_id (c ∷ cs) (c ∷ r.0, r.1)
taken_later command_id c cs (left, none) other (same, rest) = (ap (◌∷◌ c) same, (other, rest))
taken_later command_id c cs (left, some d) other (before, after, split, gone, hit, rest) =
    (c ∷ before, after, ap (◌∷◌ c) split, ap (◌∷◌ c) gone, hit, (other, rest))

remove_first-TakenOut :
    (command_id : ℕ) (cs : List PendingCommand)
    → TakenOut command_id cs (remove_first command_id cs)
unfolding remove_first
remove_first-TakenOut command_id [] = (refl, tt)
remove_first-TakenOut command_id (c ∷ cs) = elim (Bool-cases (c.command_id == command_id)) [
  | inl hit ↦ rw hit ([], cs, refl, refl, (==_iff _ _).0 hit, tt)
  | inr miss ↦ rw miss (
      taken_later command_id c cs (remove_first command_id cs) (λ e. ground arith)
        (remove_first-TakenOut command_id cs))
]

-- `complete_pending` takes out the first pending command with the identifier and keeps the others
-- in their order; if there is none it answers so and changes nothing.
pub complete_pending-TakenOut :
    (x : CommandExecutor) (command_id : ℕ)
    → TakenOut command_id x.pending_commands
        ((complete_pending x command_id).0.pending_commands, (complete_pending x command_id).1)
unfolding complete_pending
complete_pending-TakenOut x command_id = remove_first-TakenOut command_id x.pending_commands
