-- ===== src/Dispatcher/Broadcast.antt =====
-- The commands that a broadcast sends.
use res_qterra_engine.Common.{
  ℕ, zero, suc, ◌+◌, ◌%◌, ◌^◌, String, Option, none, some, Bool, List, [], ◌∷◌, nat_key,
}
use res_qterra_engine.Proto.{Envelope, Command}
use res_qterra_engine.Codec.{Prost}
use res_qterra_engine.Sessions.Handle.{Wire}
use res_qterra_engine.Sessions.{SessionManager}
use res_qterra_engine.Dispatcher.{CommandDispatcher, broadcast_to}
use res_qterra_engine.Dispatcher.Tracking.{track}

abbrev pub device_at : List String → ℕ → Option String
device_at [] k = none
device_at (d ∷ ds) zero = some d
device_at (d ∷ ds) (suc k) = device_at ds k

-- The command with an identifier of its own.
abbrev pub numbered : Command → ℕ → Command
numbered c id = record c { command_id = id }

-- The dispatcher after one command of a broadcast.
abbrev after_one : CommandDispatcher → String → Command → ℕ → CommandDispatcher
after_one d device_id c sent_at =
    let id = (d.last_command_id + 1) % 2 ^ 64 in
    track (record d { last_command_id = id }) device_id (numbered c id) sent_at

module _ {D N : Type 0} (p : Prost Envelope D N) (up : ℕ → Bool) (sessions : SessionManager)
    (stamped sent_at : String → ℕ) where
  abbrev broadcast : List String → CommandDispatcher → Wire → Command → CommandDispatcher
  broadcast ds d wire c = (broadcast_to p up sessions stamped sent_at ds d wire c).0
