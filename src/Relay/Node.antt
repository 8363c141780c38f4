-- ===== src/Relay/Node.antt =====
-- relay-node/src/main.rs: `main` and `run_rfcomm_listener`, the two listeners of the relay and the
-- tasks that they spawn.
use res_qterra_engine.Common.{
  ℕ, String, Option, none, some, List, [], ◌∷◌, ◌++◌, Result, ok, err, if◌then◌else◌, modify,
}
use res_qterra_engine.Relay.Config.{RelayConfig}
use res_qterra_engine.Relay.Forward.{Relay, Turn, turn, Ending}

-- How far the handler of a connection has got.
pub data Stage : Type 0 where
  connecting forwarding : Stage
  over : Ending → Stage

pub data Handler : Type 0 where
  tcp_handler rfcomm_handler : Handler

-- A spawned task: its handler, the address of the server that it is given, what both sides of the
-- connection will send and have got.
pub record Task : Type 0 where
  pub handler : Handler
  pub server_addr : String
  pub relay : Relay
  pub stage : Stage

abbrev pub spawned : Handler → String → Relay → Task
spawned handler server_addr relay = record {
  handler = handler;
  server_addr = server_addr;
  relay = relay;
  stage = connecting;
}

-- What a task waits for: the answer of the server to `connect`, or a turn of one of its loops.
pub data Progress : Type 0 where
  server_answers : Ending → Progress
  turns_once : Turn → Progress

abbrev pub next_stage : Option Ending → Stage
next_stage none = forwarding
next_stage (some ending) = over ending

abbrev pub turned : Task → Relay × Option Ending → Task
turned t (r, ended) = record t { relay = r; stage = next_stage ended }

abbrev pub answered : Task → Ending → Task
answered t (ok connected) = record t { stage = forwarding }
answered t (err e) = record t { stage = over (err e) }

-- Only what the handler waits for makes it go on.
abbrev pub progress : Task → Stage → Progress → Task
progress t connecting (server_answers answer) = answered t answer
progress t connecting (turns_once u) = t
progress t forwarding (server_answers answer) = t
progress t forwarding (turns_once u) = turned t (turn t.relay u)
progress t (over ending) p = t

unfoldable pub go_on : Progress → Task → Task
unfolding turn
go_on p t = progress t t.stage p

-- The RFCOMM listener: not enabled, spawned, accepting, or ended by an error.
pub data Listener : Type 0 where
  disabled starting listening : Listener
  failed : String → Listener

pub record Node : Type 0 where
  pub config : RelayConfig
  pub rfcomm : Listener
  pub tasks : List Task

abbrev pub started : RelayConfig → Node
started config = record {
  config = config;
  rfcomm = if config.enable_rfcomm then starting else disabled;
  tasks = [];
}

-- The start of `main`: without a TCP listener the program ends.
abbrev pub main : RelayConfig → Result String (Unit {0}) → Result String Node
main config (ok bound) = ok (started config)
main config (err e) = err e

-- What happens at the node: the answers to `bind`, `local_addr` and `accept`, and the progress of
-- the task with a number, in the order in which they were spawned.
pub data Happening : Type 0 where
  tcp_accepts : Result String Relay → Happening
  rfcomm_binds : Result String (Unit {0}) → Result String ℕ → Happening
  rfcomm_accepts : Result String Relay → Happening
  proceeds : ℕ → Progress → Happening

abbrev pub spawn : Node → Handler → Result String Relay → Node
spawn x handler (ok relay) = record x {
  tasks = x.tasks ++ spawned handler x.config.server_addr relay ∷ [];
}
spawn x handler (err e) = x

-- `bind(addr).await?` and `local_addr()?`.
abbrev pub bound : Result String (Unit {0}) → Result String ℕ → Listener
bound (err e) local_addr = failed e
bound (ok done) (err e) = failed e
bound (ok done) (ok channel) = listening

-- `run_rfcomm_listener`, for what it waits for.
abbrev pub run_rfcomm_listener : Node → Listener → Happening → Node
run_rfcomm_listener x starting (rfcomm_binds answer local_addr) = record x {
  rfcomm = bound answer local_addr;
}
run_rfcomm_listener x listening (rfcomm_accepts accepted) = spawn x rfcomm_handler accepted
run_rfcomm_listener x _ _ = x

unfoldable pub step : Node → Happening → Node
unfolding go_on
step x (tcp_accepts accepted) = spawn x tcp_handler accepted
step x (rfcomm_binds answer local_addr) =
    run_rfcomm_listener x x.rfcomm (rfcomm_binds answer local_addr)
step x (rfcomm_accepts accepted) = run_rfcomm_listener x x.rfcomm (rfcomm_accepts accepted)
step x (proceeds k p) = record x { tasks = modify (go_on p) x.tasks k }

unfoldable pub run : Node → List Happening → Node
unfolding step
run x [] = x
run x (h ∷ hs) = run (step x h) hs
