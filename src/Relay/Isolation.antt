-- ===== src/Relay/Isolation.antt =====
-- relay-node/src/main.rs: the connections of the relay do not disturb one another.
use res_qterra_engine.Common.{
  ℕ, ◌≡◌, refl, ap, ap₂, ◌∙◌, String, Option, none, some, List, [], ◌∷◌, ◌++◌, map, Result, ok, err,
  if◌then◌else◌, ◌==◌, length, get_elem?, modify, get_elem?-append_left, get_elem?-append_last,
  get_elem?-modify, Bool-cases, inl, inr,
}
use res_qterra_engine.Relay.Config.{RelayConfig}
use res_qterra_engine.Relay.Forward.{
  Relay, Turn, turn, Ending, forward, handle_connection, handle_rfcomm_connection,
}
use res_qterra_engine.Relay.Node.{
  Stage, forwarding, over, Handler, tcp_handler, rfcomm_handler, Task, spawned, Progress,
  server_answers, turns_once, next_stage, turned, go_on, Listener, starting, listening, Node,
  started, Happening, tcp_accepts, rfcomm_binds, rfcomm_accepts, proceeds, spawn,
  run_rfcomm_listener, step, run,
}

-- The progress of the task with the number `k`, out of all that happens.
abbrev pub own : ℕ → List Happening → List Progress
own k [] = []
own k (tcp_accepts accepted ∷ hs) = own k hs
own k (rfcomm_binds answer local_addr ∷ hs) = own k hs
own k (rfcomm_accepts accepted ∷ hs) = own k hs
own k (proceeds i p ∷ hs) = let rest = own k hs in if i == k then p ∷ rest else rest

all_progress : Task → List Progress → Task
all_progress t [] = t
all_progress t (p ∷ ps) = all_progress (go_on p t) ps

spawn-keeps :
    (x : Node) (handler : Handler) (accepted : Result String Relay) (k : ℕ) {t : Task}
    → get_elem? x.tasks k ≡ some t
    → get_elem? (spawn x handler accepted).tasks k ≡ some t
spawn-keeps x handler (ok relay) k h = get_elem?-append_left x.tasks _ k h
spawn-keeps x handler (err e) k h = h

listener-keeps :
    (x : Node) (l : Listener) (h : Happening) (k : ℕ) {t : Task}
    → get_elem? x.tasks k ≡ some t
    → get_elem? (run_rfcomm_listener x l h).tasks k ≡ some t
listener-keeps x starting (rfcomm_binds answer local_addr) k h = h
listener-keeps x listening (rfcomm_accepts accepted) k h = spawn-keeps x rfcomm_handler accepted k h
listener-keeps x _ _ k h = h

-- A task that is there comes to what its own progress makes of it.
task_at-run :
    (x : Node) (hs : List Happening) (k : ℕ) (t : Task)
    → get_elem? x.tasks k ≡ some t
    → get_elem? (run x hs).tasks k ≡ some (all_progress t (own k hs))
unfolding run step all_progress
task_at-run x [] k t h = h
task_at-run x (tcp_accepts accepted ∷ hs) k t h =
    task_at-run (spawn x tcp_handler accepted) hs k t (spawn-keeps x tcp_handler accepted k h)
task_at-run x (rfcomm_binds answer local_addr ∷ hs) k t h =
    task_at-run (run_rfcomm_listener x x.rfcomm (rfcomm_binds answer local_addr)) hs k t
      (listener-keeps x x.rfcomm (rfcomm_binds answer local_addr) k h)
task_at-run x (rfcomm_accepts accepted ∷ hs) k t h =
    task_at-run (run_rfcomm_listener x x.rfcomm (rfcomm_accepts accepted)) hs k t
      (listener-keeps x x.rfcomm (rfcomm_accepts accepted) k h)
task_at-run x (proceeds i p ∷ hs) k t h =
    let x' : Node = record x { tasks = modify (go_on p) x.tasks i } in
    let there = get_elem?-modify (go_on p) x.tasks i k h in
    elim (Bool-cases (i == k)) [
      | inl e ↦ rw e (task_at-run x' hs k (go_on p t) (rw e at there))
      | inr e ↦ rw e (task_at-run x' hs k t (rw e at there))
    ]

abbrev pub serve : Handler → Relay → Ending → List Turn → Relay × Option Ending
serve tcp_handler = handle_connection
serve rfcomm_handler = handle_rfcomm_connection

abbrev at_stage : Task → Relay → Stage → Task
at_stage t relay stage = record t { relay = relay; stage = stage }

all_progress-over :
    (t : Task) (relay : Relay) (ending : Ending) (ps : List Progress)
    → all_progress (at_stage t relay (over ending)) ps ≡ at_stage t relay (over ending)
unfolding all_progress go_on
all_progress-over t relay ending [] = refl
all_progress-over t relay ending (p ∷ ps) = all_progress-over t relay ending ps

after_turn :
    (t : Task) (relay : Relay) (ended : Option Ending) (ts : List Turn)
    → all_progress (at_stage t relay forwarding) (map turns_once ts) ≡ turned t (forward relay ts)
    → all_progress (at_stage t relay (next_stage ended)) (map turns_once ts)
      ≡ turned t (elim ended [ some ending ↦ (relay, some ending) | none ↦ forward relay ts ])
after_turn t relay none ts goes_on = goes_on
after_turn t relay (some ending) ts goes_on = all_progress-over t relay ending (map turns_once ts)

all_progress-forward :
    (t : Task) (relay : Relay) (ts : List Turn)
    → all_progress (at_stage t relay forwarding) (map turns_once ts) ≡ turned t (forward relay ts)
unfolding all_progress go_on forward
all_progress-forward t relay [] = refl
all_progress-forward t relay (u ∷ us) =
    let (relay', ended) = turn relay u in
    after_turn t relay' ended us (all_progress-forward t relay' us)

all_progress-serve :
    (handler : Handler) (server_addr : String) (relay : Relay) (answer : Ending) (ts : List Turn)
    → all_progress (spawned handler server_addr relay) (server_answers answer ∷ map turns_once ts)
      ≡ turned (spawned handler server_addr relay) (serve handler relay answer ts)
unfolding all_progress go_on handle_connection handle_rfcomm_connection
all_progress-serve tcp_handler server_addr relay (ok connected) ts =
    all_progress-forward (spawned tcp_handler server_addr relay) relay ts
all_progress-serve rfcomm_handler server_addr relay (ok connected) ts =
    all_progress-forward (spawned rfcomm_handler server_addr relay) relay ts
all_progress-serve tcp_handler server_addr relay (err e) ts =
    all_progress-over (spawned tcp_handler server_addr relay) relay (err e) (map turns_once ts)
all_progress-serve rfcomm_handler server_addr relay (err e) ts =
    all_progress-over (spawned rfcomm_handler server_addr relay) relay (err e) (map turns_once ts)

spawn-config :
    (x : Node) (handler : Handler) (accepted : Result String Relay)
    → (spawn x handler accepted).config ≡ x.config
spawn-config x handler (ok relay) = refl
spawn-config x handler (err e) = refl

listener-config :
    (x : Node) (l : Listener) (h : Happening) → (run_rfcomm_listener x l h).config ≡ x.config
listener-config x starting (rfcomm_binds answer local_addr) = refl
listener-config x listening (rfcomm_accepts accepted) = spawn-config x rfcomm_handler accepted
listener-config x _ _ = refl

config-step : (x : Node) (h : Happening) → (step x h).config ≡ x.config
unfolding step
config-step x (tcp_accepts accepted) = spawn-config x tcp_handler accepted
config-step x (rfcomm_binds answer local_addr) = listener-config x x.rfcomm _
config-step x (rfcomm_accepts accepted) = listener-config x x.rfcomm _
config-step x (proceeds k p) = refl

config-run : (x : Node) (hs : List Happening) → (run x hs).config ≡ x.config
unfolding run
config-run x [] = refl
config-run x (h ∷ hs) = config-run (step x h) hs ∙ config-step x h

run-append : (x : Node) (hs later : List Happening) → run x (hs ++ later) ≡ run (run x hs) later
unfolding run
run-append x [] later = refl
run-append x (h ∷ hs) later = run-append (step x h) hs later

-- The happening by which a listener accepts a connection.
abbrev pub Accepts : Node → Handler → Relay → Happening → Type 0
Accepts x tcp_handler relay h = h ≡ tcp_accepts (ok relay)
Accepts x rfcomm_handler relay h = (x.rfcomm ≡ listening) × (h ≡ rfcomm_accepts (ok relay))

step-Accepts :
    (x : Node) (handler : Handler) (relay : Relay) (h : Happening)
    → Accepts x handler relay h
    → step x h ≡ spawn x handler (ok relay)
unfolding step
step-Accepts x tcp_handler relay h e = rw e
step-Accepts x rfcomm_handler relay h (l, e) = rw (e, l)

-- Each connection that a listener accepts gets one task of its own, which connects to the server of
-- the configuration and comes to what the handler makes of the answer of the server and of the turns
-- of its own loops, whatever the other connections and the two listeners come to before and after.
pub run-serve :
    (config : RelayConfig) (handler : Handler) (relay : Relay) (before after : List Happening)
    (h : Happening) (answer : Ending) (ts : List Turn)
    → let x = run (started config) before in
      Accepts x handler relay h
      → own (length x.tasks) after ≡ server_answers answer ∷ map turns_once ts
      → get_elem? (run (started config) (before ++ h ∷ after)).tasks (length x.tasks)
        ≡ some (turned (spawned handler config.server_addr relay) (serve handler relay answer ts))
unfolding run
run-serve config handler relay before after h answer ts accepts mine =
    let x = run (started config) before in
    let there =
      task_at-run (spawn x handler (ok relay)) after (length x.tasks)
        (spawned handler x.config.server_addr relay)
        (get_elem?-append_last x.tasks (spawned handler x.config.server_addr relay)) in
    ap (λ y. get_elem? y.tasks (length x.tasks)) (run-append (started config) before (h ∷ after))
    ∙ ap (λ y. get_elem? (run y after).tasks (length x.tasks))
        (step-Accepts x handler relay h accepts)
    ∙ there
    ∙ ap₂
        (λ (c : RelayConfig) (ps : List Progress).
          some (all_progress (spawned handler c.server_addr relay) ps))
        (config-run (started config) before) mine
    ∙ ap (λ (t : Task). some t) (all_progress-serve handler config.server_addr relay answer ts)
