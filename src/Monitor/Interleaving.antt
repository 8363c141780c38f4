-- ===== src/Monitor/Interleaving.antt =====
-- The monitoring task among other users of the monitor. The task reads the conditions and then
-- takes the lock anew for each event, and so does a caller of `update_battery` for the event of a low
-- battery: other calls may come in between. The transition of the task and the send of its action
-- are one step here, though the task gives up the lock between the two.
use res_qterra_engine.Common.{
  ℕ, suc, if◌then◌else◌, ◌≡◌, ◌≢◌, refl, subst, none, some, true, List, [], ◌∷◌, All, arith,
}
use res_qterra_engine.Proto.{DroneState, drone_idle}
use res_qterra_engine.StateMachine
use res_qterra_engine.StateMachine.{SafetyEvent, check_safety, heartbeat_timeout, battery_critical}
use res_qterra_engine.StateMachine.Failsafe.{failsafe_target, forced_reason}
use res_qterra_engine.Monitor.{
  SafetyAction, SafetyMonitor, state, new_monitor, process_event, auto_event, set_battery,
  update_server_heartbeat, try_recv_action, start_monitoring, stop,
}
use res_qterra_engine.Monitor.Actions.{
  replay, replay_all, process_event-replay, auto_event-process_event,
}

-- The monitor, the events that the task has still to process, how many callers of `update_battery`
-- have found the battery critical and have still to process that, and what the receiver of the
-- channel knows of the state.
pub record Running : Type 0 where
  pub monitor : SafetyMonitor
  pub pending : List SafetyEvent
  pub critical : ℕ
  pub seen : DroneState

abbrev pub start : Running
unfolding new_monitor
start = record { monitor = new_monitor; pending = []; critical = 0; seen = drone_idle }

pub data Step (r s : Running) : Type 0 where
  event : (e : SafetyEvent) → s ≡ record r { monitor = (process_event r.monitor e).0 } → Step r s
  server_heartbeat :
      (now : ℕ) → s ≡ record r { monitor = update_server_heartbeat r.monitor now } → Step r s
  battery :
      (percent : ℕ)
      → s ≡ record r {
        monitor = (set_battery r.monitor percent).0;
        critical = (if (set_battery r.monitor percent).1 then suc r.critical else r.critical);
      }
      → Step r s
  battery_event :
      (callers : ℕ)
      → r.critical ≡ suc callers
      → s ≡ record r { monitor = (process_event r.monitor battery_critical).0; critical = callers }
      → Step r s
  check :
      (now : ℕ)
      → r.monitor.monitoring_active ≡ true
      → r.pending ≡ []
      → s ≡ record r { pending = check_safety r.monitor.fsm now }
      → Step r s
  auto :
      (e : SafetyEvent) (es : List SafetyEvent)
      → r.pending ≡ e ∷ es
      → s ≡ record r { monitor = auto_event r.monitor e; pending = es }
      → Step r s
  receive :
      (a : SafetyAction) (m : SafetyMonitor)
      → try_recv_action r.monitor ≡ (m, some a)
      → s ≡ record r { monitor = m; seen = replay r.seen a }
      → Step r s
  begin :
      (m : SafetyMonitor)
      → start_monitoring r.monitor ≡ some m
      → s ≡ record r { monitor = m }
      → Step r s
  finish : s ≡ record r { monitor = stop r.monitor } → Step r s

pub data Reach (r : Running) : Running → Type 0 where
  here : Reach r r
  next : {s t : Running} → Reach r s → Step s t → Reach r t

pub record Inv (r : Running) : Type 0 where
  pub in_step : replay_all r.seen r.monitor.queue ≡ state r.monitor
  pub forced : All (λ e. forced_reason e ≢ none) r.pending

check_safety-forced :
    (m : SafetyMonitor) (now : ℕ) → All (λ e. forced_reason e ≢ none) (check_safety m.fsm now)
unfolding check_safety
check_safety-forced m now = ground arith

receive-replay :
    (m m' : SafetyMonitor) (a : SafetyAction) (seen : DroneState)
    → try_recv_action m ≡ (m', some a)
    → replay_all seen m.queue ≡ state m
    → replay_all (replay seen a) m'.queue ≡ state m'
unfolding try_recv_action
receive-replay m m' a seen taken h = ground arith

started-replay :
    (m m' : SafetyMonitor) (seen : DroneState)
    → start_monitoring m ≡ some m'
    → replay_all seen m.queue ≡ state m
    → replay_all seen m'.queue ≡ state m'
unfolding start_monitoring
started-replay m m' seen started h = ground arith

Step-Inv : {r s : Running} → Step r s → Inv r → Inv s
Step-Inv {r} (event e q) v =
    rw q (record { in_step = process_event-replay r.monitor e r.seen v.in_step; forced = v.forced })
Step-Inv {r} (server_heartbeat now q) v = rw q (record {
  in_step = unfold update_server_heartbeat StateMachine.update_heartbeat in v.in_step;
  forced = v.forced;
})
Step-Inv {r} (battery percent q) v =
    rw q (record { in_step = unfold StateMachine.update_battery in v.in_step; forced = v.forced })
Step-Inv {r} (battery_event callers some_wait q) v = rw q (record {
  in_step = process_event-replay r.monitor battery_critical r.seen v.in_step;
  forced = v.forced;
})
Step-Inv {r} (check now on none_left q) v =
    rw q (record { in_step = v.in_step; forced = check_safety-forced r.monitor now })
Step-Inv {r} (auto e es first q) v =
    rw (q, auto_event-process_event r.monitor e)
      (record {
        in_step = process_event-replay r.monitor e r.seen v.in_step;
        forced = (subst (All (λ e. forced_reason e ≢ none)) first v.forced).1;
      })
Step-Inv {r} (receive a m taken q) v =
    rw q
      (record { in_step = receive-replay r.monitor m a r.seen taken v.in_step; forced = v.forced })
Step-Inv {r} (begin m started q) v =
    rw q
      (record { in_step = started-replay r.monitor m r.seen started v.in_step; forced = v.forced })
Step-Inv {r} (finish q) v = rw q (record { in_step = unfold stop in v.in_step; forced = v.forced })

start-Inv : Inv start
unfolding start StateMachine.new
start-Inv = record { in_step = refl; forced = tt }

Reach-Inv : {r s : Running} → Inv r → Reach r s → Inv s
Reach-Inv v here = v
Reach-Inv v (next path step) = Step-Inv step (Reach-Inv v path)

-- However the task, the callers and the receiver interleave, if no call comes between a transition
-- of the task and the send of its action, then a receiver that follows the actions is, once it has
-- read all that is in the channel, exactly in the state of the machine.
pub observer_in_step :
    {r : Running} → Reach start r → replay_all r.seen r.monitor.queue ≡ state r.monitor
observer_in_step path = (Reach-Inv start-Inv path).in_step

-- However late the task gets to process an event that it has found, processing it leaves the
-- machine in the state that the failsafe gives from where it then is.
pub auto-failsafe_target :
    {r : Running} (e : SafetyEvent) (es : List SafetyEvent)
    → Reach start r
    → r.pending ≡ e ∷ es
    → state (auto_event r.monitor e) ≡ failsafe_target (state r.monitor)
unfolding auto_event StateMachine.process_event
auto-failsafe_target {r} e es path first =
    ground
      (arith, subst (All (λ e. forced_reason e ≢ none)) first (Reach-Inv start-Inv path).forced)
