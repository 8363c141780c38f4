-- ===== src/Sessions/Tests.antt =====
-- The session table on one drone.
use res_qterra_engine.Common.{ℕ, ◌≡◌, refl, none, true, [], ◌∷◌, string_key}
use res_qterra_engine.Common.Dict
use res_qterra_engine.Proto.{drone_in_mission, drone_landing}
use res_qterra_engine.Sessions.Handle.{SessionHandle}
use res_qterra_engine.Sessions.{SessionEntry, SessionManager, remove_dead_sessions}
use res_qterra_engine.Sessions.Registry.{entry_at, IsKeyed}
use res_qterra_engine.Sessions.Dead.{contains, remove_dead_sessions-entry_at}

abbrev link : ℕ → SessionHandle
link n = record {
  device_id = "edge-001";
  addr = "10.0.0.1:5000";
  writer = n;
  connected_at = 1000;
  last_heartbeat = 1000;
}

abbrev flying : SessionEntry
flying = record {
  handle = link 1;
  info = record {
    device_id = "edge-001";
    addr = "10.0.0.1:5000";
    state = drone_in_mission;
    last_heartbeat = 1000;
    connected_at = 1000;
    pending_commands = 0;
  };
}

abbrev one_drone : SessionManager
one_drone = record { sessions = ("edge-001", flying) ∷ [] }

one_drone-IsKeyed : IsKeyed one_drone
unfolding Dict.get
one_drone-IsKeyed = record { unique = (refl, tt); own = ((refl, refl, refl), tt) }

-- The drone reports between the check and the removal.
abbrev reported : SessionManager
reported = record {
  sessions =
      ("edge-001", record flying { info = record flying.info { state = drone_landing } }) ∷ [];
}

remove_dead_sessions-entry_at_example :
    (contains "edge-001" (remove_dead_sessions one_drone (λ id. 11001) reported).1 ≡ true)
    × (entry_at "edge-001" (remove_dead_sessions one_drone (λ id. 11001) reported).0 ≡ none)
unfolding Dict.get
remove_dead_sessions-entry_at_example =
    remove_dead_sessions-entry_at one_drone reported (λ id. 11001) "edge-001" one_drone-IsKeyed
