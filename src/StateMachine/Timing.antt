-- ===== src/StateMachine/Timing.antt =====
-- The heartbeat timeout and the battery threshold.
use res_qterra_engine.Common.{ℕ, ◌+◌, ◌≡◌, ◌≢◌, ◌≤◌, ◌<◌, ◌↔◌, true, ◌⊎◌, In, arith}
use res_qterra_engine.StateMachine.{
  SafetyStateMachine, SafetyEvent, is_heartbeat_timed_out, check_safety, update_heartbeat,
  heartbeat_timeout, battery_critical,
}

-- The heartbeat is timed out exactly if one has been received and more than ten seconds have passed
-- since.
pub timed_out_iff :
    (m : SafetyStateMachine) (now : ℕ)
    → (is_heartbeat_timed_out m now ≡ true)
      ↔ ((m.last_server_heartbeat_ms ≢ 0) × (m.last_server_heartbeat_ms + 10000 < now))
unfolding is_heartbeat_timed_out
timed_out_iff m now = ground arith

-- After a heartbeat at a time that is not 0 the timeout strikes exactly when more than ten seconds
-- have passed, whatever was recorded before.
pub timed_out-update_heartbeat :
    (m : SafetyStateMachine) (at now : ℕ)
    → at ≢ 0
    → (is_heartbeat_timed_out (update_heartbeat m at) now ≡ true) ↔ (at + 10000 < now)
unfolding is_heartbeat_timed_out update_heartbeat
timed_out-update_heartbeat m at now h = ground arith

-- The events that `check_safety` reports are a heartbeat timeout, exactly if a heartbeat was
-- received and is more than ten seconds old, and a critical battery, exactly at 20 percent or less.
pub mem-check_safety :
    (m : SafetyStateMachine) (now : ℕ) (e : SafetyEvent)
    → In e (check_safety m now) ↔ (
        ((e ≡ heartbeat_timeout)
          × (m.last_server_heartbeat_ms ≢ 0)
          × (m.last_server_heartbeat_ms + 10000 < now))
        ⊎ ((e ≡ battery_critical) × (m.battery_percent ≤ 20)))
unfolding check_safety
mem-check_safety m now e = ground arith
