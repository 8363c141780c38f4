-- ===== src/Proto/UnitTests.antt =====
-- The unit tests of shared/src/lib.rs.
use res_qterra_engine.Common.{
  ℕ, ◌<◌, ◌≡◌, refl, Bool, true, ◌&&◌, [], ◌∷◌, ◌==◌, ltb, string_key, lt→ltb,
}
use res_qterra_engine.Common.Asserts.{all_pass}
use res_qterra_engine.Proto.Enums.{msg_heartbeat, drone_idle}
use res_qterra_engine.Proto.Builders.{new_header, new_heartbeat, completed}

test_header_creation : ℕ → Bool
test_header_creation now =
    let header = new_header "edge-001" msg_heartbeat 1 now in
    string_key.beq header.device_id "edge-001"
    && header.sequence_id == 1
    && ltb 0 header.timestamp_ms

test_heartbeat_creation : Bool
test_heartbeat_creation =
    let hb = new_heartbeat 1000 drone_idle 0 true in hb.uptime_ms == 1000 && hb.healthy

test_ack_creation : Bool
unfolding completed
test_ack_creation =
    let ack = completed 1 100 50 in
    ack.ack_sequence_id == 1 && ack.command_id == 100 && ack.processing_time_ms == 50

-- They pass at any time after the epoch.
tests_pass :
    (now : ℕ)
    → 0 < now
    → all_pass (test_header_creation now ∷ test_heartbeat_creation ∷ test_ack_creation ∷ []) ≡ true
unfolding test_header_creation test_heartbeat_creation test_ack_creation
tests_pass now h = rw (lt→ltb 0 now h) refl
