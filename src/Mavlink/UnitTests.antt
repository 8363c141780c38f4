-- ===== src/Mavlink/UnitTests.antt =====
-- The unit tests of src/mavlink/commands.rs, connection.rs and telemetry.rs.
use res_qterra_engine.Common.{ℕ, ◌≡◌, refl, Bool, true, false, not, ◌&&◌, [], ◌∷◌, ◌==◌, string_key}
use res_qterra_engine.Common.Asserts.{all_pass}
use res_qterra_engine.Proto.{drone_idle}
use res_qterra_engine.StateMachine.{same_state}
use res_qterra_engine.Mavlink.Commands.{mode_number, guided, rtl, land_mode}
use res_qterra_engine.Mavlink.Link.{FcConnectionType, serial, udp, default_fc_config}
use res_qterra_engine.Mavlink.Telemetry.{new_reader, get_state, is_armed, mode_to_string}

test_ardupilot_modes : Bool
test_ardupilot_modes = mode_number guided == 4 && mode_number rtl == 6 && mode_number land_mode == 9

test_default_config : Bool
test_default_config = default_fc_config.system_id == 255 && default_fc_config.target_system == 1

-- `matches!` on the connection.
abbrev is_serial : FcConnectionType → Bool
is_serial (serial port baud) = true
is_serial _ = false

abbrev is_udp : FcConnectionType → Bool
is_udp (udp address) = true
is_udp _ = false

test_connection_types : Bool
test_connection_types = is_serial (serial "/dev/ttyACM0" 57600) && is_udp (udp "127.0.0.1:14550")

test_telemetry_reader_creation : ℕ → Bool
unfolding same_state
test_telemetry_reader_creation now =
    let reader = new_reader now in same_state (get_state reader) drone_idle && not (is_armed reader)

test_mode_to_string : Bool
test_mode_to_string =
    string_key.beq (mode_to_string 0) "STABILIZE"
    && string_key.beq (mode_to_string 4) "GUIDED"
    && string_key.beq (mode_to_string 6) "RTL"

-- They pass whenever the reader is made.
tests_pass :
    (now : ℕ)
    → all_pass (
        test_ardupilot_modes
        ∷ test_default_config
        ∷ test_connection_types
        ∷ test_telemetry_reader_creation now
        ∷ test_mode_to_string
        ∷ [])
      ≡ true
unfolding test_ardupilot_modes test_default_config test_connection_types
    test_telemetry_reader_creation test_mode_to_string
tests_pass now = refl
