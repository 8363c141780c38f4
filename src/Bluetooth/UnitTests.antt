-- ===== src/Bluetooth/UnitTests.antt =====
-- The unit tests of src/transport/tcp.rs, bt_discovery.rs and rfcomm.rs.
use res_qterra_engine.Common.{
  ◌*◌, ◌≡◌, refl, String, Bool, true, ◌&&◌, [], ◌∷◌, Result, ok, ◌==◌, string_key, length,
}
use res_qterra_engine.Common.Asserts.{all_pass, expect_some, is_none}
use res_qterra_engine.Bluetooth.Discovery.{default_discovery}
use res_qterra_engine.Bluetooth.Connectors.{
  default_rfcomm_channel, default_rfcomm, with_address, new_5g, new_relay, tcp_connector,
}

-- No connection is made.
abbrev no_socket : String → Result String (Unit {0})
no_socket address = ok tt

test_tcp_connector_names : Bool
test_tcp_connector_names =
    let five_g = new_5g "127.0.0.1:8080" in
    let relay = new_relay "127.0.0.1:9000" in
    string_key.beq ((tcp_connector no_socket).name five_g) "5G"
    && string_key.beq ((tcp_connector no_socket).name relay) "Relay"

test_discovery_default_config : Bool
test_discovery_default_config =
    default_discovery.scan_duration == 10 * 1000
    && length default_discovery.known_relays == 0
    && expect_some default_discovery.name_prefix (λ s. string_key.beq s "ResQTerra-Relay")

test_rfcomm_default_config : Bool
test_rfcomm_default_config =
    is_none default_rfcomm.relay_address && default_rfcomm.channel == default_rfcomm_channel

-- 00:11:22:33:44:55 as a number.
test_connector_with_address : Bool
test_connector_with_address =
    let connector = with_address 0x001122334455 5 in
    expect_some connector.config.relay_address (λ a. a == 0x001122334455)
    && connector.config.channel == 5

tests_pass :
    all_pass (
      test_tcp_connector_names ∷ test_discovery_default_config ∷ test_rfcomm_default_config
      ∷ test_connector_with_address ∷ [])
    ≡ true
unfolding test_tcp_connector_names test_discovery_default_config test_rfcomm_default_config
    test_connector_with_address
tests_pass = refl
