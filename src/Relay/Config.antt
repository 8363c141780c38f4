-- ===== src/Relay/Config.antt =====
-- `RelayConfig` of relay-node/src/main.rs: its defaults, and what the environment sets.
pub mod Channel
use res_qterra_engine.Common.{
  ℕ, zero, suc, ◌+◌, ◌-◌, ◌*◌, ◌≤◌, ◌≡◌, String, Option, none, some, Bool, true, false, ◌&&◌, ◌||◌,
  List, [], ◌∷◌, ◌==◌, ltb, leb, if◌then◌else◌, string_key,
}
use res_qterra_engine.Common.Text.{codes, same_codes}

abbrev pub default_rfcomm_channel : ℕ
default_rfcomm_channel = 1

abbrev pub default_server : String
default_server = "127.0.0.1:8080"

abbrev pub default_tcp_listen : String
default_tcp_listen = "0.0.0.0:9000"

pub record RelayConfig : Type 0 where
  pub server_addr : String
  pub tcp_listen : String
  pub rfcomm_channel : ℕ  -- u8
  pub enable_rfcomm : Bool

abbrev pub default_relay : RelayConfig
default_relay = record {
  server_addr = default_server;
  tcp_listen = default_tcp_listen;
  rfcomm_channel = default_rfcomm_channel;
  enable_rfcomm = false;
}

-- `parse::<u8>()` after the sign: decimal digits, refused where the number leaves the range. `some n`
-- is what stands before.
abbrev pub parse_digits : ℕ → List ℕ → Option ℕ
parse_digits n [] = some n
parse_digits n (c ∷ cs) =
    let next = n * 10 + (c - 48) in
    let rest = parse_digits next cs in if leb 48 c && leb c 57 && leb next 255 then rest else none

-- At least one digit, and a plus sign before it is allowed.
abbrev pub parse_number : List ℕ → Option ℕ
parse_number [] = none
parse_number (c ∷ cs) = parse_digits 0 (c ∷ cs)

abbrev pub parse_u8 : List ℕ → Option ℕ
parse_u8 [] = none
parse_u8 (c ∷ cs) = if c == 43 then parse_number cs else parse_number (c ∷ cs)

abbrev pub unwrap_or {ℓ} : {A : Type ℓ} → Option A → A → A
unwrap_or (some x) y = x
unwrap_or none y = y

-- `v.to_lowercase() == "true"`: the letters of the word have no lower case form but their own.
abbrev pub lower : ℕ → ℕ
lower c = if leb 65 c && leb c 90 then c + 32 else c

abbrev pub lower_all : List ℕ → List ℕ
lower_all [] = []
lower_all (c ∷ cs) = lower c ∷ lower_all cs

abbrev pub is_enabled : String → Bool
is_enabled v = string_key.beq v "1" || same_codes (lower_all (codes v)) (codes "true")

abbrev pub channel_of : Option String → ℕ
channel_of (some s) = unwrap_or (parse_u8 (codes s)) default_rfcomm_channel
channel_of none = default_rfcomm_channel

abbrev pub enabled_of : Option String → Bool
enabled_of (some v) = is_enabled v
enabled_of none = false

-- `env` is `env::var`, without its error.
unfoldable pub from_env : (String → Option String) → RelayConfig
from_env env = record {
  server_addr = unwrap_or (env "RELAY_SERVER") default_server;
  tcp_listen = unwrap_or (env "RELAY_TCP_LISTEN") default_tcp_listen;
  rfcomm_channel = channel_of (env "RELAY_RFCOMM_CHANNEL");
  enable_rfcomm = enabled_of (env "RELAY_ENABLE_RFCOMM");
}
