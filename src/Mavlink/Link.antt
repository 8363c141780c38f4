-- ===== src/Mavlink/Link.antt =====
-- src/mavlink/connection.rs: the connection to the flight controller. One round of the loop of
-- `handle_connection` for each branch of the `select!` that is ready; what is written and the events
-- are kept as lists, oldest first.
pub mod Session
pub mod Traffic
pub mod Rounds
use res_qterra_engine.Common.{
  ℕ, String, Option, none, some, Bool, true, false, List, [], ◌∷◌, ◌++◌, if◌then◌else◌,
}
use res_qterra_engine.Common.Text.{◌<>◌, show}
use res_qterra_engine.Mavlink.Messages.{MavMessage, MavHeartbeat, as_heartbeat}

pub data FcConnectionType : Type 0 where
  serial : String → ℕ → FcConnectionType
  udp : String → FcConnectionType
  tcp : String → FcConnectionType

abbrev pub default_connection : FcConnectionType
default_connection = udp "127.0.0.1:14550"

pub record FcConfig : Type 0 where
  pub connection : FcConnectionType
  pub system_id : ℕ  -- u8
  pub component_id : ℕ  -- u8
  pub target_system : ℕ  -- u8
  pub target_component : ℕ  -- u8

abbrev pub default_fc_config : FcConfig
default_fc_config = record {
  connection = default_connection;
  system_id = 255;
  component_id = 190;
  target_system = 1;
  target_component = 1;
}

pub data FcEvent : Type 0 where
  fc_connected : FcEvent
  fc_disconnected : String → FcEvent
  fc_message : MavMessage → FcEvent
  fc_heartbeat : ℕ → ℕ → ℕ → ℕ → ℕ → FcEvent

-- The text that `mavlink::connect` is given.
abbrev pub connection_string : FcConnectionType → String
connection_string (serial port baud) = "serial:" <> port <> ":" <> show baud
connection_string (udp address) = "udpin:" <> address
connection_string (tcp address) = "tcpin:" <> address

pub record MavHeader : Type 0 where
  pub system_id : ℕ
  pub component_id : ℕ
  pub sequence : ℕ

abbrev pub make_header : FcConfig → MavHeader
make_header config = record {
  system_id = config.system_id;
  component_id = config.component_id;
  sequence = 0;
}

-- What the loop and the callers of `FlightController` share, with all that was written and sent:
-- `stored` is whether `connection` holds one.
pub record FcLink : Type 0 where
  pub connected : Bool
  pub stored : Bool
  pub written : List (MavHeader × MavMessage)
  pub events : List FcEvent

abbrev pub new_link : FcLink
new_link = record { connected = false; stored = false; written = []; events = [] }

abbrev pub is_connected : FcLink → Bool
is_connected link = link.connected

-- What `conn.recv()` answers, and what a branch of the `select!` yields: a message to send, with
-- the error of `conn.send` if there is one, or the end of the pause of 10 ms, with that answer.
pub data Polled : Type 0 where
  polled_message : MavMessage → Polled
  would_block : Polled
  poll_failed : String → Polled

pub data FcActivity : Type 0 where
  outgoing : MavMessage → Option String → FcActivity
  polled : Polled → FcActivity

-- A heartbeat is reported before the message itself is.
abbrev pub told_of : MavHeartbeat → FcEvent
told_of hb = fc_heartbeat hb.autopilot hb.mavtype hb.system_status hb.base_mode hb.custom_mode

abbrev pub heartbeat_event : Option MavHeartbeat → List FcEvent
heartbeat_event (some hb) = told_of hb ∷ []
heartbeat_event none = []

abbrev send_outbound : FcConfig → FcLink → MavMessage → Option String → FcLink × Option String
send_outbound config k msg none =
    (record k { written = k.written ++ (make_header config, msg) ∷ [] }, none)
send_outbound config k msg (some e) = (k, some e)

abbrev receive : FcLink → Polled → FcLink × Option String
receive k (polled_message msg) = (
  record k { events = k.events ++ (heartbeat_event (as_heartbeat msg) ++ fc_message msg ∷ []) },
  none,
)
receive k would_block = (k, none)
receive k (poll_failed e) = (k, some ("Read error: " <> e))

-- Both branches do nothing when no connection is stored.
unfoldable pub handle_activity : FcConfig → FcLink → FcActivity → FcLink × Option String
handle_activity config k (outgoing msg outcome) =
    if k.stored then send_outbound config k msg outcome else (k, none)
handle_activity config k (polled answer) = if k.stored then receive k answer else (k, none)

-- The loop, until a branch returns an error; `none` while the connection is open.
unfoldable pub handle_connection : FcConfig → FcLink → List FcActivity → FcLink × Option String
unfolding handle_activity
handle_connection config k [] = (k, none)
handle_connection config k (a ∷ rest) =
    let (k', ended) = handle_activity config k a in
    let later = handle_connection config k' rest in
    elim ended [ some reason ↦ (k', some reason) | none ↦ later ]

-- What `connection_loop` does around `handle_connection`, one await after the other.
abbrev pub mark_connected : FcLink → FcLink
mark_connected k = record k { connected = true }

abbrev pub send_connected : FcLink → FcLink
send_connected k = record k { events = k.events ++ fc_connected ∷ [] }

abbrev pub store_connection : FcLink → FcLink
store_connection k = record k { stored = true }

abbrev pub send_disconnected : FcLink → String → FcLink
send_disconnected k reason = record k { events = k.events ++ fc_disconnected reason ∷ [] }

abbrev pub mark_disconnected : FcLink → FcLink
mark_disconnected k = record k { connected = false }

abbrev pub clear_connection : FcLink → FcLink
clear_connection k = record k { stored = false }

abbrev pub established : FcLink → FcLink
established k = store_connection (send_connected (mark_connected k))

abbrev pub finished : FcLink → String → FcLink
finished k reason = clear_connection (mark_disconnected (send_disconnected k reason))

-- How an attempt to connect turns out, and how far it has come: `fc_opens` goes through all its
-- steps, and the others stop behind one of them.
pub data FcAttempt : Type 0 where
  fc_refused : String → FcAttempt
  fc_marks : FcAttempt
  fc_announces : FcAttempt
  fc_opens : List FcActivity → FcAttempt
  fc_reports : List FcActivity → FcAttempt
  fc_unmarks : List FcActivity → FcAttempt

-- Where the loop is: between two attempts, in `handle_connection`, or behind one of the steps.
pub data Position : Type 0 where
  apart : Position
  marked : Position
  announced : Position
  handling : Position
  reported : Position
  unmarked : Position

-- The steps so far after `handle_connection` has returned an error; it goes on where there is none.
abbrev pub closing :
    FcLink × Option String → Position → (FcLink → String → FcLink) → FcLink × Position
closing (k, none) there after = (k, handling)
closing (k, some reason) there after = (after k reason, there)

-- A round of `connection_loop`, up to the sleep of two seconds.
unfoldable pub attempt : FcConfig → FcLink → FcAttempt → FcLink × Position
unfolding handle_connection
attempt config k (fc_refused e) = (k, apart)
attempt config k fc_marks = (mark_connected k, marked)
attempt config k fc_announces = (send_connected (mark_connected k), announced)
attempt config k (fc_opens activities) =
    closing (handle_connection config (established k) activities) apart finished
attempt config k (fc_reports activities) =
    closing (handle_connection config (established k) activities) reported send_disconnected
attempt config k (fc_unmarks activities) =
    closing (handle_connection config (established k) activities) unmarked
      (λ k' reason. mark_disconnected (send_disconnected k' reason))

-- The loop goes on to the next attempt only from between two.
abbrev pub goes_on : FcLink × Position → (FcLink → FcLink × Position) → FcLink × Position
goes_on (k, apart) later = later k
goes_on (k, there) later = (k, there)

-- The loop over the attempts, and where it is; what comes after an attempt that is not over has not
-- happened.
unfoldable pub connection_loop : FcConfig → FcLink → List FcAttempt → FcLink × Position
unfolding attempt
connection_loop config k [] = (k, apart)
connection_loop config k (a ∷ rest) =
    goes_on (attempt config k a) (λ k'. connection_loop config k' rest)
