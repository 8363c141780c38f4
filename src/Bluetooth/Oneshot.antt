-- ===== src/Bluetooth/Oneshot.antt =====
-- src/transport/five_g.rs and src/transport/bluetooth.rs: one send over a connection of its own.
use res_qterra_engine.Common.{ℕ, String, Option, none, some, List, Result, ok, err}

-- What tokio answers: to `connect`, with a socket or an error, and to `write_all`, with the socket
-- after it and how it went.
pub record Dialler (S : Type 0) : Type 0 where
  pub connect : String → Result String S
  pub write_all : S → List ℕ → S × Result String (Unit {0})

module _ {S : Type 0} (net : Dialler S) where
  -- The socket that was opened, as it is then, and the result.
  abbrev pub written : S × Result String (Unit {0}) → Option S × Result String (Unit {0})
  written (stream, ok done) = (some stream, ok tt)
  written (stream, err e) = (some stream, err e)

  abbrev pub send_over : Result String S → List ℕ → Option S × Result String (Unit {0})
  send_over (ok stream) bytes = written (net.write_all stream bytes)
  send_over (err e) bytes = (none, err e)

  unfoldable pub send_5g : List ℕ → Option S × Result String (Unit {0})
  send_5g bytes = send_over (net.connect "127.0.0.1:8080") bytes

  unfoldable pub send_bluetooth : List ℕ → Option S × Result String (Unit {0})
  send_bluetooth bytes = send_over (net.connect "127.0.0.1:9000") bytes
