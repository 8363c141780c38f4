-- ===== src/Bluetooth/Wrappers.antt =====
-- src/transport/traits.rs, and the stream wrappers of src/transport/tcp.rs and
-- src/transport/rfcomm.rs.
use res_qterra_engine.Common.{ℕ, ◌≡◌, refl, ap, ◌∙◌, String, List, [], ◌∷◌, Result, ok, err}

pub data Poll (A : Type 0) : Type 0 where
  ready : A → Poll A
  pending : Poll A

-- `AsyncRead`, `AsyncWrite` and `AsyncWriteExt::shutdown` of a stream: a read into so many free bytes,
-- a write of which a number is taken, and how a shutdown ends. Each polls once, but the last.
pub record TransportStream (S : Type 0) : Type 0 where
  pub poll_read : S → ℕ → S × Poll (Result String (List ℕ))
  pub poll_write : S → List ℕ → S × Poll (Result String ℕ)
  pub poll_flush : S → S × Poll (Result String (Unit {0}))
  pub poll_shutdown : S → S × Poll (Result String (Unit {0}))
  pub shutdown : S → S × Result String (Unit {0})

pub record TransportConnector (C S : Type 0) : Type 0 where
  pub connect : C → Result String S
  pub name : C → String

pub record TcpTransportStream (S : Type 0) : Type 0 where
  pub inner : S

abbrev pub new_tcp : {S : Type 0} → S → TcpTransportStream S
new_tcp stream = record { inner = stream }

pub record RfcommTransportStream (S : Type 0) : Type 0 where
  pub inner : S
  pub peer_addr : ℕ

abbrev pub new_rfcomm : {S : Type 0} → S → ℕ → RfcommTransportStream S
new_rfcomm stream peer_addr = record { inner = stream; peer_addr = peer_addr }

abbrev pub peer_address : {S : Type 0} → RfcommTransportStream S → ℕ
peer_address s = s.peer_addr

-- `?` and `Ok(())`.
abbrev pub passed_on : Result String (Unit {0}) → Result String (Unit {0})
passed_on (ok u) = ok tt
passed_on (err e) = err e

module _ {S : Type 0} (io : TransportStream S) where
  unfoldable pub tcp_stream : TransportStream (TcpTransportStream S)
  tcp_stream = record {
    poll_read =
        λ s room. let (inner, r) = io.poll_read s.inner room in (record s { inner = inner }, r);
    poll_write =
        λ s buf. let (inner, r) = io.poll_write s.inner buf in (record s { inner = inner }, r);
    poll_flush = λ s. let (inner, r) = io.poll_flush s.inner in (record s { inner = inner }, r);
    poll_shutdown =
        λ s. let (inner, r) = io.poll_shutdown s.inner in (record s { inner = inner }, r);
    shutdown =
        λ s. let (inner, r) = io.shutdown s.inner in (record s { inner = inner }, passed_on r);
  }

  unfoldable pub rfcomm_stream : TransportStream (RfcommTransportStream S)
  rfcomm_stream = record {
    poll_read =
        λ s room. let (inner, r) = io.poll_read s.inner room in (record s { inner = inner }, r);
    poll_write =
        λ s buf. let (inner, r) = io.poll_write s.inner buf in (record s { inner = inner }, r);
    poll_flush = λ s. let (inner, r) = io.poll_flush s.inner in (record s { inner = inner }, r);
    poll_shutdown =
        λ s. let (inner, r) = io.poll_shutdown s.inner in (record s { inner = inner }, r);
    shutdown =
        λ s. let (inner, r) = io.shutdown s.inner in (record s { inner = inner }, passed_on r);
  }

-- What a user of a stream calls, and what it is answered.
pub data Call : Type 0 where
  read_into : ℕ → Call
  write_from : List ℕ → Call
  flush poll_close close : Call

pub data Answer : Type 0 where
  bytes : Poll (Result String (List ℕ)) → Answer
  count : Poll (Result String ℕ) → Answer
  done : Poll (Result String (Unit {0})) → Answer

abbrev pub call : {S : Type 0} → TransportStream S → S → Call → S × Answer
call io s (read_into room) = let (s', r) = io.poll_read s room in (s', bytes r)
call io s (write_from buf) = let (s', r) = io.poll_write s buf in (s', count r)
call io s flush = let (s', r) = io.poll_flush s in (s', done r)
call io s poll_close = let (s', r) = io.poll_shutdown s in (s', done r)
call io s close = let (s', r) = io.shutdown s in (s', done (ready r))

pub calls : {S : Type 0} → TransportStream S → S → List Call → S × List Answer
calls io s [] = (s, [])
calls io s (c ∷ cs) =
    let (s', answer) = call io s c in
    let (last, answers) = calls io s' cs in (last, answer ∷ answers)

passed_same : (r : Result String (Unit {0})) → passed_on r ≡ r
passed_same (ok u) = refl
passed_same (err e) = refl

module _ {S : Type 0} (io : TransportStream S) where
  tcp-call :
      (s : S) (c : Call)
      → call (tcp_stream io) (new_tcp s) c
        ≡ (let (s', answer) = call io s c in (new_tcp s', answer))
  unfolding tcp_stream
  tcp-call s (read_into room) = refl
  tcp-call s (write_from buf) = refl
  tcp-call s flush = refl
  tcp-call s poll_close = refl
  tcp-call s close =
      ap (λ r. (new_tcp (io.shutdown s).0, done (ready r))) (passed_same (io.shutdown s).1)

  rfcomm-call :
      (s : S) (addr : ℕ) (c : Call)
      → call (rfcomm_stream io) (new_rfcomm s addr) c
        ≡ (let (s', answer) = call io s c in (new_rfcomm s' addr, answer))
  unfolding rfcomm_stream
  rfcomm-call s addr (read_into room) = refl
  rfcomm-call s addr (write_from buf) = refl
  rfcomm-call s addr flush = refl
  rfcomm-call s addr poll_close = refl
  rfcomm-call s addr close =
      ap (λ r. (new_rfcomm (io.shutdown s).0 addr, done (ready r))) (passed_same (io.shutdown s).1)

  abbrev after_call : {W : Type 0} → TransportStream W → List Call → W × Answer → W × List Answer
  after_call w cs (s, answer) = let (last, answers) = calls w s cs in (last, answer ∷ answers)

  -- A wrapped socket answers every run of calls as the socket itself does, over TCP and over RFCOMM,
  -- whose peer stays the same.
  pub calls-wrapped :
      (cs : List Call) (s : S) (addr : ℕ)
      → let (last, answers) = calls io s cs in
        (calls (tcp_stream io) (new_tcp s) cs ≡ (new_tcp last, answers))
        × (calls (rfcomm_stream io) (new_rfcomm s addr) cs ≡ (new_rfcomm last addr, answers))
  unfolding calls
  calls-wrapped [] s addr = (refl, refl)
  calls-wrapped (c ∷ cs) s addr =
      let (s', answer) = call io s c in
      let (over_tcp, over_rfcomm) = calls-wrapped cs s' addr in
      (
        ap (after_call (tcp_stream io) cs) (tcp-call s c) ∙ ap (λ r. (r.0, answer ∷ r.1)) over_tcp,
        ap (after_call (rfcomm_stream io) cs) (rfcomm-call s addr c)
            ∙ ap (λ r. (r.0, answer ∷ r.1)) over_rfcomm,
      )
