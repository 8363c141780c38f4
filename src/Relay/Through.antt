-- ===== src/Relay/Through.antt =====
-- relay-node/src/main.rs: while both sockets go on, all that the edge sends gets through.
use res_qterra_engine.Common.{
  All, Option, subst, ℕ, suc, ◌+◌, ◌-◌, ◌*◌, ◌≤◌, ◌≡◌, refl, sym, ap, ◌∙◌, none, List, [], ◌∷◌, ok,
  length, take, drop, arith, append-nil, length-append, length-drop, take-append-drop,
}
use res_qterra_engine.Connection.Loop.{min}
use res_qterra_engine.Codec.{IsProst, Prost, new_decoder, deliver}
use res_qterra_engine.Codec.Stream.{frames, AllSound}
use res_qterra_engine.Codec.Chunks.{concat, deliver-frames}
use res_qterra_engine.Relay.Forward.{
  Copy, Ready, Ending, buffer_size, copy_round, Relay, Turn, up, down, turn, forward,
}
use res_qterra_engine.Relay.Streams.{stream, copy_round-stream}
use res_qterra_engine.Relay.Messages.{between}

-- What a socket answers while it goes on: a read would yield `a + 1` bytes and a write take `b + 1`.
abbrev pub alive : ℕ × ℕ → Ready
alive (a, b) = record { reads = ok (suc a); writes = ok (suc b) }

-- A turn of either loop in which its sockets go on.
abbrev pub IsAlive : Turn → Type 0
IsAlive (up ready) = (x : ℕ × ℕ) × (ready ≡ alive x)
IsAlive (down ready) = (x : ℕ × ℕ) × (ready ≡ alive x)

-- How many turns the loop from the edge to the server has.
abbrev pub ups : List Turn → ℕ
ups [] = 0
ups (up ready ∷ ts) = suc (ups ts)
ups (down ready ∷ ts) = ups ts

-- What is left to do: a byte to come is read and then written.
abbrev work : Copy → ℕ
work c = 2 * length c.incoming + length c.held

one_at_least : (a : ℕ) → 1 ≤ min (suc a) buffer_size
one_at_least a = ground arith

work-read :
    (k : ℕ) (xs : List ℕ)
    → 1 ≤ k
    → 2 * length (drop k xs) + length (take k xs) ≤ 2 * length xs + 0 - 1
work-read k xs h = omega (
  arith,
  length-drop k xs,
  length-append (take k xs) (drop k xs),
  ap (length {A = ℕ}) (take-append-drop k xs),
)

-- A turn does some of the work, if any is left.
work-copy_round :
    (incoming held written : List ℕ) (x : ℕ × ℕ)
    → let c : Copy = record { incoming = incoming; held = held; written = written } in
      work (copy_round c (alive x)).0 ≤ work c - 1
unfolding copy_round
work-copy_round incoming [] written (a, b) =
    work-read (min (suc a) buffer_size) incoming (one_at_least a)
work-copy_round incoming (h ∷ hs) written (a, b) = omega (arith, length-drop b hs)

goes_on :
    (incoming held written : List ℕ) (x : ℕ × ℕ)
    → let c : Copy = record { incoming = incoming; held = held; written = written } in
      (copy_round c (alive x)).1 ≡ none
unfolding copy_round
goes_on incoming [] written (a, b) = refl
goes_on incoming (h ∷ hs) written (a, b) = refl

length-zero : (xs : List ℕ) → length xs ≤ 0 → xs ≡ []
length-zero [] h = refl
length-zero (x ∷ xs) h = absurd (omega arith)

all_through : (c : Copy) → work c ≤ 0 → c.written ≡ stream c
all_through c h =
    let no_more = length-zero c.incoming (omega arith) in
    let none_held = length-zero c.held (omega arith) in
    rw (no_more, none_held) (sym (append-nil c.written))

-- A turn in which the sockets go on leaves the rest to the other turns.
forward-up :
    (r : Relay) (ready : Ready) (x : ℕ × ℕ) (ts : List Turn)
    → ready ≡ alive x
    → forward r (up ready ∷ ts)
      ≡ forward (record r { edge_to_server = (copy_round r.edge_to_server (alive x)).0 }) ts
unfolding forward turn
forward-up r ready x ts q =
    let c = r.edge_to_server in
    ap (λ y. forward r (up y ∷ ts)) q ∙ rw (goes_on c.incoming c.held c.written x, forward) refl

forward-down :
    (r : Relay) (ready : Ready) (x : ℕ × ℕ) (ts : List Turn)
    → ready ≡ alive x
    → forward r (down ready ∷ ts)
      ≡ forward (record r { server_to_edge = (copy_round r.server_to_edge (alive x)).0 }) ts
unfolding forward turn
forward-down r ready x ts q =
    let c = r.server_to_edge in
    ap (λ y. forward r (down y ∷ ts)) q ∙ rw (goes_on c.incoming c.held c.written x, forward) refl

-- All that the edge sends.
abbrev AllThrough : Relay → Relay × Option Ending → Type 0
AllThrough r (last, ended) =
    (last.edge_to_server.written ≡ stream r.edge_to_server) × (ended ≡ none)

forward-through :
    (r : Relay) (ts : List Turn)
    → All IsAlive ts
    → 2 * length r.edge_to_server.incoming + length r.edge_to_server.held ≤ ups ts
    → AllThrough r (forward r ts)
unfolding forward
forward-through r [] on h = (all_through r.edge_to_server (omega arith), refl)
forward-through r (up ready ∷ ts) ((x, q), on) h =
    let c = r.edge_to_server in
    let less = work-copy_round c.incoming c.held c.written x in
    let r' : Relay = record r { edge_to_server = (copy_round c (alive x)).0 } in
    let (through, alive_yet) = forward-through r' ts on (omega (arith, less)) in
    subst (AllThrough r) (sym (forward-up r ready x ts q))
      (through ∙ copy_round-stream c (alive x), alive_yet)
forward-through r (down ready ∷ ts) ((x, q), on) h =
    let r' : Relay = record r { server_to_edge = (copy_round r.server_to_edge (alive x)).0 } in
    subst (AllThrough r) (sym (forward-down r ready x ts q)) (forward-through r' ts on h)

module _ {E D N : Type 0} {p : Prost E D N} (law : IsProst p) where
  -- While the edge's and the server's sockets go on, yielding and taking bytes, whatever their
  -- numbers: however the turns of the two loops come, two turns of the loop from the edge for each
  -- byte are enough for all that the edge sends to get through, valid messages that fit arrive at the
  -- server whole and in order, however its reads are cut, and the handler goes on.
  pub forward-delivers :
      (es : List E) (from_server : List ℕ) (ts : List Turn) (chunks : List (List ℕ))
      → AllSound law es
      → All IsAlive ts
      → 2 * length (frames law es) ≤ ups ts
      → concat chunks ≡ (forward (between (frames law es) from_server) ts).0.edge_to_server.written
      → (deliver p new_decoder chunks ≡ (es, new_decoder))
        × ((forward (between (frames law es) from_server) ts).1 ≡ none)
  forward-delivers es from_server ts chunks fit on enough got =
      let (through, alive_yet) =
        forward-through (between (frames law es) from_server) ts on (omega arith) in
      (deliver-frames law es chunks fit (got ∙ through), alive_yet)
