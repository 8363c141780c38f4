-- ===== src/Server/Main/Heard.antt =====
-- server/src/main.rs: what each connection hears, among all the others.
use res_qterra_engine.Common.{
  ℕ, ◌≡◌, refl, sym, ap, ◌∙◌, ◌⊎◌, inl, inr, String, Bool, true, false, Option, none, some, List,
  [], ◌∷◌, ◌++◌, Result, ok, err, ◌==◌, get_elem?, get_elem?-append_left, get_elem?-append_last,
  get_elem?-modify, length, Bool-cases, append_assoc, subst, ==_iff,
}
use mathlib.Core.Option.{some-injective}
use res_qterra_engine.Proto.{Envelope}
use res_qterra_engine.Codec.{Prost, IsProst}
use res_qterra_engine.Codec.Stream.{frames, AllSound}
use res_qterra_engine.Codec.Chunks.{concat}
use res_qterra_engine.Sessions.Session.{DroneSession, Received, new_session, recv, accept}
use res_qterra_engine.Sessions.Session.Rounds.{then_closed}
use res_qterra_engine.Server.{Server, Moment}
use res_qterra_engine.Server.Session.{Next, recv-Next}
use res_qterra_engine.Server.Main.{
  Connection, Program, Accepted, new_connection, Happening, accepts, receives, background, received,
  round, round_of, accept_next, while_running, run, run-append, main,
}

module _ {D N : Type 0} {p : Prost Envelope D N} (law : IsProst p) (up : ℕ → Bool)
    (es : List Envelope) (rest : List ℕ) where
  -- What is still to come, unless the connection is over, is the bytes of the messages that have not
  -- been heard, but for the last ones, which never come.
  abbrev ToCome : Connection → List Envelope → Type 0
  ToCome c later =
      (chunks : List (List ℕ)) × (c.over ≡ false)
      × (c.incoming ≡ then_closed chunks)
      × (c.session.decoder.buffer ++ (concat chunks ++ rest) ≡ frames law later)
      × AllSound law later

  abbrev Hears : Connection → Type 0
  Hears c =
      (later : List Envelope) × (es ≡ c.heard ++ later)
      × (((c.over ≡ true) × (rest ≡ [] → later ≡ [])) ⊎ ToCome c later)

  received-Hears :
      (x : Server) (c : Connection) (t : Moment) (later : List Envelope)
      (r : DroneSession × Received)
      → c.over ≡ false
      → es ≡ c.heard ++ later
      → Next law up c.session t.noted later rest r
      → Hears (received p up x c t r).1
  unfolding received accept
  received-Hears x c t later r alive split (inl (e, later', buf, cs, cut, out, whole, fit)) =
      subst (λ r. Hears (received p up x c t r).1) (sym out)
        (
          later',
          split ∙ ap (λ l. c.heard ++ l) cut ∙ sym (append_assoc c.heard (e ∷ []) later'),
          inr (cs, alive, refl, whole, fit),
        )
  received-Hears x c t later r alive split (inr (buf, out, all)) =
      subst (λ r. Hears (received p up x c t r).1) (sym out) (later, split, inl (refl, all))

  round-Hears :
      (x : Server) (c : Connection) (t : Moment) → Hears c → Hears (round p up x c t c.over).1
  unfolding round
  round-Hears x c t (later, split, inl (over, all)) =
      subst (λ o. Hears (round p up x c t o).1) (sym over) (later, split, inl (over, all))
  round-Hears x c t (later, split, inr (chunks, alive, reads, whole, fit)) =
      subst (λ o. Hears (round p up x c t o).1) (sym alive)
        (received-Hears x c t later (recv p c.session t.noted c.incoming) alive split (
          subst (λ i. Next law up c.session t.noted later rest (recv p c.session t.noted i))
            (sym reads) (recv-Next law up c.session t.noted chunks rest later fit whole)))

  -- The connection with the number `k`.
  abbrev HearsAt : ℕ → Program → Type 0
  HearsAt k q = (c : Connection) × (get_elem? q.connections k ≡ some c) × Hears c

  round_of-HearsAt :
      (q : Program) (i k : ℕ) (t : Moment) (o : Option Connection)
      → get_elem? q.connections i ≡ o
      → HearsAt k q
      → HearsAt k (round_of p up q i t o)
  unfolding round_of
  round_of-HearsAt q i k t none there h = h
  round_of-HearsAt q i k t (some d) there (c, at, h) =
      let d' = (round p up q.server d t d.over).1 in
      let now = get_elem?-modify (λ _. d') q.connections i k at in
      elim (Bool-cases (i == k)) [
        | inl same ↦
            let own : d ≡ c =
              some-injective _ _
                (sym there ∙ ap (get_elem? q.connections) ((==_iff i k).0 same) ∙ at) in
            (d', rw same at now, round-Hears q.server d t (subst Hears (sym own) h))
        | inr other ↦ (c, rw other at now, h)
      ]

  step-HearsAt :
      (q : Program) (k : ℕ) (h : Happening) (ended : Option String)
      → HearsAt k q
      → HearsAt k (while_running p up q h ended)
  unfolding while_running accept_next
  step-HearsAt q k h (some e) v = v
  step-HearsAt q k (accepts (ok a)) none (c, at, v) =
      (c, get_elem?-append_left q.connections (new_connection a ∷ []) k at, v)
  step-HearsAt q k (accepts (err e)) none v = v
  step-HearsAt q k (receives i t) none v =
      round_of-HearsAt q i k t (get_elem? q.connections i) refl v
  step-HearsAt q k (background b) none v = v

  run-HearsAt :
      (q : Program) (k : ℕ) (hs : List Happening) → HearsAt k q → HearsAt k (run p up q hs)
  unfolding run
  run-HearsAt q k [] v = v
  run-HearsAt q k (h ∷ hs) v =
      run-HearsAt (while_running p up q h q.ended) k hs (step-HearsAt q k h q.ended v)

  -- It has heard the first of the messages, and all of them when it is over and all bytes came.
  abbrev pub HasHeard : Connection → Type 0
  HasHeard c =
      (later : List Envelope) × (es ≡ c.heard ++ later) × (c.over ≡ true → rest ≡ [] → later ≡ [])

  Hears-HasHeard : (c : Connection) → Hears c → HasHeard c
  Hears-HasHeard c (later, split, inl (over, all)) = (later, split, λ _ none_left. all none_left)
  Hears-HasHeard c (later, split, inr (chunks, alive, reads, whole, fit)) =
      (later, split, λ over none_left. cc)

  accepts-new_connection :
      (q : Program) (a : Accepted) (after : List Happening)
      → q.ended ≡ none
      → run p up q (accepts (ok a) ∷ after)
        ≡ run p up (record q { connections = q.connections ++ new_connection a ∷ [] }) after
  unfolding run while_running accept_next
  accepts-new_connection q a after alive =
      ap (λ o. run p up (while_running p up q (accepts (ok a)) o) after) alive

  -- However the connections of the server and its other tasks interleave: while it accepts, a new
  -- connection whose bytes begin some valid messages that fit, however they are cut into reads, has
  -- handed on the first of these messages, in order, at any later moment; and all of them when it is
  -- over, if all bytes came.
  pub run-HasHeard :
      (bound : Result String (Unit {0})) (before after : List Happening) (a : Accepted)
      (chunks : List (List ℕ))
      → AllSound law es
      → concat chunks ++ rest ≡ frames law es
      → a.incoming ≡ then_closed chunks
      → (run p up (main bound) before).ended ≡ none
      → (c : Connection) × (get_elem?
            (run p up (main bound) (before ++ accepts (ok a) ∷ after)).connections
            (length (run p up (main bound) before).connections)
          ≡ some c)
        × HasHeard c
  unfolding new_session
  run-HasHeard bound before after a chunks fit whole reads alive =
      let q = run p up (main bound) before in
      let q' : Program = record q { connections = q.connections ++ new_connection a ∷ [] } in
      let (c, at, v) = run-HearsAt q' (length q.connections) after (
        new_connection a,
        get_elem?-append_last q.connections (new_connection a),
        (es, refl, inr (chunks, refl, reads, whole, fit)),
      ) in
      (
        c,
        ap (λ y. get_elem? y.connections (length q.connections))
              (run-append p up (main bound) before (accepts (ok a) ∷ after)
                ∙ accepts-new_connection q a after alive)
            ∙ at,
        Hears-HasHeard c v,
      )
