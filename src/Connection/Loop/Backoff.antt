-- ===== src/Connection/Loop/Backoff.antt =====
-- How long the loop waits, and which transport it tries.
use res_qterra_engine.Common.{
  ℕ, zero, suc, ◌*◌, ◌^◌, ◌≤◌, ◌≡◌, ◌↔◌, ap, ◌∙◌, Option, none, some, List, [], ◌∷◌, arith, sym,
  Bool-cases, false, length, ◌<◌, inl, inr, leb,
}
use res_qterra_engine.Connection.{five_g, bluetooth, ConnectionConfig}
use res_qterra_engine.Connection.Loop.{
  Attempt, opens, refused, times_out, LoopState, min, round, connection_loop,
}

-- An attempt that opens no stream.
abbrev pub Fails : Attempt → Type 0
Fails (opens events reason) = ⊥
Fails (refused e) = Unit
Fails times_out = Unit

-- The delay to sleep after an attempt: the first one if a stream was open, and else the one that
-- has come up.
abbrev pub delay_after : ConnectionConfig → LoopState → Attempt → ℕ
delay_after config s (opens events reason) = config.reconnect_delay
delay_after config s _ = s.reconnect_delay

-- Every sleep is as long as `delay_after` says, and is followed by a delay of twice its length, but
-- at most the maximum.
pub round-slept :
    (config : ConnectionConfig) (s : LoopState) (a : Attempt) (d : ℕ)
    → (round config s a).slept ≡ some d
    → (d ≡ delay_after config s a)
      × ((round config s a).state.reconnect_delay ≡ min (d * 2) config.max_reconnect_delay)
unfolding round
round-slept config s a d h = ground arith

-- Bluetooth is tried exactly after an attempt over 5G that opened no stream, and then at once,
-- without a sleep; in every other case the loop sleeps and comes back to 5G.
pub round-bluetooth :
    (config : ConnectionConfig) (s : LoopState) (a : Attempt)
    → let r = round config s a in
      ((r.state.current_transport ≡ bluetooth) ↔ ((s.current_transport ≡ five_g) × Fails a))
      × ((r.slept ≡ none) ↔ (r.state.current_transport ≡ bluetooth))
unfolding round
round-bluetooth config s a = ground arith

-- Attempts over 5G and Bluetooth in turn.
abbrev pub pairs : List (Attempt × Attempt) → List Attempt
pairs [] = []
pairs ((a, b) ∷ rest) = a ∷ b ∷ pairs rest

abbrev pub AllFail : List (Attempt × Attempt) → Type 0
AllFail [] = Unit
AllFail ((a, b) ∷ rest) = Fails a × Fails b × AllFail rest

abbrev pub delay_at : List ℕ → ℕ → Option ℕ
delay_at [] k = none
delay_at (d ∷ ds) zero = some d
delay_at (d ∷ ds) (suc k) = delay_at ds k

min_small : (a b : ℕ) → a ≤ b → min a b ≡ a
min_small a b h = ground arith

min_large : (a b : ℕ) → b ≤ a → min a b ≡ b
min_large a b h = ground arith

min_bound : (a b : ℕ) → min a b ≤ b
min_bound a b = ground arith

above : (a b : ℕ) → leb a b ≡ false → b ≤ a
above a b h = ground arith

min_double : (d top p : ℕ) → 1 ≤ p → min (min (d * 2) top * p) top ≡ min (d * (2 * p)) top
min_double d top zero h = absurd (omega arith)
min_double d top (suc q) h = elim (Bool-cases (leb (d * 2) top)) [
  | inl small ↦ rw small (ap (λ n. min n top) (omega arith))
  | inr large ↦ rw large (
      min_large (top * suc q) top (omega arith)
      ∙ sym (min_large (d * (2 * suc q)) top (omega (arith, above (d * 2) top large))))
]

power_pos : (k : ℕ) → 1 ≤ 2 ^ k
power_pos zero = omega arith
power_pos (suc k) = omega (arith, power_pos k)

two_fail :
    (config : ConnectionConfig) (d : ℕ) (a b : Attempt) (rest : List Attempt)
    → Fails a
    → Fails b
    → (connection_loop config
        (record { current_transport = five_g; reconnect_delay = d })
        (a ∷ b ∷ rest)).2
      ≡ d
        ∷ (connection_loop config
            (record {
              current_transport = five_g;
              reconnect_delay = min (d * 2) config.max_reconnect_delay;
            })
            rest).2
unfolding connection_loop round
two_fail config d a b rest fa fb = ground arith

-- While every attempt fails, over 5G and then over Bluetooth, the loop sleeps after each pair of
-- attempts: after pair number k, counted from 0, for the first delay doubled k times, or for the
-- maximum if that is less. The first delay is at most the maximum.
pub slept-pairs :
    (config : ConnectionConfig) (ps : List (Attempt × Attempt)) (d k : ℕ)
    → AllFail ps
    → d ≤ config.max_reconnect_delay
    → k < length ps
    → delay_at
        (connection_loop config
          (record { current_transport = five_g; reconnect_delay = d })
          (pairs ps)).2
        k
      ≡ some (min (d * 2 ^ k) config.max_reconnect_delay)
slept-pairs config [] d k fail h lt = absurd (omega arith)
slept-pairs config ((a, b) ∷ ps) d zero (fa, fb, fail) h lt =
    rw (two_fail config d a b (pairs ps) fa fb)
      (ap some (sym (min_small (d * 1) config.max_reconnect_delay (omega arith) ∙ omega arith)))
slept-pairs config ((a, b) ∷ ps) d (suc k) (fa, fb, fail) h lt =
    rw (two_fail config d a b (pairs ps) fa fb) (
      slept-pairs config ps (min (d * 2) config.max_reconnect_delay) k fail
        (min_bound (d * 2) config.max_reconnect_delay) (omega arith)
      ∙ ap some (
          min_double d config.max_reconnect_delay (2 ^ k) (power_pos k)
          ∙ ap (λ n. min (d * n) config.max_reconnect_delay) (omega arith)))
