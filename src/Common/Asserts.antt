-- ===== src/Common/Asserts.antt =====
-- What the unit tests of the repository assert.
use mathlib.Core.Bool.{Bool, true, false, ◌&&◌}
use mathlib.Core.Option.{Option, none, some}
use mathlib.Core.List.{List, [], ◌∷◌}
use res_qterra_engine.Common.Results.{Result, ok, err}

-- `expect`: an error fails the test.
abbrev pub expect {ℓ κ} : {X : Type ℓ} {A : Type κ} → Result X A → (A → Bool) → Bool
expect (ok a) test = test a
expect (err x) test = false

abbrev pub expect_some {ℓ} : {A : Type ℓ} → Option A → (A → Bool) → Bool
expect_some (some a) test = test a
expect_some none test = false

abbrev pub is_none {ℓ} : {A : Type ℓ} → Option A → Bool
is_none none = true
is_none (some a) = false

abbrev pub is_some {ℓ} : {A : Type ℓ} → Option A → Bool
is_some none = false
is_some (some a) = true

abbrev pub all_pass : List Bool → Bool
all_pass [] = true
all_pass (b ∷ bs) = b && all_pass bs
