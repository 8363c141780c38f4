-- ===== src/Common/Dict/Distinct.antt =====
-- Dictionaries with each key once: what the operations keep, and what then stands at a key.
use mathlib.Core.Path.{◌≡◌, refl}
use mathlib.Core.Option.{none, some}
use mathlib.Core.List.{[], ◌∷◌}
use native.Mathlib.Omega.{arith}
use res_qterra_engine.Common.Lists.{In}
use res_qterra_engine.Common.Keys.{Key}
use res_qterra_engine.Common.Dict.{
  Dict, get, insert, remove, adjust, get-insert, get-remove, get-adjust,
}

module _ {K V : Type 0} ⦃e : Key K⦄ where
  abbrev pub Unique : Dict K V → Type 0
  Unique [] = Unit
  Unique ((k, v) ∷ m) = (get k m ≡ none) × Unique m

  pub insert-Unique : (k : K) (v : V) (m : Dict K V) → Unique m → Unique (insert k v m)
  unfolding get insert
  insert-Unique k v [] u = (refl, tt)
  insert-Unique k v ((j, w) ∷ m) u =
      ground (arith, e.beq_iff j k, e.beq_iff k j, get-insert k j v m, insert-Unique k v m u.1)

  pub remove-Unique : (k : K) (m : Dict K V) → Unique m → Unique (remove k m)
  unfolding get remove
  remove-Unique k [] u = tt
  remove-Unique k ((j, w) ∷ m) u =
      ground (arith, e.beq_iff j k, e.beq_iff k j, get-remove k j m, remove-Unique k m u.1)

  pub adjust-Unique : (k : K) (f : V → V) (m : Dict K V) → Unique m → Unique (adjust k f m)
  unfolding get adjust
  adjust-Unique k f [] u = tt
  adjust-Unique k f ((j, w) ∷ m) u =
      ground (arith, e.beq_iff j k, e.beq_iff k j, get-adjust k j f m, adjust-Unique k f m u.1)

  get-In : (k : K) (v : V) (m : Dict K V) → get k m ≡ some v → In (k, v) m
  unfolding get
  get-In k v [] h = cc
  get-In k v ((j, w) ∷ m) h = ground (arith, e.beq_iff j k, get-In k v m)

  pub In-get : (k : K) (v : V) (m : Dict K V) → Unique m → In (k, v) m → get k m ≡ some v
  unfolding get
  In-get k v [] u h = absurd h
  In-get k v ((j, w) ∷ m) u h = ground (arith, e.beq_iff j k, In-get k v m u.1)
