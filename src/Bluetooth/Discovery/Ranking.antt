-- ===== src/Bluetooth/Discovery/Ranking.antt =====
-- src/transport/bt_discovery.rs: the order of the relays, and the best one.
use mathlib.Core.List.{Perm}
use mathlib.Core.List.Perm
use res_qterra_engine.Common.{
  ℕ, ◌≤◌, ◌≡◌, refl, sym, subst, String, List, [], ◌∷◌, Result, ok, err, All, In, inl, inr, leb,
  arith, Bool-cases,
}
use res_qterra_engine.Bluetooth.Discovery.{
  BtDiscoveryConfig, RelayDevice, Device, AdapterEvent, strength, insert_ranked, rank, found,
  discover_relays, first_relay, find_best_relay,
}

-- Every element of a list is at most as strong as a device.
abbrev pub NoneStronger : RelayDevice → List RelayDevice → Type 0
NoneStronger d = All (λ x. strength x ≤ strength d)

abbrev pub IsRanked : List RelayDevice → Type 0
IsRanked [] = Unit
IsRanked (d ∷ ds) = NoneStronger d ds × IsRanked ds

NoneStronger-trans :
    (d e : RelayDevice) (xs : List RelayDevice)
    → strength d ≤ strength e
    → NoneStronger d xs
    → NoneStronger e xs
NoneStronger-trans d e [] h n = tt
NoneStronger-trans d e (x ∷ xs) h n = (omega (arith, n.0), NoneStronger-trans d e xs h n.1)

NoneStronger-insert :
    (d e : RelayDevice) (xs : List RelayDevice)
    → strength e ≤ strength d
    → NoneStronger d xs
    → NoneStronger d (insert_ranked e xs)
NoneStronger-insert d e [] h n = (h, tt)
NoneStronger-insert d e (x ∷ xs) h n = elim (Bool-cases (leb (strength x) (strength e))) [
  | inl c ↦ rw c (h, n)
  | inr c ↦ rw c (n.0, NoneStronger-insert d e xs h n.1)
]

insert_ranked-IsRanked :
    (d : RelayDevice) (xs : List RelayDevice) → IsRanked xs → IsRanked (insert_ranked d xs)
insert_ranked-IsRanked d [] r = (tt, tt)
insert_ranked-IsRanked d (x ∷ xs) r = elim (Bool-cases (leb (strength x) (strength d))) [
  | inl c ↦
      let below : strength x ≤ strength d = ground (arith, c) in
      rw c ((below, NoneStronger-trans x d xs below r.0), r)
  | inr c ↦
      rw c (NoneStronger-insert x d xs (ground (arith, c)) r.0, insert_ranked-IsRanked d xs r.1)
]

insert_ranked-perm : (d : RelayDevice) (xs : List RelayDevice) → Perm (insert_ranked d xs) (d ∷ xs)
insert_ranked-perm d [] = Perm.rfl
insert_ranked-perm d (x ∷ xs) = elim (Bool-cases (leb (strength x) (strength d))) [
  | inl c ↦ rw c Perm.rfl
  | inr c ↦ rw c (Perm.trans (Perm.cons x (insert_ranked-perm d xs)) (Perm.swap d x xs))
]

rank-IsRanked : (ds : List RelayDevice) → IsRanked (rank ds)
rank-IsRanked [] = tt
rank-IsRanked (d ∷ ds) = insert_ranked-IsRanked d (rank ds) (rank-IsRanked ds)

rank-perm : (ds : List RelayDevice) → Perm (rank ds) ds
rank-perm [] = Perm.rfl
rank-perm (d ∷ ds) = Perm.trans (insert_ranked-perm d (rank ds)) (Perm.cons d (rank-perm ds))

-- A list of relays that is ranked, and has just the relays that were found.
abbrev pub IsRanking : List RelayDevice → Result String (List RelayDevice) → Type 0
IsRanking ds (ok xs) = IsRanked xs × Perm xs ds
IsRanking ds (err e) = ⊥

-- A scan that starts yields just the relays found, the stronger ones before the weaker, and those
-- with no signal last.
pub discover_relays-IsRanking :
    (config : BtDiscoveryConfig) (adapter : ℕ → Result String Device) (events : List AdapterEvent)
    → IsRanking (found config adapter events) (discover_relays config adapter (ok events))
unfolding discover_relays
discover_relays-IsRanking config adapter events =
    (rank-IsRanked (found config adapter events), rank-perm (found config adapter events))

-- The best of some relays: one of them with none stronger, or the error where there are none.
abbrev pub IsBest : List RelayDevice → Result String RelayDevice → Type 0
IsBest ds (ok d) = In d ds × NoneStronger d ds
IsBest ds (err e) = (ds ≡ []) × (e ≡ "No relay devices found")

NoneStronger-uninsert :
    (d e : RelayDevice) (xs : List RelayDevice)
    → NoneStronger d (insert_ranked e xs)
    → NoneStronger d (e ∷ xs)
NoneStronger-uninsert d e [] n = n
NoneStronger-uninsert d e (x ∷ xs) n = elim (Bool-cases (leb (strength x) (strength e))) [
  | inl c ↦ rw c at n
  | inr c ↦
      let k : NoneStronger d (x ∷ insert_ranked e xs) = rw c at n in
      let rest = NoneStronger-uninsert d e xs k.1 in (rest.0, (k.0, rest.1))
]

NoneStronger-unrank :
    (d : RelayDevice) (ds : List RelayDevice) → NoneStronger d (rank ds) → NoneStronger d ds
NoneStronger-unrank d [] n = tt
NoneStronger-unrank d (e ∷ ds) n =
    let all = NoneStronger-uninsert d e (rank ds) n in (all.0, NoneStronger-unrank d ds all.1)

In-insert_ranked :
    (d e : RelayDevice) (xs : List RelayDevice) → In d (insert_ranked e xs) → In d (e ∷ xs)
In-insert_ranked d e [] m = m
In-insert_ranked d e (x ∷ xs) m = elim (Bool-cases (leb (strength x) (strength e))) [
  | inl c ↦ rw c at m
  | inr c ↦
      let m' : In d (x ∷ insert_ranked e xs) = rw c at m in
      elim m' [
        | inl same ↦ inr (inl same)
        | inr deep ↦ elim (In-insert_ranked d e xs deep) [
          | inl same ↦ inl same
          | inr deeper ↦ inr (inr deeper)
        ]
      ]
]

In-rank : (d : RelayDevice) (ds : List RelayDevice) → In d (rank ds) → In d ds
In-rank d [] m = m
In-rank d (e ∷ ds) m = elim (In-insert_ranked d e (rank ds) m) [
  | inl same ↦ inl same
  | inr m' ↦ inr (In-rank d ds m')
]

first_relay-IsBest : (ds xs : List RelayDevice) → rank ds ≡ xs → IsBest ds (first_relay (ok xs))
first_relay-IsBest ds [] e = (sym (Perm.nil-eq (subst (λ l. Perm l ds) e (rank-perm ds))), refl)
first_relay-IsBest ds (d ∷ xs) e =
    let ranked = subst IsRanked e (rank-IsRanked ds) in
    let here : In d (rank ds) = subst (In d) (sym e) (inl refl) in
    (
      In-rank d ds here,
      NoneStronger-unrank d ds (subst (NoneStronger d) (sym e) (omega arith, ranked.0)),
    )

-- If the scan starts, the relay chosen is one of those found, and none of them has a stronger
-- signal; there is an error just where none was found.
pub find_best_relay-IsBest :
    (config : BtDiscoveryConfig) (adapter : ℕ → Result String Device) (events : List AdapterEvent)
    → IsBest (found config adapter events) (find_best_relay config adapter (ok events))
unfolding find_best_relay
find_best_relay-IsBest config adapter events =
    first_relay-IsBest (found config adapter events) (rank (found config adapter events)) refl
