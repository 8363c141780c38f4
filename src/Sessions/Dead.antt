-- ===== src/Sessions/Dead.antt =====
-- Sessions that the heartbeat monitor finds dead.
use res_qterra_engine.Common.{
  ℕ, ◌≡◌, ◌+◌, refl, String, Option, none, some, Bool, true, false, List, [], ◌∷◌, arith,
  if◌then◌else◌, string_key, ap, inl, inr, Bool-cases, ◌∙◌, ltb,
}
use res_qterra_engine.Common.Dict
use res_qterra_engine.Common.Dict.{Dict, get-remove}
use res_qterra_engine.Common.Dict.Distinct.{Unique}
use res_qterra_engine.Sessions.Handle.{SessionHandle}
use res_qterra_engine.Sessions.{
  SessionEntry, SessionManager, register, remove_all, remove_ids, remove_dead_sessions,
  check_dead_sessions, dead_ids,
}
use res_qterra_engine.Sessions.Registry.{entry_at, IsKeyed}

abbrev pub contains : String → List String → Bool
contains id [] = false
contains id (x ∷ xs) = let rest = contains id xs in if string_key.beq x id then true else rest

get-remove_ids :
    (id : String) (ids : List String) (m : Dict String SessionEntry)
    → Dict.get id (remove_ids ids m) ≡ (if contains id ids then none else Dict.get id m)
unfolding remove_ids
get-remove_ids id [] m = refl
get-remove_ids id (x ∷ xs) m =
    ground (arith, get-remove_ids id xs (Dict.remove x m), get-remove x id m)

-- No heartbeat for more than ten seconds.
abbrev pub is_silent : ℕ → SessionEntry → Bool
is_silent now e = ltb (e.info.last_heartbeat + 10000) now

abbrev pub dead_entry : ℕ → Option SessionEntry → Bool
dead_entry now none = false
dead_entry now (some e) = is_silent now e

contains-dead_ids :
    (id : String) (now : String → ℕ) (m : Dict String SessionEntry)
    → Unique m
    → contains id (dead_ids now m) ≡ dead_entry (now id) (Dict.get id m)
unfolding dead_ids Dict.get
contains-dead_ids id now [] u = refl
contains-dead_ids id now ((j, e) ∷ m) u = elim (Bool-cases (string_key.beq j id)) [
  | inl same ↦ ground (
    arith,
    (string_key.beq_iff j id).0 same,
    ap now ((string_key.beq_iff j id).0 same),
    contains-dead_ids id now m u.1,
  )
  | inr other ↦ ground (arith, contains-dead_ids id now m u.1)
]

removed-entry_at :
    (id : String) (locked : SessionManager) (dead : List String)
    → entry_at id (elim dead [ [] ↦ locked | x ∷ xs ↦ remove_all locked (x ∷ xs) ])
      ≡ (if contains id dead then none else entry_at id locked)
unfolding remove_all
removed-entry_at id locked [] = refl
removed-entry_at id locked (x ∷ xs) = get-remove_ids id (x ∷ xs) locked.sessions

-- A reaping round reports exactly the devices that had no heartbeat for more than ten seconds when
-- it looked at them. Whatever other tasks do to the table between the check and the removal, it takes
-- out the sessions that these devices have then, and leaves every other session as it is then.
pub remove_dead_sessions-entry_at :
    (m locked : SessionManager) (now : String → ℕ) (id : String)
    → IsKeyed m
    → (contains id (remove_dead_sessions m now locked).1 ≡ dead_entry (now id) (entry_at id m))
      × (entry_at id (remove_dead_sessions m now locked).0
          ≡ (if dead_entry (now id) (entry_at id m) then none else entry_at id locked))
unfolding remove_dead_sessions check_dead_sessions
remove_dead_sessions-entry_at m locked now id v =
    let found = contains-dead_ids id now m.sessions v.unique in
    (
      found,
      removed-entry_at id locked (dead_ids now m.sessions)
          ∙ ap (λ b. if b then none else entry_at id locked) found,
    )

-- The check and the removal take the lock one after the other: a drone that was found dead and
-- registers anew in between loses its new session.
pub reaped_after_register :
    (m : SessionManager) (handle : SessionHandle) (now : String → ℕ) (later : ℕ)
    → IsKeyed m
    → dead_entry (now handle.device_id) (entry_at handle.device_id m) ≡ true
    → entry_at handle.device_id (remove_all (register m handle later) (check_dead_sessions m now))
      ≡ none
unfolding remove_all check_dead_sessions
reaped_after_register m handle now later v dead =
    get-remove_ids handle.device_id (dead_ids now m.sessions) (register m handle later).sessions
    ∙ rw (contains-dead_ids handle.device_id now m.sessions v.unique, dead)
