-- ===== src/Sessions/Registry.antt =====
-- The table of sessions: every entry stands under its own device, and what each operation does to
-- the entry of any device.
use res_qterra_engine.Common.{
  ℕ, ◌≡◌, refl, String, Option, none, some, false, List, [], ◌∷◌, arith, if◌then◌else◌, string_key,
  ◌||◌, not, Bool-cases, inl, inr,
}
use res_qterra_engine.Common.Text.{is_empty}
use res_qterra_engine.Common.Dict
use res_qterra_engine.Common.Dict.{Dict, get-insert, get-remove, get-adjust}
use res_qterra_engine.Common.Dict.Distinct.{Unique, insert-Unique, remove-Unique, adjust-Unique}
use res_qterra_engine.Proto.{DroneState, drone_unknown}
use res_qterra_engine.Sessions.Handle.{SessionHandle, new_info}
use res_qterra_engine.Sessions.{
  SessionEntry, SessionManager, register, unregister, update_heartbeat, update_state, remove_all,
  remove_ids,
}

abbrev pub entry_at : String → SessionManager → Option SessionEntry
entry_at id m = Dict.get id m.sessions

-- An entry and its handle name the device under which it stands, and that name is not empty.
abbrev pub IsOwn : String → SessionEntry → Type 0
IsOwn id e = (e.handle.device_id ≡ id) × (e.info.device_id ≡ id) × (is_empty id ≡ false)

abbrev pub AllOwn : Dict String SessionEntry → Type 0
AllOwn [] = Unit
AllOwn ((id, e) ∷ m) = IsOwn id e × AllOwn m

pub record IsKeyed (m : SessionManager) : Type 0 where
  pub unique : Unique m.sessions
  pub own : AllOwn m.sessions

insert-AllOwn :
    (id : String) (e : SessionEntry) (m : Dict String SessionEntry)
    → IsOwn id e
    → AllOwn m
    → AllOwn (Dict.insert id e m)
unfolding Dict.insert
insert-AllOwn id e [] h all = (h, tt)
insert-AllOwn id e ((j, x) ∷ m) h all = ground (arith, insert-AllOwn id e m h all.1)

remove-AllOwn : (id : String) (m : Dict String SessionEntry) → AllOwn m → AllOwn (Dict.remove id m)
unfolding Dict.remove
remove-AllOwn id [] all = tt
remove-AllOwn id ((j, x) ∷ m) all = ground (arith, remove-AllOwn id m all.1)

adjust-AllOwn :
    (id : String) (f : SessionEntry → SessionEntry) (m : Dict String SessionEntry)
    → ((j : String) (e : SessionEntry) → IsOwn j e → IsOwn j (f e))
    → AllOwn m
    → AllOwn (Dict.adjust id f m)
unfolding Dict.adjust
adjust-AllOwn id f [] keep all = tt
adjust-AllOwn id f ((j, x) ∷ m) keep all =
    ground (arith, keep j x all.0, adjust-AllOwn id f m keep all.1)

-- The calls that change the table.
pub data Call : Type 0 where
  registers : SessionHandle → ℕ → Call
  unregisters : String → Call
  beats : String → ℕ → Call
  reports : String → DroneState → Call
  reaps : List String → Call

unfoldable pub step : SessionManager → Call → SessionManager
unfolding register unregister update_heartbeat update_state remove_all
step m (registers handle now) = register m handle now
step m (unregisters id) = unregister m id
step m (beats id now) = update_heartbeat m id now
step m (reports id state) = update_state m id state
step m (reaps ids) = remove_all m ids

remove_ids-IsKeyed :
    (ids : List String) (m : Dict String SessionEntry)
    → Unique m
    → AllOwn m
    → Unique (remove_ids ids m) × AllOwn (remove_ids ids m)
unfolding remove_ids
remove_ids-IsKeyed [] m u all = (u, all)
remove_ids-IsKeyed (id ∷ ids) m u all =
    remove_ids-IsKeyed ids (Dict.remove id m) (remove-Unique id m u) (remove-AllOwn id m all)

-- The entry that a registration makes.
abbrev pub fresh : SessionHandle → ℕ → SessionEntry
fresh handle now = record {
  handle = handle;
  info = record {
    device_id = handle.device_id;
    addr = handle.addr;
    state = drone_unknown;
    last_heartbeat = now;
    connected_at = now;
    pending_commands = 0;
  };
}

register-IsKeyed :
    (m : SessionManager) (handle : SessionHandle) (now : ℕ)
    → IsKeyed m
    → IsKeyed (register m handle now)
unfolding register new_info
register-IsKeyed m handle now v = elim (Bool-cases (is_empty handle.device_id)) [
  | inl empty ↦ rw empty v
  | inr named ↦ rw named (record {
    unique = insert-Unique handle.device_id (fresh handle now) m.sessions v.unique;
    own = insert-AllOwn handle.device_id (fresh handle now) m.sessions (refl, refl, named) v.own;
  })
]

-- Every call keeps each device at most once in the table, under its own name, which is not empty.
pub step-IsKeyed : (m : SessionManager) (c : Call) → IsKeyed m → IsKeyed (step m c)
unfolding step new_info
step-IsKeyed m (registers handle now) v = register-IsKeyed m handle now v
step-IsKeyed m (unregisters id) v = record {
  unique = remove-Unique id m.sessions v.unique;
  own = remove-AllOwn id m.sessions v.own;
}
step-IsKeyed m (beats id now) v = record {
  unique = adjust-Unique id _ m.sessions v.unique;
  own = adjust-AllOwn id _ m.sessions (λ j e h. h) v.own;
}
step-IsKeyed m (reports id state) v = record {
  unique = adjust-Unique id _ m.sessions v.unique;
  own = adjust-AllOwn id _ m.sessions (λ j e h. h) v.own;
}
step-IsKeyed m (reaps ids) v =
    let (u, all) = remove_ids-IsKeyed ids m.sessions v.unique v.own in
    record { unique = u; own = all }

-- Registering a handle that has a device gives that device a fresh entry, in an unknown state,
-- whatever was known of it; no other entry changes, and a handle with no device changes nothing.
pub entry_at-register :
    (m : SessionManager) (handle : SessionHandle) (now : ℕ) (id : String)
    → entry_at id (register m handle now) ≡ (
        if is_empty handle.device_id || not (string_key.beq handle.device_id id)
        then entry_at id m
        else some (fresh handle now))
unfolding register new_info
entry_at-register m handle now id =
    ground (arith, get-insert handle.device_id id (fresh handle now) m.sessions)

-- When a drone has connected anew, the end of its old connection takes the new session away: the
-- device is no longer known.
pub unregister_takes_new :
    (m : SessionManager) (old new : SessionHandle) (now : ℕ)
    → old.device_id ≡ new.device_id
    → entry_at new.device_id (unregister (register m new now) old.device_id) ≡ none
unfolding unregister
unregister_takes_new m old new now same = ground (
  arith,
  get-remove old.device_id new.device_id (register m new now).sessions,
  string_key.beq_iff old.device_id new.device_id,
)
