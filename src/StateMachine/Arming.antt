-- ===== src/StateMachine/Arming.antt =====
-- No way around the arming sequence: what a drone has gone through before it takes off.
use mathlib.Core.List.{Sublistᴰ, append_assoc}
use res_qterra_engine.Common.{◌≡◌, subst, ◌⊎◌, inl, inr, List, [], ◌∷◌, ◌++◌, arith}
use res_qterra_engine.Common.Sublists.{
  Sublistᴰ-nil, Sublistᴰ-same, Sublistᴰ-left, Sublistᴰ-append, Sublistᴰ-trans,
}
use res_qterra_engine.Proto.{
  DroneState, drone_preflight, drone_armed, drone_taking_off, drone_in_mission,
}
use res_qterra_engine.StateMachine.{
  SafetyStateMachine, SafetyEvent, new, process_event, process_events, preflight_complete, armed,
  takeoff_started, mission_started,
}

-- The events that a drone in a state has gone through, in this order, since it was last idle.
abbrev pub gone_through : DroneState → List SafetyEvent
gone_through drone_preflight = preflight_complete ∷ []
gone_through drone_armed = preflight_complete ∷ armed ∷ []
gone_through drone_taking_off = preflight_complete ∷ armed ∷ takeoff_started ∷ []
gone_through drone_in_mission = preflight_complete ∷ armed ∷ takeoff_started ∷ mission_started ∷ []
gone_through _ = []

step-gone_through_cases :
    (m : SafetyStateMachine) (e : SafetyEvent)
    → (gone_through (process_event m e).0.current_state ≡ [])
      ⊎ ((gone_through (process_event m e).0.current_state ≡ gone_through m.current_state)
          ⊎ (gone_through (process_event m e).0.current_state
              ≡ gone_through m.current_state ++ e ∷ []))
unfolding process_event
step-gone_through_cases m e = ground arith

step-gone_through :
    (m : SafetyStateMachine) (e : SafetyEvent)
    → Sublistᴰ
        (gone_through (process_event m e).0.current_state)
        (gone_through m.current_state ++ e ∷ [])
step-gone_through m e = elim (step-gone_through_cases m e) [
  | inl none_left ↦ rw none_left (Sublistᴰ-nil _)
  | inr (inl kept) ↦ rw kept (Sublistᴰ-left _ _)
  | inr (inr grown) ↦ rw grown (Sublistᴰ-same _)
]

run-gone_through :
    (m : SafetyStateMachine) (es : List SafetyEvent)
    → Sublistᴰ
        (gone_through (process_events m es).current_state)
        (gone_through m.current_state ++ es)
unfolding process_events
run-gone_through m [] = Sublistᴰ-left _ _
run-gone_through m (e ∷ es) = Sublistᴰ-trans (run-gone_through (process_event m e).0 es) (
    subst (Sublistᴰ (gone_through (process_event m e).0.current_state ++ es))
      (append_assoc (gone_through m.current_state) (e ∷ []) es)
      (Sublistᴰ-append es (step-gone_through m e)))

-- However the events come, a drone is armed, taking off or in a mission only after all the events
-- of the arming sequence up to there, in their order.
pub process_events-gone_through :
    (es : List SafetyEvent) → Sublistᴰ (gone_through (process_events new es).current_state) es
unfolding new
process_events-gone_through es = run-gone_through new es
