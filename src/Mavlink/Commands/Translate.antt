-- ===== src/Mavlink/Commands/Translate.antt =====
-- src/mavlink/commands.rs: which messages `send_command` sends, whether the link takes them all or
-- closes in the middle.
use res_qterra_engine.Common.{
  ℕ, zero, suc, ◌-◌, ◌≡◌, refl, ◌∙◌, Option, none, some, List, [], ◌∷◌, ◌++◌, ok, err, Option-cases,
  inl, inr, leb, if◌then◌else◌, length, take, append_assoc, append-nil, arith,
}
use res_qterra_engine.Proto.{
  Command, CommandType, cmd_unknown, cmd_mission_start, cmd_mission_abort, cmd_rth,
  cmd_status_request, cmd_config_update, cmd_emergency_stop, command_type_try_from, Params,
  mission_start, mission_abort, rth, status_request, config_update, emergency_stop, MissionStart,
  SurveyArea, GpsCoordinate,
}
use res_qterra_engine.Mavlink.Floats.{
  Floats, f32_zero, f32_one, f32_five, f32_six, f32_33, f32_21196, f32_100000,
}
use res_qterra_engine.Mavlink.Messages.{
  MavMessage, mav_cmd_component_arm_disarm, mav_cmd_do_set_mode, mav_cmd_mission_start,
  mav_cmd_set_message_interval,
}
use res_qterra_engine.Mavlink.Outbox.{Outbox, Sent, send, and_then, send_each}
use res_qterra_engine.Mavlink.Commands.{
  MavCommandSender, long2, waypoint, upload_from, upload_mission_waypoints, start_mission,
  send_typed, send_command,
}

-- What becomes of messages sent in a row: all go out while the receiver lives, and otherwise as
-- many as it lives to take, with an error.
abbrev pub delivered : Outbox → List MavMessage → Sent
delivered fc msgs = elim fc.lives_for [
  | none ↦ (record { sent = fc.sent ++ msgs; lives_for = none }, ok tt)
  | some n ↦ (
    record { sent = fc.sent ++ take n msgs; lives_for = some (n - length msgs) },
    if leb (length msgs) n then ok tt else err "FC connection closed",
  )
]

abbrev at_limit : List MavMessage → Option ℕ → Outbox
at_limit sent limit = record { sent = sent; lives_for = limit }

send_each-at_limit :
    (sent : List MavMessage) (limit : Option ℕ) (msgs : List MavMessage)
    → send_each (at_limit sent limit) msgs ≡ delivered (at_limit sent limit) msgs
unfolding send
send_each-at_limit sent none [] = ground (arith, append-nil sent)
send_each-at_limit sent (some zero) [] = ground (arith, append-nil sent)
send_each-at_limit sent (some (suc n)) [] = ground (arith, append-nil sent)
send_each-at_limit sent none (m ∷ ms) =
    send_each-at_limit (sent ++ m ∷ []) none ms ∙ ground (arith, append_assoc sent (m ∷ []) ms)
send_each-at_limit sent (some zero) (m ∷ ms) = ground (arith, append-nil sent)
send_each-at_limit sent (some (suc n)) (m ∷ ms) =
    send_each-at_limit (sent ++ m ∷ []) (some n) ms
    ∙ ground (arith, append_assoc sent (m ∷ []) (take n ms))

pub send_each-delivered :
    (fc : Outbox) (msgs : List MavMessage) → send_each fc msgs ≡ delivered fc msgs
send_each-delivered fc msgs = send_each-at_limit fc.sent fc.lives_for msgs

and_then_cong :
    (r : Sent) {f g : Outbox → Sent} → ((fc : Outbox) → f fc ≡ g fc) → and_then r f ≡ and_then r g
and_then_cong (fc, ok done) h = h fc
and_then_cong (fc, err e) h = refl

and_then_assoc :
    (r : Sent) (f g : Outbox → Sent)
    → and_then (and_then r f) g ≡ and_then r (λ fc. and_then (f fc) g)
and_then_assoc (fc, ok done) f g = refl
and_then_assoc (fc, err e) f g = refl

and_then_ok : (r : Sent) → r ≡ and_then r (λ fc. (fc, ok tt))
and_then_ok (fc, ok done) = refl
and_then_ok (fc, err e) = refl

send_each-append :
    (fc : Outbox) (xs ys : List MavMessage)
    → and_then (send_each fc xs) (λ fc'. send_each fc' ys) ≡ send_each fc (xs ++ ys)
send_each-append fc [] ys = refl
send_each-append fc (x ∷ xs) ys =
    and_then_assoc (send fc x) (λ fc'. send_each fc' xs) (λ fc'. send_each fc' ys)
    ∙ and_then_cong (send fc x) (λ fc'. send_each-append fc' xs ys)

-- The type of a command, unknown where its number is no type.
abbrev pub type_of : Command → CommandType
type_of command = elim (command_type_try_from command.cmd_type) [ some t ↦ t | none ↦ cmd_unknown ]

module _ (float : Floats) where
  -- The waypoints of a mission: its boundary points, from number `i` on.
  abbrev pub waypoints_from :
      MavCommandSender → MissionStart → ℕ → List GpsCoordinate → List MavMessage
  waypoints_from s mission i [] = []
  waypoints_from s mission i (point ∷ rest) =
      waypoint float s mission i point ∷ waypoints_from s mission (suc i) rest

  abbrev pub mission_waypoints :
      MavCommandSender → MissionStart → Option SurveyArea → List MavMessage
  mission_waypoints s mission (some area) = waypoints_from s mission 0 area.boundary
  mission_waypoints s mission none = []

  abbrev pub mission_messages : MavCommandSender → MissionStart → List MavMessage
  mission_messages s mission =
      mission_waypoints s mission mission.survey_area
      ++ long2 s mav_cmd_mission_start f32_zero f32_zero ∷ []

  -- The messages that stand for a command: none where it is of no use to the flight controller, or
  -- is a mission without its parameters.
  abbrev pub messages_of : MavCommandSender → CommandType → Option Params → List MavMessage
  messages_of s cmd_mission_start (some (mission_start mission)) = mission_messages s mission
  messages_of s cmd_mission_abort params = long2 s mav_cmd_do_set_mode f32_one f32_five ∷ []
  messages_of s cmd_rth params = long2 s mav_cmd_do_set_mode f32_one f32_six ∷ []
  messages_of s cmd_emergency_stop params =
      long2 s mav_cmd_component_arm_disarm f32_zero f32_21196 ∷ []
  messages_of s cmd_status_request params =
      long2 s mav_cmd_set_message_interval f32_33 f32_100000 ∷ []
  messages_of s _ params = []

  upload_from-send_each :
      (s : MavCommandSender) (fc : Outbox) (mission : MissionStart) (i : ℕ)
      (points : List GpsCoordinate)
      → upload_from float s fc mission i points ≡ send_each fc (waypoints_from s mission i points)
  unfolding upload_from
  upload_from-send_each s fc mission i [] = refl
  upload_from-send_each s fc mission i (point ∷ rest) =
      and_then_cong (send fc (waypoint float s mission i point))
        (λ fc'. upload_from-send_each s fc' mission (suc i) rest)

  pub start_mission-send_each :
      (s : MavCommandSender) (fc : Outbox) (mission : MissionStart)
      → start_mission float s fc mission ≡ send_each fc (mission_messages s mission)
  unfolding start_mission upload_mission_waypoints
  start_mission-send_each s fc mission =
      let start = long2 s mav_cmd_mission_start f32_zero f32_zero in
      elim (Option-cases mission.survey_area) [
        | inl e ↦ rw (e, start_mission) (and_then_ok (send fc start))
        | inr (area, e) ↦
            let points = waypoints_from s mission 0 area.boundary in
            rw (e, start_mission, upload_from-send_each s fc mission 0 area.boundary)
              (and_then_cong (send_each fc points) (λ fc'. and_then_ok (send fc' start))
                ∙ send_each-append fc points (start ∷ []))
      ]

  send_typed-send_each :
      (s : MavCommandSender) (fc : Outbox) (t : CommandType) (params : Option Params)
      → send_typed float s fc t params ≡ send_each fc (messages_of s t params)
  unfolding send_typed
  send_typed-send_each s fc cmd_mission_start (some (mission_start mission)) =
      start_mission-send_each s fc mission
  send_typed-send_each s fc cmd_mission_start (some (mission_abort a)) = refl
  send_typed-send_each s fc cmd_mission_start (some (rth r)) = refl
  send_typed-send_each s fc cmd_mission_start (some (status_request r)) = refl
  send_typed-send_each s fc cmd_mission_start (some (config_update c)) = refl
  send_typed-send_each s fc cmd_mission_start (some emergency_stop) = refl
  send_typed-send_each s fc cmd_mission_start none = refl
  send_typed-send_each s fc cmd_mission_abort params = and_then_ok (send fc _)
  send_typed-send_each s fc cmd_rth (some (rth r)) = refl
  send_typed-send_each s fc cmd_rth (some (mission_start m)) = refl
  send_typed-send_each s fc cmd_rth (some (mission_abort a)) = refl
  send_typed-send_each s fc cmd_rth (some (status_request r)) = refl
  send_typed-send_each s fc cmd_rth (some (config_update c)) = refl
  send_typed-send_each s fc cmd_rth (some emergency_stop) = refl
  send_typed-send_each s fc cmd_rth none = refl
  send_typed-send_each s fc cmd_emergency_stop params = and_then_ok (send fc _)
  send_typed-send_each s fc cmd_status_request params = and_then_ok (send fc _)
  send_typed-send_each s fc cmd_config_update params = refl
  send_typed-send_each s fc cmd_unknown params = refl

  -- A command is sent as the messages it stands for, in order. They all go out while the receiver of
  -- the channel lives; if it goes away after n of them, the first n go out and the caller gets the
  -- error that the connection is closed.
  pub send_command-delivered :
      (s : MavCommandSender) (fc : Outbox) (command : Command)
      → send_command float s fc command
        ≡ delivered fc (messages_of s (type_of command) command.params)
  unfolding send_command
  send_command-delivered s fc command =
      send_typed-send_each s fc (type_of command) command.params
      ∙ send_each-delivered fc (messages_of s (type_of command) command.params)
