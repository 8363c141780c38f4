-- ===== src/Mavlink/Commands/Mission.antt =====
-- src/mavlink/commands.rs: how the waypoints of a mission are numbered, and which command stops the
-- motors.
use res_qterra_engine.Common.{
  ℕ, zero, suc, ◌+◌, ◌%◌, ◌^◌, ◌≤◌, ◌≡◌, refl, ap, ◌∙◌, ◌≢◌, Option, none, some, Bool, false, List,
  [], ◌∷◌, ◌++◌, ◌==◌, if◌then◌else◌, length, take, All, All-append, append-nil, arith,
}
use res_qterra_engine.Proto.{
  Command, CommandType, cmd_unknown, cmd_mission_start, cmd_mission_abort, cmd_rth,
  cmd_status_request, cmd_config_update, cmd_emergency_stop, Params, mission_start, mission_abort,
  rth, status_request, config_update, emergency_stop, MissionStart, SurveyArea, GpsCoordinate,
}
use res_qterra_engine.Mavlink.Floats.{Floats, f32_zero}
use res_qterra_engine.Mavlink.Messages.{
  MavMessage, CommandLong, command_long, mission_item_int, MavCmd, mav_cmd_component_arm_disarm,
}
use res_qterra_engine.Mavlink.Outbox.{Outbox}
use res_qterra_engine.Mavlink.Commands.{MavCommandSender, start_mission, send_command}
use res_qterra_engine.Mavlink.Commands.Translate.{
  delivered, send_each-delivered, mission_waypoints, messages_of, start_mission-send_each,
  mission_messages, waypoints_from, type_of, send_command-delivered,
}

-- The number and the `current` flag of each mission item among some messages.
abbrev pub item_numbers : List MavMessage → List (ℕ × ℕ)
item_numbers [] = []
item_numbers (mission_item_int item ∷ ms) = (item.seq, item.current) ∷ item_numbers ms
item_numbers (_ ∷ ms) = item_numbers ms

-- The numbers from `i` on of `n` items, of which the item 0 is the current one.
abbrev pub numbered : ℕ → ℕ → List (ℕ × ℕ)
numbered i zero = []
numbered i (suc n) = (i, if i == 0 then 1 else 0) ∷ numbered (suc i) n

u16_small : (i n : ℕ) → i + suc n ≤ 65536 → i % 2 ^ 16 ≡ i
u16_small i n h = omega arith

-- Switching the motors off.
abbrev stops_motors : CommandLong → MavCmd → Bool
stops_motors c mav_cmd_component_arm_disarm = c.param1 == f32_zero
stops_motors c _ = false

abbrev pub IsHarmless : MavMessage → Type 0
IsHarmless (command_long c) = stops_motors c c.command ≡ false
IsHarmless _ = Unit

All-take : {A : Type 0} (P : A → Type 0) (n : ℕ) (xs : List A) → All P xs → All P (take n xs)
All-take P zero xs h = tt
All-take P (suc n) [] h = tt
All-take P (suc n) (x ∷ xs) h = (h.0, All-take P n xs h.1)

module _ (float : Floats) where
  item_numbers-waypoints :
      (s : MavCommandSender) (mission : MissionStart) (i : ℕ) (points : List GpsCoordinate)
      (rest : List MavMessage)
      → i + length points ≤ 65536
      → item_numbers (waypoints_from float s mission i points ++ rest)
        ≡ numbered i (length points) ++ item_numbers rest
  item_numbers-waypoints s mission i [] rest h = refl
  item_numbers-waypoints s mission i (p ∷ ps) rest h = rw (u16_small i (length ps) h) (
      ap (◌∷◌ (i, if i == 0 then 1 else 0))
        (item_numbers-waypoints s mission (suc i) ps rest (omega arith)))

  waypoints_from-IsHarmless :
      (s : MavCommandSender) (mission : MissionStart) (i : ℕ) (points : List GpsCoordinate)
      → All IsHarmless (waypoints_from float s mission i points)
  waypoints_from-IsHarmless s mission i [] = tt
  waypoints_from-IsHarmless s mission i (p ∷ ps) =
      (tt, waypoints_from-IsHarmless s mission (suc i) ps)

  mission_waypoints-IsHarmless :
      (s : MavCommandSender) (mission : MissionStart) (area : Option SurveyArea)
      → All IsHarmless (mission_waypoints float s mission area)
  mission_waypoints-IsHarmless s mission none = tt
  mission_waypoints-IsHarmless s mission (some area) =
      waypoints_from-IsHarmless s mission 0 area.boundary

  messages_of-IsHarmless :
      (s : MavCommandSender) (t : CommandType) (params : Option Params)
      → t ≢ cmd_emergency_stop
      → All IsHarmless (messages_of float s t params)
  messages_of-IsHarmless s cmd_mission_start (some (mission_start mission)) h =
      All-append IsHarmless (mission_waypoints float s mission mission.survey_area) _
        (mission_waypoints-IsHarmless s mission mission.survey_area) (refl, tt)
  messages_of-IsHarmless s cmd_mission_start (some (mission_abort a)) h = tt
  messages_of-IsHarmless s cmd_mission_start (some (rth r)) h = tt
  messages_of-IsHarmless s cmd_mission_start (some (status_request r)) h = tt
  messages_of-IsHarmless s cmd_mission_start (some (config_update c)) h = tt
  messages_of-IsHarmless s cmd_mission_start (some emergency_stop) h = tt
  messages_of-IsHarmless s cmd_mission_start none h = tt
  messages_of-IsHarmless s cmd_mission_abort params h = (refl, tt)
  messages_of-IsHarmless s cmd_rth params h = (refl, tt)
  messages_of-IsHarmless s cmd_status_request params h = (refl, tt)
  messages_of-IsHarmless s cmd_config_update params h = tt
  messages_of-IsHarmless s cmd_unknown params h = tt
  messages_of-IsHarmless s cmd_emergency_stop params h = absurd (h refl)

  delivered-IsHarmless :
      (sent : List MavMessage) (limit : Option ℕ) (msgs : List MavMessage)
      → All IsHarmless sent
      → All IsHarmless msgs
      → All IsHarmless (delivered (record { sent = sent; lives_for = limit }) msgs).0.sent
  delivered-IsHarmless sent none msgs hs hm = All-append IsHarmless sent msgs hs hm
  delivered-IsHarmless sent (some n) msgs hs hm =
      All-append IsHarmless sent (take n msgs) hs (All-take IsHarmless n msgs hm)

  -- No command but an emergency stop sends the flight controller a message that switches the motors
  -- off, whether or not the link takes all its messages.
  pub send_command-IsHarmless :
      (s : MavCommandSender) (fc : Outbox) (command : Command)
      → type_of command ≢ cmd_emergency_stop
      → All IsHarmless fc.sent
      → All IsHarmless (send_command float s fc command).0.sent
  send_command-IsHarmless s fc command h clean = rw (send_command-delivered float s fc command) (
      delivered-IsHarmless fc.sent fc.lives_for
        (messages_of float s (type_of command) command.params) clean
        (messages_of-IsHarmless s (type_of command) command.params h))

  -- While the link takes messages, a mission over an area of at most 65536 boundary points sends one
  -- item for each point, numbered in order from 0, of which the first and no other is current.
  pub item_numbers-start_mission :
      (s : MavCommandSender) (fc : Outbox) (mission : MissionStart) (area : SurveyArea)
      → mission.survey_area ≡ some area
      → length area.boundary ≤ 65536
      → fc.sent ≡ []
      → fc.lives_for ≡ none
      → item_numbers (start_mission float s fc mission).0.sent ≡ numbered 0 (length area.boundary)
  item_numbers-start_mission s fc mission area h small fresh up =
      rw
        (
          start_mission-send_each float s fc mission,
          send_each-delivered fc (mission_messages float s mission),
          up,
          fresh,
          h,
        )
        (item_numbers-waypoints s mission 0 area.boundary _ (omega arith) ∙ append-nil _)
