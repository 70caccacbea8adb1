-- ===== src/Heating/Regulating.antt =====
-- When a valve is opened or closed.
use mathlib.Core.List.{Memᴰ}
use chik.Types.Command.{Action}
use chik.Heating.{handle_message}
use chik.Prelude.{
  All, List, Option-cases, String, [], ap, arith, false, inl, inr, nat_eq, none, refl, some,
  string_eq, true, ℕ, ◌*◌, ◌-◌, ◌<◌, ◌∷◌, ◌≡◌, ◌⊎◌,
}
use chik.Controller.{Publication, done}
use chik.Heating.{
  Heating, Room, RoomStatus, commands, decide, get_value, minute, room_status, room_statuses,
  valve_command,
}
use chik.Json.{Numbers, Value, unmarshal_map}
use chik.Messaging.{Message}
use chik.Prelude.Dict.{Dict, lookup}
use chik.Prelude.Outcome.{err}
use chik.Types.Command.{Command, reset, set}

module _ {N : Type 0} ⦃ops : Numbers N⦄ (threshold : N) (now : ℕ) where
  -- A reason for a command: a room that is too cold and not heated, or one that is too warm and heated,
  -- for less than a quarter of an hour or for more than two hours.
  abbrev pub IsReason : RoomStatus N → Publication N → Type 0
  IsReason s p =
      ((p ≡ valve_command set s.room)
        × (s.is_heating ≡ false)
        × (ops.lt s.current_temperature (ops.sub s.target_temperature threshold) ≡ true))
      ⊎ ((p ≡ valve_command reset s.room)
          × (s.is_heating ≡ true)
          × (ops.lt (ops.add s.target_temperature threshold) s.current_temperature ≡ true)
          × ((now - s.last_heating_status_change < 15 * minute)
              ⊎ (120 * minute < now - s.last_heating_status_change)))

  decide_cases :
      (s : RoomStatus N) {action : Action}
      → decide threshold now s ≡ some action
      → ((action ≡ set)
          × (s.is_heating ≡ false)
          × (ops.lt s.current_temperature (ops.sub s.target_temperature threshold) ≡ true))
        ⊎ ((action ≡ reset)
            × (s.is_heating ≡ true)
            × (ops.lt (ops.add s.target_temperature threshold) s.current_temperature ≡ true)
            × ((now - s.last_heating_status_change < 15 * minute)
                ⊎ (120 * minute < now - s.last_heating_status_change)))
  unfolding decide
  decide_cases s made = ground arith

  decide-IsReason :
      (s : RoomStatus N) {action : Action}
      → decide threshold now s ≡ some action
      → IsReason s (valve_command action s.room)
  decide-IsReason s made = elim (decide_cases s made) [
    | inl (opens, heats, cold) ↦ inl (ap (λ a. valve_command a s.room) opens, heats, cold)
    | inr (closes, heats, warm, while) ↦
        inr (ap (λ a. valve_command a s.room) closes, heats, warm, while)
  ]

  commands_idle :
      (s : RoomStatus N) (statuses : List (RoomStatus N))
      → decide threshold now s ≡ none
      → commands threshold now (s ∷ statuses) ≡ commands threshold now statuses
  unfolding commands
  commands_idle s statuses idle = rw (commands, idle)

  commands_made :
      (s : RoomStatus N) (statuses : List (RoomStatus N)) {action : Action}
      → decide threshold now s ≡ some action
      → commands threshold now (s ∷ statuses)
        ≡ valve_command action s.room ∷ commands threshold now statuses
  unfolding commands
  commands_made s statuses made = rw (commands, made)

  -- Every publication has a reason in one of the statuses.
  abbrev pub AllReasoned : List (RoomStatus N) → List (Publication N) → Type 0
  AllReasoned statuses sent = All (λ p. (s : RoomStatus N) × Memᴰ s statuses × IsReason s p) sent

  commands_lem :
      (all statuses : List (RoomStatus N))
      → ((s : RoomStatus N) → Memᴰ s statuses → Memᴰ s all)
      → AllReasoned all (commands threshold now statuses)
  commands_lem all [] inside = unfold commands in tt
  commands_lem all (s ∷ statuses) inside = elim (Option-cases (decide threshold now s)) [
    | inl idle ↦
        rw (commands_idle s statuses idle)
          (commands_lem all statuses (λ t m. inside t (Memᴰ.tail m)))
    | inr (action, made) ↦ rw (commands_made s statuses made) (
      (s, inside s (Memᴰ.head refl), decide-IsReason s made),
      commands_lem all statuses (λ t m. inside t (Memᴰ.tail m)),
    )
  ]

module _ {N : Type 0} ⦃ops : Numbers N⦄ (decode_time : Value N → ℕ) (now : ℕ) where
  -- Every command that a status notification makes the thermostat send is for a room whose readings are
  -- there, and for a reason: the valve is opened only if it is closed and the room is colder than the
  -- target by more than the threshold, and closed only if it is open, the room is warmer than the target
  -- by more than the threshold, and it has been open for less than 15 minutes or more than two hours.
  pub handle_message-reasons :
      (h : Heating N) (m : Message N) {c : Command N} {status : Dict String (Value N)}
      {statuses : List (RoomStatus N)}
      → m.command ≡ some c
      → unmarshal_map c.content ≡ some status
      → room_statuses decode_time status h.rooms ≡ some statuses
      → AllReasoned h.threshold now statuses (handle_message decode_time now h m).sent
  handle_message-reasons h m {c} {status} {statuses} carried decoded known =
      rw sent (commands_lem h.threshold now statuses statuses (λ s m. m))
    where
      sent : (handle_message decode_time now h m).sent ≡ commands h.threshold now statuses
      sent = unfold handle_message in ground arith

  no_value :
      (status : Dict String (Value N)) (id key : String)
      → lookup "io" status ≡ none
      → get_value status id key ≡ none
  unfolding get_value
  no_value status id key missing = rw (get_value, missing)

  skipped :
      (status : Dict String (Value N)) (r : Room)
      → lookup "io" status ≡ none
      → room_status decode_time status r ≡ err tt
  skipped status r missing =
      let first = no_value status r.current_temperature_id "state" missing in
      unfold room_status in rw first

  without_io :
      (status : Dict String (Value N)) (rooms : List Room)
      → lookup "io" status ≡ none
      → room_statuses decode_time status rooms ≡ some []
  unfolding room_statuses
  without_io status [] missing = refl
  without_io status (r ∷ rooms) missing =
      rw (room_statuses, skipped status r missing) (without_io status rooms missing)

  -- Without a status of the devices no command is sent and nothing goes wrong, whatever rooms there are.
  pub handle_message_without_io :
      (h : Heating N) (m : Message N) {c : Command N} {status : Dict String (Value N)}
      → m.command ≡ some c
      → unmarshal_map c.content ≡ some status
      → lookup "io" status ≡ none
      → handle_message decode_time now h m ≡ record { state = h; sent = []; exit = done }
  unfolding handle_message
  handle_message_without_io h m {c} {status} carried decoded missing =
      let rooms = without_io status h.rooms missing in ground (arith, rooms)
