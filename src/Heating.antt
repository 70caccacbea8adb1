-- ===== src/Heating.antt =====
-- handlers/heating/heating.go: a thermostat over the status of the devices. Times are in nanoseconds;
-- `decode_time` is `types.Decode` into a time of a value of the status, in nanoseconds, 0 for what it does
-- not take. Numbers are the float64 of the source.
pub mod Regulating
use chik.Prelude.Outcome.{◌>>=◌}
use chik.Types.Command.{set, reset, Action, new_command, digital_command_type}
use chik.Prelude.{
  Bool, List, Option, String, [], if◌then◌else◌, ltb, map, nat_eq, none, not, some, string_eq, ℕ,
  ◌&&◌, ◌*◌, ◌-◌, ◌^◌, ◌||◌, ◌∷◌,
}
use chik.Controller.{Publication, Step, crashed, done, loopback_id, publish}
use chik.Json.{Numbers, Value, bool, null, num, obj, to_map, unmarshal_map}
use chik.Messaging.{Message}
use chik.Prelude.Dict.{Dict, lookup}
use chik.Prelude.Outcome.{Outcome, err, ok, or_error, panic}
use chik.Types.Command.Decoding.{digital_value}

pub record Room : Type 0 where
  pub id : String
  pub current_temperature_id : String
  pub target_temperature_id : String
  pub thermal_valve_id : String

pub record RoomStatus (N : Type 0) : Type 0 where
  pub room : Room
  pub current_temperature : N
  pub target_temperature : N
  pub is_heating : Bool
  pub last_heating_status_change : ℕ

pub record Heating (N : Type 0) : Type 0 where
  pub rooms : List Room
  pub threshold : N

abbrev pub minute : ℕ
minute = 60 * 10 ^ 9

abbrev pub minimum_running_time : ℕ
minimum_running_time = 120 * minute

module _ {N : Type 0} where
  unfoldable pub valve_command : ⦃ops : Numbers N⦄ → Action → Room → Publication N
  valve_command action r =
      publish
        (new_command digital_command_type
          (digital_value (record { action = action; appliance_id = r.thermal_valve_id })))
        loopback_id

  -- `Setup`: all valves are closed.
  abbrev pub setup : ⦃ops : Numbers N⦄ → Heating N → Step N (Heating N)
  setup h = record { state = h; sent = map (valve_command reset) h.rooms; exit = done }

  abbrev object_at : Dict String (Value N) → String → Option (Dict String (Value N))
  object_at status key = elim (lookup key status) [
    | none ↦ none
    | some v ↦ elim v [ obj fs ↦ some (to_map fs) | _ ↦ none ]
  ]

  -- `getValue`: a missing key of a device is nil.
  unfoldable pub get_value : Dict String (Value N) → String → String → Option (Value N)
  get_value status id key = elim (object_at status "io") [
    | none ↦ none
    | some devices ↦ elim (object_at devices id) [
      | none ↦ none
      | some device ↦ some (elim (lookup key device) [ none ↦ null | some v ↦ v ])
    ]
  ]

  -- The type assertions.
  abbrev pub as_number : Value N → Outcome (Unit {0}) N
  as_number (num x) = ok x
  as_number _ = panic

  abbrev pub as_flag : Value N → Outcome (Unit {0}) Bool
  as_flag (bool b) = ok b
  as_flag _ = panic

  -- The status of a room; an error skips the room, a panic ends the process.
  unfoldable pub room_status :
      (Value N → ℕ) → Dict String (Value N) → Room → Outcome (Unit {0}) (RoomStatus N)
  unfolding get_value
  room_status decode_time status r = do
    c ← or_error tt (get_value status r.current_temperature_id "state")
    current ← as_number c
    t ← or_error tt (get_value status r.target_temperature_id "state")
    target ← as_number t
    v ← or_error tt (get_value status r.thermal_valve_id "state")
    heats ← as_flag v
    changed ← or_error tt (get_value status r.thermal_valve_id "last_state_change")
    ok (record {
      room = r;
      current_temperature = current;
      target_temperature = target;
      is_heating = heats;
      last_heating_status_change = decode_time changed;
    })

  -- The first loop: `none` is a panic.
  unfoldable pub room_statuses :
      (Value N → ℕ) → Dict String (Value N) → List Room → Option (List (RoomStatus N))
  unfolding room_status
  room_statuses decode_time status [] = some []
  room_statuses decode_time status (r ∷ rooms) =
      let rest = room_statuses decode_time status rooms in
      elim (room_status decode_time status r) [
        | panic ↦ none
        | err e ↦ rest
        | ok s ↦ elim rest [ none ↦ none | some statuses ↦ some (s ∷ statuses) ]
      ]

  -- The decision of the second loop for one room. An elapsed time below zero is zero here, and both are
  -- less than 15 minutes.
  unfoldable pub decide : ⦃ops : Numbers N⦄ → N → ℕ → RoomStatus N → Option Action
  decide ⦃ops⦄ threshold now r =
      let elapsed = now - r.last_heating_status_change in
      if ops.lt r.current_temperature (ops.sub r.target_temperature threshold) && not r.is_heating
      then some set
      else if ops.lt (ops.add r.target_temperature threshold) r.current_temperature
          && (r.is_heating && (ltb elapsed (15 * minute) || ltb minimum_running_time elapsed))
      then some reset
      else none

  unfoldable pub commands : ⦃ops : Numbers N⦄ → N → ℕ → List (RoomStatus N) → List (Publication N)
  unfolding decide valve_command
  commands threshold now [] = []
  commands threshold now (r ∷ rooms) =
      let rest = commands threshold now rooms in
      elim (decide threshold now r) [
        | none ↦ rest
        | some action ↦ valve_command action r.room ∷ rest
      ]

  -- `heating.HandleMessage`.
  unfoldable pub handle_message :
      ⦃ops : Numbers N⦄ → (Value N → ℕ) → ℕ → Heating N → Message N → Step N (Heating N)
  unfolding room_statuses commands
  handle_message decode_time now h m = elim m.command [
    | none ↦ record { state = h; sent = []; exit = crashed }
    | some c ↦ elim (unmarshal_map c.content) [
      | none ↦ record { state = h; sent = []; exit = done }
      | some status ↦ elim (room_statuses decode_time status h.rooms) [
        | none ↦ record { state = h; sent = []; exit = crashed }
        | some statuses ↦ record {
          state = h;
          sent = commands h.threshold now statuses;
          exit = done;
        }
      ]
    ]
  ]
