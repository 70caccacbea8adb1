-- ===== src/Io/Handler.antt =====
-- handlers/io/io.go: the commands of the devices, and the set-up of the handler.
use chik.Types.Command.{Action}
use chik.Json.Struct.{◌>>=◌}
use chik.Prelude.{
  Bool, Eq, List, Option, String, [], if◌then◌else◌, nat_eq, none, some, string_eq, ◌==◌, ◌||◌, ◌∷◌,
}
use chik.Controller.{Step, crashed, done}
use chik.Io.Bus.{Bus, DeviceKind, analog_output_device, digital_input_device, digital_output_device}
use chik.Io.Devices.{Io, get_device, no_device, not_found, on_bus}
use chik.Io.Equality.{IoStatus, status_eq}
use chik.Io.Status.{finish, status_value}
use chik.Json.{Numbers, Value}
use chik.Messaging.{Message}
use chik.Prelude.Dict.{Dict, insert, lookup}
use chik.StatusHolder.{set_status}
use chik.Types.Command.{
  AnalogCommand, DigitalCommand, absolute, analog_command_type, digital_command_type, push,
  relative, reset, set, toggle,
}
use chik.Types.Command.Decoding.{decode_analog, decode_digital}
use chik.Types.Time.{TimeIndication}

module _ {N B : Type 0} (bus : Bus N B) where
  -- `executeDigitalCommand`; another action is logged.
  unfoldable pub execute_digital : Action → String → B → Option B
  execute_digital action id b =
      if action == reset
      then bus.turn_off id b
      else if action == set
      then bus.turn_on id b
      else if action == push
      then (do on ← bus.turn_on id b; bus.turn_off id on)
      else if action == toggle
      then bus.toggle id b
      else some b

  -- The calls of an analog command, or no change for another value type (`some none`).
  unfoldable pub execute_analog : AnalogCommand N → B → Option (Option B)
  execute_analog c b =
      if c.value_type == absolute
      then (do b' ← bus.set_value c.value c.appliance_id b; some (some b'))
      else if c.value_type == relative
      then (do b' ← bus.add_value c.value c.appliance_id b; some (some b'))
      else some none

  abbrev pub is_digital : DeviceKind → Bool
  is_digital kind = kind == digital_input_device || kind == digital_output_device

module _ {N B : Type 0} ⦃ops : Numbers N⦄ ⦃keys : Eq N⦄ (format_time : TimeIndication → String)
    (bus : Bus N B) (now : TimeIndication) where
  abbrev pub quiet : Io N B → Step N (Io N B)
  quiet h = record { state = h; sent = []; exit = done }

  abbrev pub crash : Io N B → Step N (Io N B)
  crash h = record { state = h; sent = []; exit = crashed }

  abbrev pub with_bus : String → B → Io N B → Io N B
  with_bus name b h = record h { actuators = insert name b h.actuators }

  -- A digital command for a device of the given bus.
  unfoldable pub digital_on : DigitalCommand → String → B → Io N B → Step N (Io N B)
  unfolding execute_digital finish
  digital_on c name b h =
      if is_digital bus (bus.kind c.appliance_id b)
      then elim (execute_digital bus c.action c.appliance_id b) [
        | none ↦ crash h
        | some b' ↦ finish format_time bus now c.appliance_id (with_bus name b' h)
      ]
      else quiet h

  unfoldable pub analog_on : AnalogCommand N → String → B → Io N B → Step N (Io N B)
  unfolding execute_analog finish
  analog_on c name b h =
      if bus.kind c.appliance_id b == analog_output_device
      then elim (execute_analog bus c b) [
        | none ↦ crash h
        | some none ↦ quiet h
        | some (some b') ↦ finish format_time bus now c.appliance_id (with_bus name b' h)
      ]
      else quiet h

  -- The device of a command: an error is logged, and the method of a missing device panics.
  unfoldable pub on_found :
      String → (String → B → Io N B → Step N (Io N B)) → Io N B → Step N (Io N B)
  unfolding get_device
  on_found id run h =
      let (found, h') = get_device bus id h in
      elim found [
        | not_found ↦ quiet h'
        | no_device ↦ crash h'
        | on_bus name ↦ elim (lookup name h'.actuators) [ none ↦ quiet h' | some b ↦ run name b h' ]
      ]

  -- `parseDigitalCommand`.
  unfoldable pub parse_digital_command : Option (Value N) → Io N B → Step N (Io N B)
  unfolding on_found digital_on
  parse_digital_command content h = elim (decode_digital content) [
    | none ↦ quiet h
    | some c ↦ on_found c.appliance_id (digital_on c) h
  ]

  -- `parseAnalogCommand`.
  unfoldable pub parse_analog_command : Option (Value N) → Io N B → Step N (Io N B)
  unfolding on_found analog_on
  parse_analog_command content h = elim (decode_analog content) [
    | none ↦ quiet h
    | some c ↦ on_found c.appliance_id (analog_on c) h
  ]

  -- `io.HandleMessage`.
  unfoldable pub handle_message : Io N B → Message N → Step N (Io N B)
  unfolding parse_digital_command parse_analog_command
  handle_message h m = elim m.command [
    | none ↦ crash h
    | some c ↦
        if c.kind == digital_command_type
        then parse_digital_command c.content h
        else if c.kind == analog_command_type
        then parse_analog_command c.content h
        else quiet h
  ]

  -- `io.HandleChannelEvent` of the identifier of a device that changed.
  unfoldable pub handle_event : Io N B → String → Step N (Io N B)
  unfolding finish
  handle_event h id = finish format_time bus now id h

  -- The descriptions of the devices of one bus.
  unfoldable pub describe_all : List String → B → IoStatus N → Option (IoStatus N)
  describe_all [] b status = some status
  describe_all (id ∷ ids) b status = do
    d ← bus.description id b
    describe_all ids b (insert id (record { description = d; last_state_change = now }) status)

  -- `Setup` of the buses; `config` is what the configuration has for one.
  unfoldable pub set_up_buses :
      (config : String → Option (Value N))
      → Dict String B
      → IoStatus N
      → Option (Dict String B × IoStatus N)
  unfolding describe_all
  set_up_buses config [] status = some ([], status)
  set_up_buses config ((name, b) ∷ rest) status =
      let b' = bus.initialize (config name) b in
      (do
        status' ← describe_all (bus.device_ids b') b' status
        (rest', all) ← set_up_buses config rest status'
        some ((name, b') ∷ rest', all))

  -- `io.Setup`: the status of all devices is published if it is not the one before.
  unfoldable pub setup : (config : String → Option (Value N)) → Io N B → Step N (Io N B)
  unfolding set_up_buses
  setup config h = elim (set_up_buses config h.actuators []) [
    | none ↦ crash h
    | some (actuators, initial) ↦
        let (status, sent) =
          set_status ⦃keys = status_eq⦄ (status_value format_time) initial h.status in
        record {
          state = record h { actuators = actuators; status = status };
          sent = sent;
          exit = done;
        }
  ]
