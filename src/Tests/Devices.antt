-- ===== src/Tests/Devices.antt =====
-- Tests of the devices and of the thermostat.
use mathlib.Core.Option.{some}
use chik.Heating
use chik.Io.Handler.{handle_message}
use chik.Prelude.{
  String, [], arith, false, if◌then◌else◌, nat_eq, refl, string_eq, true, ℕ, ◌^◌, ◌∷◌, ◌≡◌,
}
use chik.Controller.{done}
use chik.Heating.{Heating, Room, RoomStatus, room_statuses, valve_command}
use chik.Heating.Regulating.{AllReasoned, handle_message-reasons}
use chik.Io.Bus.{
  Bus, BusLaws-KeepsDevices, DeviceDescription, KeepsDevices, digital, digital_output_device,
}
use chik.Io.Devices.{Io, get_device}
use chik.Io.Equality.{IoStatus, status_eq}
use chik.Io.Handler.{execute_digital}
use chik.Io.Remembering.{IsSound}
use chik.Io.Soft.{SoftBus, SoftDevice, soft_bus}
use chik.Io.Softly.{soft_bus-BusLaws}
use chik.Io.Status.{status_value}
use chik.Io.Switching.{handle_message-switches}
use chik.Json.{Value, bool, end, field, null, num, obj, of_map, str, to_map, unmarshal_map}
use chik.Messaging.{Message, new_message}
use chik.Prelude.Dict.{Dict, insert, lookup}
use chik.Prelude.Int.{pos}
use chik.StatusHolder.{emit_status_changed, is_status}
use chik.Tests.Samples.{nat_numbers}
use chik.Types.Command.{
  DigitalCommand, digital_command_type, new_command, set, status_notification_command_type,
}
use chik.Types.Command.Decoding.{decode_digital, decode_digital-digital_value, digital_value}
use chik.Types.Time.{TimeIndication}

-- A lamp that is off, on a soft bus.
abbrev lamp : SoftDevice ℕ
lamp = record { id = "lamp"; kind = digital_output_device; value = null }

abbrev lamps : SoftBus ℕ
lamps = ("lamp", lamp) ∷ []

abbrev soft : Bus ℕ (SoftBus ℕ)
soft = soft_bus (λ config. [])

soft-KeepsDevices : KeepsDevices soft
soft-KeepsDevices = BusLaws-KeepsDevices soft (soft_bus-BusLaws (λ config. []))

lamp_there : lookup "lamp" lamps ≡ some lamp
unfolding lookup
lamp_there = refl

abbrev house : Io ℕ (SoftBus ℕ)
house = record {
  actuators = ("soft", lamps) ∷ [];
  bus_by_device = [];
  status = record { status = some []; module_name = "io" };
}

house-IsSound : IsSound soft house
unfolding lookup
house-IsSound = record { distinct = (refl, tt); remembered = λ id name kept. cc }

abbrev switch_on : DigitalCommand
switch_on = record { action = set; appliance_id = "lamp" }

abbrev message_on : Message ℕ
message_on = new_message 0 (new_command digital_command_type (digital_value switch_on))

abbrev plain_time : TimeIndication → String
plain_time t = "2020-01-01 00:00:00"

abbrev lit_lamps : SoftBus ℕ
lit_lamps = ("lamp", record lamp { value = bool true }) ∷ []

abbrev lit_description : DeviceDescription ℕ
lit_description = record { id = "lamp"; kind = digital_output_device; state = digital true }

abbrev lit_status : IoStatus ℕ
lit_status = ("lamp", record { description = lit_description; last_state_change = pos 9 }) ∷ []

read_back : decode_digital (some (digital_value {N = ℕ} switch_on)) ≡ some switch_on
read_back = decode_digital-digital_value ℕ switch_on (omega arith)

handle_message-switches_example :
    ((handle_message plain_time soft (pos 9) house message_on).exit ≡ done)
    × (lookup "soft" (handle_message plain_time soft (pos 9) house message_on).state.actuators
        ≡ some lit_lamps)
    × ((handle_message plain_time soft (pos 9) house message_on).state.status.status
        ≡ some lit_status)
    × ((handle_message plain_time soft (pos 9) house message_on).sent ≡ (
        if is_status ⦃keys = status_eq⦄ lit_status house.status
        then []
        else emit_status_changed (status_value plain_time) "io" lit_status ∷ []))
unfolding new_message insert lookup get_device execute_digital soft_bus
handle_message-switches_example =
    handle_message-switches plain_time soft soft-KeepsDevices (pos 9) house message_on switch_on
      "soft" lamps lit_lamps house-IsSound refl refl read_back refl refl refl refl refl

abbrev hall : Room
hall = record {
  id = "hall";
  current_temperature_id = "now";
  target_temperature_id = "goal";
  thermal_valve_id = "valve";
}

abbrev thermostat : Heating ℕ
thermostat = record { rooms = hall ∷ []; threshold = 1 }

-- Devices with 17 and 21 degrees and a closed valve.
abbrev cold : Dict String (Value ℕ)
cold =
    (
      "io",
      obj (
          field "now" (obj (field "state" (num 17) end)) (
            field "goal" (obj (field "state" (num 21) end)) (
              field "valve"
                (obj (field "state" (bool false) (field "last_state_change" (str "") end))) end))),
    )
    ∷ []

abbrev told_cold : Message ℕ
told_cold = new_message 0 (new_command status_notification_command_type (obj (of_map cold)))

abbrev hall_status : RoomStatus ℕ
hall_status = record {
  room = hall;
  current_temperature = 17;
  target_temperature = 21;
  is_heating = false;
  last_heating_status_change = 0;
}

decoded_cold : unmarshal_map (some (obj (of_map cold))) ≡ some cold
unfolding unmarshal_map to_map insert
decoded_cold = refl

known_cold : room_statuses (λ v. 0) cold (hall ∷ []) ≡ some (hall_status ∷ [])
unfolding room_statuses lookup to_map insert
known_cold = refl

heats :
    (chik.Heating.handle_message (λ v. 0) (10 ^ 9) thermostat told_cold).sent
    ≡ valve_command set hall ∷ []
unfolding chik.Heating.handle_message new_message unmarshal_map room_statuses lookup to_map insert
heats = refl

handle_message-reasons_example :
    AllReasoned 1
      (10 ^ 9)
      (hall_status ∷ [])
      (chik.Heating.handle_message (λ v. 0) (10 ^ 9) thermostat told_cold).sent
unfolding new_message
handle_message-reasons_example =
    handle_message-reasons (λ v. 0) (10 ^ 9) thermostat told_cold refl decoded_cold known_cold
