-- ===== src/Tests/Platforms.antt =====
-- Tests of the handler of devices on a platform.
use chik.Io.Handler.{handle_message}
use chik.Prelude.{List, Option, String, [], inl, inr, nat_eq, none, some, string_eq, ℕ, ◌∷◌}
use chik.Io.Bus.{digital_output_device}
use chik.Io.Devices.{Io}
use chik.Io.Platform.{AnyBus, Hardware, any_bus, platform_unipi_neuron}
use chik.Io.Platform.Running.{started}
use chik.Io.Unipi.{UnipiDevice, poll_devices}
use chik.Json.{null}
use chik.Messaging.{Message, new_message}
use chik.Prelude.Dict.{insert}
use chik.Prelude.Int.{int_eq, pos}
use chik.Tests.Samples.{nat_numbers}
use chik.Types.Command.{DigitalCommand, digital_command_type, new_command, set}
use chik.Types.Command.Decoding.{digital_value}
use chik.Types.Time.{TimeIndication}

abbrev door : UnipiDevice
door = record { id = "door"; group = 1; pin = 3; pin_type = 0; status = pos 0 }

-- Pins that are not connected, one lamp and one door, and files that cannot be read.
abbrev bench : Hardware ℕ ℕ
bench = record {
  decode_soft = λ config. record { id = "lamp"; kind = digital_output_device; value = null } ∷ [];
  decode_gpio = λ config. none;
  decode_unipi = λ config. door ∷ [];
  decode_w1 = λ config. [];
  decode_modbus = λ config. [];
  of_int = λ n. 0;
  round = λ n. pos n;
  pins = record { open_pin = λ n. n; high = λ p. p; low = λ p. p; read_pin = λ p. none };
  reading = λ path. none;
}

abbrev some_time : TimeIndication → String
some_time t = "2020-01-01 00:00:00"

abbrev light_up : DigitalCommand
light_up = record { action = set; appliance_id = "lamp" }

abbrev told_lamp : Message ℕ
told_lamp = new_message 0 (new_command digital_command_type (digital_value light_up))

abbrev at_start : Io ℕ (AnyBus ℕ ℕ)
at_start = started some_time bench platform_unipi_neuron (pos 1) (λ name. none)

abbrev with_light : Io ℕ (AnyBus ℕ ℕ)
with_light = (handle_message some_time (any_bus bench) (pos 2) at_start told_lamp).state

abbrev with_door : AnyBus ℕ ℕ
with_door = inr (inr (inl (("door", door) ∷ [])))

-- The door opens, which a poll sees.
abbrev opened : String → Option (List ℕ)
opened path = some (b'1' ∷ b'\n' ∷ [])

abbrev polled_bus : AnyBus ℕ ℕ
polled_bus = inr (inr (inl (poll_devices opened ("door" ∷ []) (("door", door) ∷ [])).0))

abbrev after_poll : Io ℕ (AnyBus ℕ ℕ)
after_poll = record with_light { actuators = insert "unipi" polled_bus with_light.actuators }
