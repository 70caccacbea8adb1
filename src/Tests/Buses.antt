-- ===== src/Tests/Buses.antt =====
-- Tests of the buses with hardware behind them.
use chik.Prelude.{
  Bool, List, Option, String, [], arith, false, get_elem?, if◌then◌else◌, length, nat_eq, none,
  refl, some, string_eq, true, ℕ, ◌++◌, ◌+◌, ◌==◌, ◌∷◌, ◌≡◌,
}
use chik.Io.Bus.{digital_input_device}
use chik.Io.Gpio.{GpioDevice, PinLaws, Pins}
use chik.Io.Modbus.{ModbusDevice}
use chik.Io.Modbus.Grouping.{group_of, group_of-polled_registers}
use chik.Io.Modbus.Polling.{polled_registers, query_device_changes}
use chik.Io.Snapcast.{SnapcastBus, SnapcastDevice, device_id, find_device, mute, parse_id}
use chik.Io.Snapcast.Addressing.{find_device-device_id}
use chik.Io.Unipi.{
  UnipiBus, UnipiDevice, fetch_status, kind_of, poll_devices, put_level, pwm_fade, toggle_pin,
  value_path, write_status,
}
use chik.Io.Unipi.Fading.{pwm_fade_bounds}
use chik.Io.Unipi.Files.{ReadsBack, fetch_status-written}
use chik.Io.W1.{W1Device, get_current_value}
use chik.Io.W1.Sensing.{get_current_value_marked, mark}
use chik.Prelude.Dict.{lookup}
use chik.Prelude.Int.{abs, int_eq, negsuc, pos, ℤ, ◌+ℤ◌, ◌-ℤ◌}
use chik.Tests.Samples.{nat_numbers}

abbrev input_pin : UnipiDevice
input_pin = record { id = "door"; group = 1; pin = 3; pin_type = 0; status = pos 0 }

abbrev analog_pin : UnipiDevice
analog_pin = record { id = "valve"; group = 1; pin = 1; pin_type = 3; status = pos 4 }

pwm_fade_tests : (pwm_fade (pos 3) (pos 1) ≡ pos 2 ∷ pos 1 ∷ []) × (pwm_fade (pos 3) (pos 3) ≡ [])
unfolding pwm_fade ◌+ℤ◌ ◌-ℤ◌
pwm_fade_tests = (refl, refl)

fetch_status_tests :
    (fetch_status (some (b'-' ∷ b'1' ∷ b'2' ∷ b'\n' ∷ [])) input_pin
      ≡ some (record input_pin { status = negsuc 11 }))
    × (fetch_status (some []) input_pin ≡ none)
unfolding fetch_status
fetch_status_tests = (refl, refl)

value_path_test :
    value_path input_pin ≡ "/sys/devices/platform/unipi_plc/io_group1/di_1_03/di_value"
unfolding value_path
value_path_test = refl

abbrev stored : ℤ
stored = pos 27

fetch_status-written_example :
    ReadsBack input_pin (put_level true analog_pin)
    × ReadsBack input_pin (toggle_pin analog_pin)
    × ReadsBack input_pin (write_status stored analog_pin)
fetch_status-written_example =
    fetch_status-written true stored analog_pin input_pin
      (λ e. unfold kind_of in absurd (omega arith)) (λ e. absurd (omega arith))
      (omega arith, omega arith)

abbrev doors : UnipiBus
doors = ("door", input_pin) ∷ []

abbrev open_door : String → Option (List ℕ)
open_door path = some (b'1' ∷ b'\n' ∷ [])

poll_devices_test : (poll_devices open_door ("door" ∷ []) doors).1 ≡ "door" ∷ []
unfolding poll_devices lookup
poll_devices_test = refl

-- Pins as numbers, of which pin 9 cannot be read.
abbrev board : Pins (ℕ × ℕ)
board = record {
  open_pin = λ n. (n, 0);
  high = λ p. (p.0, 1);
  low = λ p. (p.0, 0);
  read_pin = λ p. if p.0 == 9 then none else some p.1;
}

abbrev lamp_pin : GpioDevice (ℕ × ℕ)
lamp_pin = record { conf = record { id = "lamp"; number = 4; inverted = true }; pin = (4, 0) }

board-PinLaws : PinLaws board
board-PinLaws = record { read-high = λ p v got. ground arith; read-low = λ p v got. ground arith }

-- Any text is the number of its bytes here.
abbrev measure : List ℕ → Option ℕ
measure text = some (length text)

abbrev cellar : W1Device ℕ
cellar = record { id = "cellar"; device_id = "0315"; value = 20 }

abbrev noise : List ℕ
noise = b'Y' ∷ b'\n' ∷ b'4' ∷ []

get_current_value_marked_example :
    (get_current_value measure (some ((noise ++ (mark ++ b'6' ∷ b'2' ∷ [])) ++ b'\n' ∷ [])) cellar
      ≡ none)
    × (get_current_value measure (some ((noise ++ b'-' ∷ b'6' ∷ b'2' ∷ []) ++ b'\n' ∷ [])) cellar
        ≡ some cellar)
get_current_value_marked_example =
    get_current_value_marked measure noise (b'6' ∷ b'2' ∷ []) cellar refl refl

abbrev kitchen : SnapcastDevice
kitchen = record { id = "00:1a_kitchen"; volume = record { muted = false; percent = pos 40 } }

abbrev speakers : SnapcastBus
speakers = record { devices = ("00:1a_kitchen", kitchen) ∷ []; sent = []; changes = [] }

parse_id_tests :
    (parse_id "snapcast_audio_mute_00:1a_kitchen" ≡ some (mute, "00:1a_kitchen"))
    × (parse_id "snapcast_audio_mute" ≡ some (mute, ""))
    × (parse_id "relay_1" ≡ none)
unfolding parse_id
parse_id_tests = (refl, refl, refl)

find_device-device_id_example :
    find_device (device_id mute "00:1a_kitchen") speakers ≡ some (mute, kitchen)
unfolding lookup
find_device-device_id_example = find_device-device_id mute "00:1a_kitchen" speakers

abbrev int_of : ℕ → ℤ
int_of n = pos n

abbrev nat_of : ℤ → ℕ
nat_of (pos n) = n
nat_of (negsuc n) = 0

pwm_fade_bounds_example :
    (length (pwm_fade (pos 3) (pos 1)) ≡ abs (pos 1 -ℤ pos 3))
    × ((v : ℤ) × (get_elem? (pwm_fade (pos 3) (pos 1)) 1 ≡ some v)
        × (abs (v -ℤ pos 3) ≡ 1 + 1)
        × (abs (v -ℤ pos 3) + abs (pos 1 -ℤ v) ≡ abs (pos 1 -ℤ pos 3)))
unfolding ◌-ℤ◌
pwm_fade_bounds_example = pwm_fade_bounds (pos 3) (pos 1) 1 (omega arith) (omega arith)

abbrev line_input : ℕ → Bool → ModbusDevice
line_input n coil = record {
  id = "input";
  register = 7;
  bit_number = n;
  device_address = 2;
  is_coil = coil;
  kind = digital_input_device;
  status = false;
}

query_device_changes_test :
    query_device_changes
      (λ address register. some (1 ∷ 0 ∷ []))
      (polled_registers (line_input 8 false ∷ []) [])
      (("input", line_input 8 false) ∷ [])
    ≡ some (("input", record (line_input 8 false) { status = true }) ∷ [], "input" ∷ [])
unfolding query_device_changes polled_registers
query_device_changes_test = refl

abbrev line_inputs : List ModbusDevice
line_inputs =
    line_input 8 false ∷ line_input 3 true ∷ record (line_input 0 false) { id = "other" } ∷ []

group_of-polled_registers_example :
    group_of 2 7 (polled_registers line_inputs []) ≡ "input" ∷ "other" ∷ []
group_of-polled_registers_example = group_of-polled_registers line_inputs 2 7
