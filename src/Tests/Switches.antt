-- ===== src/Tests/Switches.antt =====
-- Tests of the switches on registers.
use chik.Prelude.{
  All, Bool, List, [], arith, false, get_elem?, nat_eq, none, refl, replicate, some, string_eq,
  true, ℕ, ◌+◌, ◌==◌, ◌↔◌, ◌∷◌, ◌≡◌, ◌≤◌, ◌⊎◌,
}
use chik.Io.Bus.{Bus, DeviceDescription, analog_output_device, digital_output_device}
use chik.Io.Modbus.{ModbusDevice, attempts, register_command, send_action, switch_to}
use chik.Io.Modbus.Registers.{get_elem-register_command}
use chik.Io.Soft.{SoftBus, SoftDevice, soft_bus, to_devices}
use chik.Io.Soft.Typing.{AllTyped, IsFresh, Runs, initialize-AllTyped, is_typed, typed-Runs}
use chik.Io.Teardown.{
  CanReturn, Listener, OpenBus, capacity, deinitialize, deinitialize_all, open_soft, open_unipi,
}
use chik.Io.Teardown.Counting.{all_waiting}
use chik.Io.Teardown.Waiting.{Closes, listeners_of, teardown_returns}
use chik.Json.{null, num}
use chik.Prelude.Dict.{insert, lookup}
use chik.Tests.Samples.{nat_numbers}

abbrev relay_of : ℕ → Bool → ModbusDevice
relay_of n on = record {
  id = "relay";
  register = 5;
  bit_number = n;
  device_address = 1;
  is_coil = false;
  kind = digital_output_device;
  status = on;
}

abbrev panel : List ModbusDevice
panel = relay_of 2 true ∷ relay_of 3 false ∷ relay_of 9 true ∷ []

switch_to_tests :
    ((switch_to true (relay_of 3 false)).1 ≡ record { id = "relay"; high = true } ∷ [])
    × ((switch_to true (relay_of 2 true)).1 ≡ [])
unfolding switch_to
switch_to_tests = (refl, refl)

send_action_tests : (send_action (λ n. n == 2) ≡ 3) × (send_action (λ n. false) ≡ 5)
unfolding attempts
send_action_tests = (refl, refl)

get_elem-register_command_example :
    get_elem? (register_command panel (relay_of 2 true) false) 9 ≡ some true
get_elem-register_command_example =
    get_elem-register_command panel (relay_of 2 true) false 9 (omega arith)

abbrev all_high : List Bool
all_high = replicate 16 true

-- A bus with one change that its listener has still to pass on.
abbrev one_change : OpenBus → OpenBus × Listener
one_change bus = (bus, record { pending = "lamp" ∷ []; held = none; closed = false; gone = false })

abbrev lamp_changed : Listener
lamp_changed = record { pending = "lamp" ∷ []; held = none; closed = true; gone = false }

teardown_returns_example : CanReturn (lamp_changed ∷ []) [] ↔ (
    All Closes (one_change open_soft ∷ [])
    × (all_waiting (listeners_of (one_change open_soft ∷ [])) + 0 ≤ capacity))
unfolding deinitialize_all deinitialize
teardown_returns_example =
    teardown_returns (one_change open_soft ∷ []) (lamp_changed ∷ []) [] refl (refl, tt)
      (omega arith)

unipi_stays : ¬ Closes (one_change (open_unipi true))
unfolding deinitialize
unipi_stays closes = ground (arith, closes)

-- A lamp without a value yet, and a dimmer.
abbrev new_lamp : SoftDevice ℕ
new_lamp = record { id = "lamp"; kind = digital_output_device; value = null }

abbrev dimmer : SoftDevice ℕ
dimmer = record { id = "dimmer"; kind = analog_output_device; value = num 3 }

abbrev soft_devices : SoftBus ℕ
soft_devices = ("lamp", new_lamp) ∷ ("dimmer", dimmer) ∷ []

soft_devices-AllTyped : AllTyped soft_devices
unfolding soft_bus to_devices insert is_typed
soft_devices-AllTyped =
    initialize-AllTyped (λ config. new_lamp ∷ dimmer ∷ []) none [] (refl, (refl, tt))

typed-Runs_example :
    (let bus : Bus ℕ (SoftBus ℕ) = soft_bus (λ config. []) in
      ((s : DeviceDescription ℕ) × (bus.description "lamp" soft_devices ≡ some s))
      × Runs (bus.turn_on "lamp" soft_devices)
      × Runs (bus.turn_off "lamp" soft_devices)
      × Runs (bus.set_value 5 "lamp" soft_devices)
      × (Runs (bus.toggle "lamp" soft_devices)
          ⊎ ((bus.toggle "lamp" soft_devices ≡ none) × IsFresh digital_output_device new_lamp))
      × (Runs (bus.add_value 5 "lamp" soft_devices)
          ⊎ ((bus.add_value 5 "lamp" soft_devices ≡ none) × IsFresh analog_output_device new_lamp)))
unfolding lookup
typed-Runs_example = typed-Runs (λ config. []) 5 "lamp" soft_devices soft_devices-AllTyped refl
