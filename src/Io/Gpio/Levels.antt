-- ===== src/Io/Gpio/Levels.antt =====
-- What a pin shows after it was set or toggled.
use chik.Io.Gpio.{get_status}
use chik.Prelude.{
  Bool, Bool-cases, List, Option, Option-cases, String, arith, false, inl, inr, nat_eq, none, not,
  some, string_eq, true, ◌&&◌, ◌≡◌,
}
use chik.Io.Bus.{KeepsDevices, KeepsThere}
use chik.Io.Gpio.{
  GpioConfig, GpioDevice, PinLaws, Pins, differ, find_gpio, gpio_bus, on_gpio, set_level,
  toggle_level,
}
use chik.Json.{Value}
use chik.Prelude.Dict.{insert}

module _ {P : Type 0} (pins : Pins P) where
  -- Whether the pin of a device can be read.
  abbrev pub is_readable : GpioDevice P → Bool
  is_readable d = elim (pins.read_pin d.pin) [ none ↦ false | some v ↦ true ]

  shows_level :
      (laws : PinLaws pins) (value : Bool) (d : GpioDevice P)
      → get_status pins (set_level pins value d) ≡ (value && is_readable (set_level pins value d))
  unfolding get_status set_level
  shows_level laws value d = elim (Bool-cases (differ value d.conf.inverted)) [
    | inl up ↦ elim (Option-cases (pins.read_pin (pins.high d.pin))) [
      | inl wrong ↦ ground arith
      | inr (v, level) ↦ ground (arith, laws.read-high d.pin v)
    ]
    | inr down ↦ elim (Option-cases (pins.read_pin (pins.low d.pin))) [
      | inl wrong ↦ ground arith
      | inr (v, level) ↦ ground (arith, laws.read-low d.pin v)
    ]
  ]

  -- With pins that keep their level, a device shows after TurnOn and TurnOff what was asked for, whether
  -- its logic is inverted or not, and after Toggle the opposite of what it showed; but where its pin cannot
  -- be read afterwards it shows false.
  pub get_status-set_level :
      (laws : PinLaws pins) (value : Bool) (d : GpioDevice P)
      → (get_status pins (set_level pins value d) ≡ (value && is_readable (set_level pins value d)))
        × (get_status pins (toggle_level pins d)
            ≡ (not (get_status pins d) && is_readable (toggle_level pins d)))
  unfolding toggle_level
  get_status-set_level laws value d =
      (shows_level laws value d, shows_level laws (not (get_status pins d)) d)

  module _ {N : Type 0} (decode : Option (Value N) → Option (List GpioConfig)) where
    on_gpio-KeepsThere :
        (call : GpioDevice P → GpioDevice P) (id : String)
        → KeepsThere (gpio_bus pins decode) (on_gpio pins call id)
    unfolding gpio_bus
    on_gpio-KeepsThere call id b b' ran asked there = elim (Option-cases (find_gpio pins id b)) [
      | inl missing ↦ absurd (ground (arith, missing))
      | inr (d, found) ↦
          let same : record b { levels = insert d.conf.number (call d).pin b.levels } ≡ b' =
            ground (arith, found) in
          rw (← same) there
    ]

    -- No method of the bus removes a device.
    pub gpio_bus-KeepsDevices : KeepsDevices (gpio_bus pins decode)
    unfolding gpio_bus
    gpio_bus-KeepsDevices = record {
      turn_on_keeps = on_gpio-KeepsThere (set_level pins true);
      turn_off_keeps = on_gpio-KeepsThere (set_level pins false);
      toggle_keeps = on_gpio-KeepsThere (toggle_level pins);
      set_value_keeps = λ x id b b' ran asked there. absurd (ground (arith, ran));
      add_value_keeps = λ x id b b' ran asked there. absurd (ground (arith, ran));
    }
