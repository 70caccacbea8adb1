-- ===== src/Io/Gpio.antt =====
-- handlers/io/bus/gpiobus/gpiobus.go: outputs on the pins of a board. The pins are those of the gpio
-- library: an argument, with the state of a pin as a value. A pin that cannot be opened ends the process.
pub mod Levels
use chik.Prelude.{
  Bool, List, Option, String, [], false, if◌then◌else◌, ltb, map, nat_eq, none, not, some,
  string_eq, true, ℕ, ◌<◌, ◌∷◌, ◌≡◌,
}
use chik.Io.Bus.{Bus, DeviceDescription, digital, digital_output_device, no_kind}
use chik.Io.Mapped.{by_key}
use chik.Json.{Value}
use chik.Prelude.Dict.{Dict, insert, lookup}

-- `High` and `Low`, whose errors are only logged, and `Read`, with `none` for an error.
pub record Pins (P : Type 0) : Type 0 where
  pub open_pin : ℕ → P
  pub high : P → P
  pub low : P → P
  pub read_pin : P → Option ℕ

-- What the bus relies on: a value that is read after a level was set is that level.
pub record PinLaws {P : Type 0} (pins : Pins P) : Type 0 where
  pub read-high : (p : P) (v : ℕ) → pins.read_pin (pins.high p) ≡ some v → 0 < v
  pub read-low : (p : P) (v : ℕ) → pins.read_pin (pins.low p) ≡ some v → v ≡ 0

-- The configuration of a device.
pub record GpioConfig : Type 0 where
  pub id : String
  pub number : ℕ
  pub inverted : Bool

-- A device, with the pin of its number as it is.
pub record GpioDevice (P : Type 0) : Type 0 where
  pub conf : GpioConfig
  pub pin : P

-- The devices by their identifiers, and the pins of the board that were opened, by their numbers: devices of one
-- number have one pin.
pub record GpioBus (P : Type 0) : Type 0 where
  pub devices : Dict String GpioConfig
  pub levels : Dict ℕ P

-- Go's `!=` on bools.
abbrev pub differ : Bool → Bool → Bool
differ true b = not b
differ false b = b

module _ {P : Type 0} (pins : Pins P) where
  -- `init`.
  unfoldable pub open_device : GpioConfig → GpioDevice P
  open_device c =
      let p = pins.open_pin c.number in
      record { conf = c; pin = if c.inverted then pins.high p else p }

  -- `set`.
  unfoldable pub set_level : Bool → GpioDevice P → GpioDevice P
  set_level value d = record d {
    pin = if differ value d.conf.inverted then pins.high d.pin else pins.low d.pin;
  }

  -- `GetStatus`: a read error shows false.
  unfoldable pub get_status : GpioDevice P → Bool
  get_status d = elim (pins.read_pin d.pin) [
    | none ↦ false
    | some val ↦ differ (ltb 0 val) d.conf.inverted
  ]

  unfoldable pub toggle_level : GpioDevice P → GpioDevice P
  unfolding set_level get_status
  toggle_level d = set_level (not (get_status d)) d

  unfoldable pub describe_gpio : {N : Type 0} → GpioDevice P → DeviceDescription N
  unfolding get_status
  describe_gpio d = record {
    id = d.conf.id;
    kind = digital_output_device;
    state = digital (get_status d);
  }

  -- The device of an identifier, on the pin that it shares with the devices of the same number.
  abbrev pub find_gpio : String → GpioBus P → Option (GpioDevice P)
  find_gpio id b = elim (lookup id b.devices) [
    | none ↦ none
    | some c ↦ elim (lookup c.number b.levels) [
      | none ↦ none
      | some p ↦ some (record { conf = c; pin = p })
    ]
  ]

  unfoldable pub on_gpio : (GpioDevice P → GpioDevice P) → String → GpioBus P → Option (GpioBus P)
  unfolding lookup insert
  on_gpio call id b = elim (find_gpio id b) [
    | none ↦ none
    | some d ↦ some (record b { levels = insert d.conf.number (call d).pin b.levels })
  ]

  unfoldable pub open_all : List GpioConfig → Dict ℕ P → Dict ℕ P
  unfolding open_device
  open_all [] levels = levels
  open_all (c ∷ confs) levels = open_all confs (insert c.number (open_device c).pin levels)

  -- A configuration that cannot be decoded leaves the bus.
  unfoldable pub initialize_gpio : Option (List GpioConfig) → GpioBus P → GpioBus P
  unfolding open_all by_key
  initialize_gpio none b = b
  initialize_gpio (some confs) b = record {
    devices = by_key (λ c. c.id) confs [];
    levels = open_all confs b.levels;
  }

  -- The bus. A device is no AnalogDevice.
  unfoldable pub gpio_bus :
      {N : Type 0} (decode : Option (Value N) → Option (List GpioConfig)) → Bus N (GpioBus P)
  unfolding on_gpio set_level toggle_level describe_gpio initialize_gpio
  gpio_bus decode = record {
    initialize = λ config b. initialize_gpio (decode config) b;
    device = λ id b. elim (lookup id b.devices) [ none ↦ false | some c ↦ true ];
    kind = λ id b. elim (lookup id b.devices) [ none ↦ no_kind | some c ↦ digital_output_device ];
    description = λ id b. elim (find_gpio id b) [ none ↦ none | some d ↦ some (describe_gpio d) ];
    turn_on = on_gpio (set_level true);
    turn_off = on_gpio (set_level false);
    toggle = on_gpio toggle_level;
    set_value = λ x id b. none;
    add_value = λ x id b. none;
    device_ids = λ b. map (λ e. e.0) b.devices;
  }

-- `DeviceChanges`: the device of a pin that the watcher reports; `none` is a panic, for a pin of no device.
unfoldable pub changed_device : List GpioConfig → ℕ → Option String
unfolding by_key lookup
changed_device confs number = elim (lookup number (by_key (λ c. c.number) confs [])) [
  | none ↦ none
  | some c ↦ some c.id
]
