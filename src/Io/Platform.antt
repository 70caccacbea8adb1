-- ===== src/Io/Platform.antt =====
-- handlers/io/platform: the buses of each build, and the handler over them. A bus of one of several kinds is
-- the sum of these; the build tag is an argument.
pub mod Choosing
pub mod Polling
pub mod Running
use mathlib.Core.Option
use chik.Prelude.{
  Bool, List, Option, String, [], inl, inr, nat_eq, some, string_eq, ℕ, ◌∷◌, ◌≡◌, ◌⊎◌,
}
use chik.Io.Bus.{Bus}
use chik.Io.Devices.{Io}
use chik.Io.Gpio.{GpioBus, GpioConfig, Pins, gpio_bus}
use chik.Io.Modbus.{ModbusDevice}
use chik.Io.Modbus.Polling.{Groups, ModbusBus, modbus_bus, query_device_changes}
use chik.Io.Snapcast.{Notification, SnapcastBus, on_notify, snapcast_bus, update_known_clients}
use chik.Io.Soft.{SoftBus, SoftDevice, soft_bus}
use chik.Io.Unipi.{UnipiBus, UnipiDevice, poll_devices, unipi_bus}
use chik.Io.W1.{W1Device, get_values, w1_bus}
use chik.Json.{Numbers, Value}
use chik.Prelude.Dict.{Dict, insert}
use chik.Prelude.Int.{int_eq, ℤ}
use chik.Snapcast.Structs.{ServerStatus}
use chik.StatusHolder.{new_status_holder}

module _ {N A B : Type 0} where
  -- The methods of a bus of one of two kinds, as the interface `Bus` calls them.
  unfoldable pub either_bus : Bus N A → Bus N B → Bus N (A ⊎ B)
  either_bus left right = record {
    initialize = λ config b. elim b [
      | inl x ↦ inl (left.initialize config x)
      | inr y ↦ inr (right.initialize config y)
    ];
    device = λ id b. elim b [ inl x ↦ left.device id x | inr y ↦ right.device id y ];
    kind = λ id b. elim b [ inl x ↦ left.kind id x | inr y ↦ right.kind id y ];
    description = λ id b. elim b [ inl x ↦ left.description id x | inr y ↦ right.description id y ];
    turn_on = λ id b. elim b [
      | inl x ↦ Option.map inl (left.turn_on id x)
      | inr y ↦ Option.map inr (right.turn_on id y)
    ];
    turn_off = λ id b. elim b [
      | inl x ↦ Option.map inl (left.turn_off id x)
      | inr y ↦ Option.map inr (right.turn_off id y)
    ];
    toggle = λ id b. elim b [
      | inl x ↦ Option.map inl (left.toggle id x)
      | inr y ↦ Option.map inr (right.toggle id y)
    ];
    set_value = λ v id b. elim b [
      | inl x ↦ Option.map inl (left.set_value v id x)
      | inr y ↦ Option.map inr (right.set_value v id y)
    ];
    add_value = λ v id b. elim b [
      | inl x ↦ Option.map inl (left.add_value v id x)
      | inr y ↦ Option.map inr (right.add_value v id y)
    ];
    device_ids = λ b. elim b [ inl x ↦ left.device_ids x | inr y ↦ right.device_ids y ];
  }

-- The state of any bus of the repository.
abbrev pub AnyBus : (N P : Type 0) → Type 0
AnyBus N P =
    SoftBus N ⊎ (GpioBus P ⊎ (UnipiBus ⊎ (Dict String (W1Device N) ⊎ (ModbusBus ⊎ SnapcastBus))))

-- The build tags.
pub data Platform : Type 0 where
  platform_soft : Platform
  platform_raspberrypi : Platform
  platform_unipi_neuron : Platform

module _ {N P : Type 0} where
  -- What `New` of each bus makes, under the name that its `String` returns.
  abbrev pub new_soft : String × AnyBus N P
  new_soft = ("soft", inl [])

  abbrev pub new_gpio : String × AnyBus N P
  new_gpio = ("gpio", inr (inl (record { devices = []; levels = [] })))

  abbrev pub new_unipi : String × AnyBus N P
  new_unipi = ("unipi", inr (inr (inl [])))

  abbrev pub new_w1 : String × AnyBus N P
  new_w1 = ("w1", inr (inr (inr (inl []))))

  abbrev pub new_modbus : String × AnyBus N P
  new_modbus = ("modbus", inr (inr (inr (inr (inl [])))))

  abbrev pub new_snapcast : String × AnyBus N P
  new_snapcast =
      ("snapcast", inr (inr (inr (inr (inr (record { devices = []; sent = []; changes = [] }))))))

  -- The list that the `init` of the platform leaves.
  unfoldable pub bus_list : Platform → List (String × AnyBus N P)
  bus_list platform_soft = new_soft ∷ []
  bus_list platform_raspberrypi = new_soft ∷ new_gpio ∷ []
  bus_list platform_unipi_neuron = new_soft ∷ new_unipi ∷ new_w1 ∷ new_modbus ∷ new_snapcast ∷ []

module _ {B : Type 0} where
  -- `CreateBuses`.
  unfoldable pub create_buses : List (String × B) → Dict String B → Dict String B
  create_buses [] result = result
  create_buses ((name, b) ∷ rest) result = create_buses rest (insert name b result)

  -- `New` of the handler.
  unfoldable pub new_io : {N : Type 0} → List (String × B) → Io N B
  unfolding create_buses
  new_io buses = record {
    actuators = create_buses buses [];
    bus_by_device = [];
    status = new_status_holder "io";
  }

-- What a platform gets from outside: the decoding of the configurations, the conversions of numbers, the
-- pins and the files.
pub record Hardware (N P : Type 0) : Type 0 where
  pub decode_soft : Option (Value N) → List (SoftDevice N)
  pub decode_gpio : Option (Value N) → Option (List GpioConfig)
  pub decode_unipi : Option (Value N) → List UnipiDevice
  pub decode_w1 : Option (Value N) → List (W1Device N)
  pub decode_modbus : Option (Value N) → List ModbusDevice
  pub of_int : ℤ → N
  pub round : N → ℤ
  pub pins : Pins P
  pub reading : String → Option (List ℕ)

unfoldable pub any_bus : {N P : Type 0} ⦃ops : Numbers N⦄ → Hardware N P → Bus N (AnyBus N P)
unfolding either_bus soft_bus gpio_bus unipi_bus w1_bus modbus_bus snapcast_bus
any_bus hw = either_bus (soft_bus hw.decode_soft) (
    either_bus (gpio_bus hw.pins hw.decode_gpio) (
      either_bus (unipi_bus hw.of_int hw.round hw.decode_unipi hw.reading) (
        either_bus (w1_bus hw.decode_w1)
          (either_bus (modbus_bus hw.decode_modbus) (snapcast_bus hw.of_int hw.round)))))

-- What the loops of the buses do beside the handler: a round of a poll, the clients that are asked for, and the
-- notifications of the server. The readings are arguments.
pub data BusLoop {N P : Type 0} : AnyBus N P → AnyBus N P → Type 0 where
  unipi_poll :
      (reading : String → Option (List ℕ)) (ids : List String) (b : UnipiBus)
      → BusLoop (inr (inr (inl b))) (inr (inr (inl (poll_devices reading ids b).0)))
  w1_poll :
      (parse_float : List ℕ → Option N) (same_float : N → N → Bool)
      (reading : String → Option (List ℕ)) (ids changes : List String)
      (b b' : Dict String (W1Device N))
      → get_values parse_float same_float reading ids b ≡ some (b', changes)
      → BusLoop (inr (inr (inr (inl b)))) (inr (inr (inr (inl b'))))
  modbus_poll :
      (read_register : ℕ → ℕ → Option (List ℕ)) (groups : Groups) (changes : List String)
      (b b' : ModbusBus)
      → query_device_changes read_register groups b ≡ some (b', changes)
      → BusLoop (inr (inr (inr (inr (inl b))))) (inr (inr (inr (inr (inl b')))))
  snapcast_clients :
      (status : ServerStatus) (b : SnapcastBus)
      → BusLoop
          (inr (inr (inr (inr (inr b)))))
          (inr (inr (inr (inr (inr (update_known_clients status b))))))
  snapcast_notice :
      (notice : Notification) (b : SnapcastBus)
      → BusLoop (inr (inr (inr (inr (inr b))))) (inr (inr (inr (inr (inr (on_notify notice b))))))
