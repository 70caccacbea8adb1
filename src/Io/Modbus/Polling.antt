-- ===== src/Io/Modbus/Polling.antt =====
-- handlers/io/bus/modbus/modbus.go: the bus, its poll and its worker. The serial line is an argument: what
-- a read of a register returns, and which attempts to write succeed. The worker's choice between ticks and
-- actions is the list of its inputs.
use chik.Prelude.{
  Bool, List, Option, String, [], false, if◌then◌else◌, map, nat_eq, none, not, replicate, some,
  string_eq, suc, true, zero, ℕ, ◌%◌, ◌&&◌, ◌++◌, ◌/◌, ◌==◌, ◌∷◌,
}
use chik.Io.Bus.{Bus, digital, digital_input_device}
use chik.Io.Mapped.{DeviceMethods, by_key, mapped_bus}
use chik.Io.Modbus.{
  DeviceAction, ModbusDevice, coil_value, poll_group, register_command, send_action, switch_to,
  toggle_switch,
}
use chik.Json.{Value}
use chik.Prelude.Dict.{Dict, insert, lookup}

abbrev pub ModbusBus : Type 0
ModbusBus = Dict String ModbusDevice

-- The identifiers of the polled devices by the address of their slave and their register; the source keeps
-- pointers to the devices.
abbrev pub Groups : Type 0
Groups = Dict ℕ (Dict ℕ (List String))

abbrev pub or_nothing {ℓ} : {A : Type ℓ} → Option (List A) → List A
or_nothing none = []
or_nothing (some xs) = xs

-- Inputs on registers are polled; coils are not.
abbrev pub is_polled : ModbusDevice → Bool
is_polled d = d.kind == digital_input_device && not d.is_coil

unfoldable pub add_to_groups : ModbusDevice → Groups → Groups
unfolding lookup insert
add_to_groups d groups =
    let registers = or_nothing (lookup d.device_address groups) in
    let current = or_nothing (lookup d.register registers) in
    if is_polled d
    then insert d.device_address (insert d.register (current ++ d.id ∷ []) registers) groups
    else groups

-- `polledRegistersList`, over the devices in the order of the map.
unfoldable pub polled_registers : List ModbusDevice → Groups → Groups
unfolding add_to_groups
polled_registers [] groups = groups
polled_registers (d ∷ devices) groups = polled_registers devices (add_to_groups d groups)

-- The bits of a byte, the lowest first.
abbrev pub bits_of : ℕ → ℕ → List Bool
bits_of zero n = []
bits_of (suc left) n = (n % 2 == 1) ∷ bits_of left (n / 2)

abbrev pub devices_of : List String → ModbusBus → List ModbusDevice
devices_of [] b = []
devices_of (id ∷ ids) b = elim (lookup id b) [
  | none ↦ devices_of ids b
  | some d ↦ d ∷ devices_of ids b
]

abbrev pub store_all : List ModbusDevice → ModbusBus → ModbusBus
store_all [] b = b
store_all (d ∷ devices) b = store_all devices (insert d.id d b)

-- A bus and what it reports; `none` is a panic.
abbrev pub Polled : Type 0
Polled = Option (ModbusBus × List String)

-- A register that was read: a response of another length is only logged.
unfoldable pub query_group : Option (List ℕ) → List String → ModbusBus → Polled
unfolding poll_group lookup insert
query_group (some (high ∷ low ∷ [])) ids b =
    elim (poll_group (bits_of 8 low ++ bits_of 8 high) (devices_of ids b)) [
      | none ↦ none
      | some (devices, changes) ↦ some (store_all devices b, changes)
    ]
query_group _ ids b = some (b, [])

abbrev pub then_poll : Polled → (ModbusBus → Polled) → Polled
then_poll first more = elim first [
  | none ↦ none
  | some (b, changes) ↦ elim (more b) [
    | none ↦ none
    | some (b', changes') ↦ some (b', changes ++ changes')
  ]
]

module _ (read_register : ℕ → ℕ → Option (List ℕ)) where
  unfoldable pub query_registers : ℕ → Dict ℕ (List String) → ModbusBus → Polled
  unfolding query_group
  query_registers address [] b = some (b, [])
  query_registers address ((register, ids) ∷ rest) b =
      then_poll (query_group (read_register address register) ids b) (query_registers address rest)

  -- `queryDeviceChanges`.
  unfoldable pub query_device_changes : Groups → ModbusBus → Polled
  unfolding query_registers
  query_device_changes [] b = some (b, [])
  query_device_changes ((address, registers) ∷ rest) b =
      then_poll (query_registers address registers b) (query_device_changes rest)

-- What is written to the line, by the address of a slave and a register.
pub data ModbusWrite : Type 0 where
  single_coil : (address register value : ℕ) → ModbusWrite
  single_register : (address register : ℕ) (value : List Bool) → ModbusWrite

abbrev pub devices_in : ModbusBus → List ModbusDevice
devices_in b = map (λ e. e.1) b

-- `writeCoil` or `writeRegister`.
unfoldable pub write_of : ModbusBus → ModbusDevice → Bool → ModbusWrite
unfolding register_command
write_of b d high =
    if d.is_coil
    then single_coil d.device_address d.register (coil_value high)
    else single_register d.device_address d.register (register_command (devices_in b) d high)

-- `sendAction`: the writes that are attempted. An action of an unknown device is a panic.
unfoldable pub perform_action :
    (write : ℕ → Bool) → DeviceAction → ModbusBus → Option (List ModbusWrite)
unfolding write_of lookup
perform_action write action b = elim (lookup action.id b) [
  | none ↦ none
  | some d ↦ some (replicate (send_action write) (write_of b d action.high))
]

module _ {N : Type 0} where
  abbrev pub modbus_methods : DeviceMethods N ModbusDevice
  modbus_methods = record {
    kind = λ d. d.kind;
    description = λ d. some (record { id = d.id; kind = d.kind; state = digital d.status });
    turn_on = λ d. some (switch_to true d).0;
    turn_off = λ d. some (switch_to false d).0;
    toggle = λ d. some (toggle_switch d).0;
    set_value = λ x d. none;
    add_value = λ x d. none;
  }

  -- The bus; `decode` reads its configuration, whose devices are added to those that it has.
  unfoldable pub modbus_bus : (decode : Option (Value N) → List ModbusDevice) → Bus N ModbusBus
  unfolding mapped_bus by_key switch_to toggle_switch
  modbus_bus decode = mapped_bus modbus_methods (λ config. by_key (λ d. d.id) (decode config))
