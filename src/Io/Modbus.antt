-- ===== src/Io/Modbus.antt =====
-- handlers/io/bus/modbus/modbus.go: switches on the bits of registers. A register, a uint16, is the list
-- of its 16 bits, the lowest first.
pub mod Registers
pub mod Polling
pub mod Grouping
use chik.Prelude.{
  Bool, List, Option, String, [], false, get_elem?, if◌then◌else◌, nat_eq, none, not, replicate,
  some, string_eq, suc, true, zero, ℕ, ◌&&◌, ◌+◌, ◌==◌, ◌∷◌,
}
use chik.Io.Bus.{DeviceKind, digital_input_device, digital_output_device}

pub record ModbusDevice : Type 0 where
  pub id : String
  pub register : ℕ
  pub bit_number : ℕ
  pub device_address : ℕ
  pub is_coil : Bool
  pub kind : DeviceKind
  pub status : Bool

pub record DeviceAction : Type 0 where
  pub id : String
  pub high : Bool

-- A method of a device: the device, and what it sends to the worker.
abbrev pub Switched : Type 0
Switched = ModbusDevice × List DeviceAction

-- `TurnOn` and `TurnOff`: an input is left alone, and so is a device that has the status.
unfoldable pub switch_to : Bool → ModbusDevice → Switched
switch_to on d =
    if d.kind == digital_input_device
    then (d, [])
    else if (if d.status then on else not on)
    then (d, [])
    else (record d { status = on }, record { id = d.id; high = on } ∷ [])

unfoldable pub toggle_switch : ModbusDevice → Switched
toggle_switch d =
    if d.kind == digital_input_device
    then (d, [])
    else (record d { status = not d.status }, record { id = d.id; high = not d.status } ∷ [])

-- The value of a coil, and of no coil.
abbrev pub coil_value : Bool → ℕ
coil_value true = 65280
coil_value false = 0

-- OR with the bit of a number, and AND with its complement; a shift by 16 or more gives no bit.
unfoldable pub set_bit : ℕ → Bool → List Bool → List Bool
set_bit n v [] = []
set_bit zero v (b ∷ bits) = v ∷ bits
set_bit (suc n) v (b ∷ bits) = b ∷ set_bit n v bits

-- An output on the register of the device, whose status is on.
abbrev pub is_high_on : ModbusDevice → ModbusDevice → Bool
is_high_on device d =
    d.kind == digital_output_device
    && (d.device_address == device.device_address && (d.register == device.register && d.status))

-- The loop of `writeRegister`.
unfoldable pub collect : ModbusDevice → List ModbusDevice → List Bool → List Bool
unfolding set_bit
collect device [] word = word
collect device (d ∷ devices) word =
    collect device devices (if is_high_on device d then set_bit d.bit_number true word else word)

-- The command that `writeRegister` sends.
unfoldable pub register_command : List ModbusDevice → ModbusDevice → Bool → List Bool
unfolding collect set_bit
register_command devices device high =
    set_bit device.bit_number high (collect device devices (replicate 16 false))

-- `sendAction`: up to five attempts, until one succeeds; `write` says which do. The number of calls.
unfoldable pub attempts : (write : ℕ → Bool) → ℕ → ℕ → ℕ
attempts write zero made = made
attempts write (suc left) made =
    let more = attempts write left (made + 1) in if write made then made + 1 else more

abbrev pub send_action : (write : ℕ → Bool) → ℕ
send_action write = attempts write 5 0

-- One group of `queryDeviceChanges`: the devices of a register that was read, and the identifiers that
-- are reported. A bit number that the two bytes do not have is a panic, `none`.
unfoldable pub poll_group : List Bool → List ModbusDevice → Option (List ModbusDevice × List String)
poll_group word [] = some ([], [])
poll_group word (d ∷ devices) = elim (get_elem? word d.bit_number) [
  | none ↦ none
  | some new ↦
      let read : ModbusDevice = record d { status = new } in
      elim (poll_group word devices) [
        | none ↦ none
        | some (rest, changes) ↦
            some
              (read ∷ rest, if (if d.status then new else not new) then changes else d.id ∷ changes)
      ]
]
