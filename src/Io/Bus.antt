-- ===== src/Io/Bus.antt =====
-- handlers/io/bus/bus.go: devices, and the interface of a bus. The methods of a device are functions of
-- its bus and its identifier.
use chik.Prelude.{Bool, List, Option, String, some, true, ℕ, ◌∙◌, ◌≡◌, ◌≢◌}
use chik.Json.{Value}

-- A uint8.
abbrev pub DeviceKind : Type 0
DeviceKind = ℕ

abbrev pub no_kind : DeviceKind
no_kind = 0

abbrev pub digital_input_device : DeviceKind
digital_input_device = 1

abbrev pub digital_output_device : DeviceKind
digital_output_device = 2

abbrev pub analog_input_device : DeviceKind
analog_input_device = 3

abbrev pub analog_output_device : DeviceKind
analog_output_device = 4

-- The values that `State` takes: a bool or a float64.
pub data DeviceState (N : Type 0) : Type 0 where
  digital : Bool → DeviceState N
  analog : N → DeviceState N

pub record DeviceDescription (N : Type 0) : Type 0 where
  pub id : String
  pub kind : DeviceKind
  pub state : DeviceState N

-- `Bus` with the devices on it. `device` says whether the call of that name succeeds; the other methods
-- are called for such devices only, and `none` is a panic.
pub record Bus (N B : Type 0) : Type 0 where
  pub initialize : Option (Value N) → B → B
  pub device : String → B → Bool
  pub kind : String → B → DeviceKind
  pub description : String → B → Option (DeviceDescription N)
  pub turn_on : String → B → Option B
  pub turn_off : String → B → Option B
  pub toggle : String → B → Option B
  pub set_value : N → String → B → Option B
  pub add_value : N → String → B → Option B
  pub device_ids : B → List String

module _ {N B : Type 0} (bus : Bus N B) where
  -- A method changes at most the device that it is called for, and keeps its kind.
  pub record IsLocal (id : String) (call : B → Option B) : Type 0 where
    pub keeps_device :
        (b b' : B) → call b ≡ some b' → (asked : String) → bus.device asked b' ≡ bus.device asked b
    pub keeps_kind :
        (b b' : B) → call b ≡ some b' → (asked : String) → bus.kind asked b' ≡ bus.kind asked b
    pub keeps_others :
        (b b' : B)
        → call b ≡ some b'
        → (asked : String) → id ≢ asked
        → bus.description asked b' ≡ bus.description asked b

  -- What the handler relies on.
  pub record BusLaws : Type 0 where
    pub turn_on_local : (id : String) → IsLocal id (bus.turn_on id)
    pub turn_off_local : (id : String) → IsLocal id (bus.turn_off id)
    pub toggle_local : (id : String) → IsLocal id (bus.toggle id)
    pub set_value_local : (x : N) (id : String) → IsLocal id (bus.set_value x id)
    pub add_value_local : (x : N) (id : String) → IsLocal id (bus.add_value x id)

  -- A method that returns removes no device.
  abbrev pub KeepsThere : (B → Option B) → Type 0
  KeepsThere call =
      (b b' : B)
      → call b ≡ some b'
      → (asked : String) → bus.device asked b ≡ true
      → bus.device asked b' ≡ true

  -- What the memory of the handler relies on.
  pub record KeepsDevices : Type 0 where
    pub turn_on_keeps : (id : String) → KeepsThere (bus.turn_on id)
    pub turn_off_keeps : (id : String) → KeepsThere (bus.turn_off id)
    pub toggle_keeps : (id : String) → KeepsThere (bus.toggle id)
    pub set_value_keeps : (x : N) (id : String) → KeepsThere (bus.set_value x id)
    pub add_value_keeps : (x : N) (id : String) → KeepsThere (bus.add_value x id)

  IsLocal-KeepsThere : {id : String} {call : B → Option B} → IsLocal id call → KeepsThere call
  IsLocal-KeepsThere local b b' ran asked there = local.keeps_device b b' ran asked ∙ there

  pub BusLaws-KeepsDevices : BusLaws → KeepsDevices
  BusLaws-KeepsDevices laws = record {
    turn_on_keeps = λ id. IsLocal-KeepsThere (laws.turn_on_local id);
    turn_off_keeps = λ id. IsLocal-KeepsThere (laws.turn_off_local id);
    toggle_keeps = λ id. IsLocal-KeepsThere (laws.toggle_local id);
    set_value_keeps = λ x id. IsLocal-KeepsThere (laws.set_value_local x id);
    add_value_keeps = λ x id. IsLocal-KeepsThere (laws.add_value_local x id);
  }
