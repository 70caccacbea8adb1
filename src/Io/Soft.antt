-- ===== src/Io/Soft.antt =====
-- handlers/io/bus/softbus/softbus.go: devices without hardware. A value is what the configuration or a
-- command put there, null being nil; a bus is the map of its devices.
pub mod Typing
use chik.Prelude.{
  List, Option, String, [], false, if◌then◌else◌, map, nat_eq, none, not, some, string_eq, true,
  ◌==◌, ◌||◌, ◌∷◌,
}
use chik.Io.Bus.{
  Bus, DeviceDescription, DeviceKind, DeviceState, analog, analog_input_device,
  analog_output_device, digital, digital_input_device, digital_output_device, no_kind,
}
use chik.Json.{Numbers, Value, bool, null, num}
use chik.Prelude.Dict.{Dict, insert, lookup}

pub record SoftDevice (N : Type 0) : Type 0 where
  pub id : String
  pub kind : DeviceKind
  pub value : Value N

abbrev pub SoftBus : Type 0 → Type 0
SoftBus N = Dict String (SoftDevice N)

module _ {N : Type 0} ⦃ops : Numbers N⦄ where
  -- `Description` shows nil as false or 0, and panics on a value of another type.
  unfoldable pub state_of : SoftDevice N → Option (DeviceState N)
  state_of d =
      if d.kind == digital_input_device || d.kind == digital_output_device
      then elim d.value [ null ↦ some (digital false) | bool b ↦ some (digital b) | _ ↦ none ]
      else if d.kind == analog_input_device || d.kind == analog_output_device
      then elim d.value [ null ↦ some (analog (ops.of_nat 0)) | num x ↦ some (analog x) | _ ↦ none ]
      else some (digital false)

  unfoldable pub describe : SoftDevice N → Option (DeviceDescription N)
  unfolding state_of
  describe d = elim (state_of d) [
    | none ↦ none
    | some s ↦ some (record { id = d.id; kind = d.kind; state = s })
  ]

  -- A call for a device of another kind than the given one is logged and does nothing.
  unfoldable pub guarded :
      DeviceKind → (Value N → Option (Value N)) → SoftDevice N → Option (SoftDevice N)
  guarded kind change d =
      if d.kind == kind
      then elim (change d.value) [ none ↦ none | some v ↦ some (record d { value = v }) ]
      else some d

  abbrev pub negated : Value N → Option (Value N)
  negated (bool b) = some (bool (not b))
  negated _ = none

  abbrev pub increased : N → Value N → Option (Value N)
  increased x (num y) = some (num (ops.add y x))
  increased x _ = none

  -- A method of the device of the given identifier.
  unfoldable pub on_device :
      (SoftDevice N → Option (SoftDevice N)) → String → SoftBus N → Option (SoftBus N)
  on_device call id b = elim (lookup id b) [
    | none ↦ none
    | some d ↦ elim (call d) [ none ↦ none | some d' ↦ some (insert id d' b) ]
  ]

  -- `funk.ToMap` by the identifier; of a repeated one the last device stays.
  unfoldable pub to_devices : List (SoftDevice N) → SoftBus N → SoftBus N
  to_devices [] b = b
  to_devices (d ∷ devices) b = to_devices devices (insert d.id d b)

  -- The bus; `decode` reads its configuration.
  unfoldable pub soft_bus : (decode : Option (Value N) → List (SoftDevice N)) → Bus N (SoftBus N)
  unfolding describe guarded on_device to_devices
  soft_bus decode = record {
    initialize = λ config b. to_devices (decode config) [];
    device = λ id b. elim (lookup id b) [ none ↦ false | some d ↦ true ];
    kind = λ id b. elim (lookup id b) [ none ↦ no_kind | some d ↦ d.kind ];
    description = λ id b. elim (lookup id b) [ none ↦ none | some d ↦ describe d ];
    turn_on = on_device (guarded digital_output_device (λ v. some (bool true)));
    turn_off = on_device (guarded digital_output_device (λ v. some (bool false)));
    toggle = on_device (guarded digital_output_device negated);
    set_value = λ x. on_device (guarded analog_output_device (λ v. some (num x)));
    add_value = λ x. on_device (guarded analog_output_device (increased x));
    device_ids = λ b. map (λ e. e.0) b;
  }
