-- ===== src/Io/Mapped.antt =====
-- Buses that keep their devices in a map by the identifier, as the Unipi, Modbus and 1-wire buses do: the
-- interface of one device (handlers/io/bus/bus.go), and the bus of a map of such devices.
pub mod Local
use chik.Prelude.{
  Eq, List, Option, String, [], false, map, nat_eq, none, some, string_eq, true, ◌∷◌,
}
use chik.Io.Bus.{Bus, DeviceDescription, DeviceKind, no_kind}
use chik.Json.{Value}
use chik.Prelude.Dict.{Dict, insert, lookup}
use chik.Prelude.Int.{int_eq}

-- `none` is a panic, such as that of a type assertion for a method that the device does not have.
pub record DeviceMethods (N D : Type 0) : Type 0 where
  pub kind : D → DeviceKind
  pub description : D → Option (DeviceDescription N)
  pub turn_on : D → Option D
  pub turn_off : D → Option D
  pub toggle : D → Option D
  pub set_value : N → D → Option D
  pub add_value : N → D → Option D

module _ {D : Type 0} where
  -- A method of the device of the given identifier.
  unfoldable pub on_entry : (D → Option D) → String → Dict String D → Option (Dict String D)
  on_entry call id b = elim (lookup id b) [
    | none ↦ none
    | some d ↦ elim (call d) [ none ↦ none | some d' ↦ some (insert id d' b) ]
  ]

  -- `funk.ToMap` by a key; of a repeated one the last device stays.
  unfoldable pub by_key : {K : Type 0} ⦃keys : Eq K⦄ → (D → K) → List D → Dict K D → Dict K D
  by_key key [] b = b
  by_key key (d ∷ devices) b = by_key key devices (insert (key d) d b)

module _ {N D : Type 0} (methods : DeviceMethods N D) where
  unfoldable pub mapped_bus :
      (Option (Value N) → Dict String D → Dict String D) → Bus N (Dict String D)
  unfolding on_entry
  mapped_bus initialize = record {
    initialize = initialize;
    device = λ id b. elim (lookup id b) [ none ↦ false | some d ↦ true ];
    kind = λ id b. elim (lookup id b) [ none ↦ no_kind | some d ↦ methods.kind d ];
    description = λ id b. elim (lookup id b) [ none ↦ none | some d ↦ methods.description d ];
    turn_on = on_entry methods.turn_on;
    turn_off = on_entry methods.turn_off;
    toggle = on_entry methods.toggle;
    set_value = λ x. on_entry (methods.set_value x);
    add_value = λ x. on_entry (methods.add_value x);
    device_ids = λ b. map (λ e. e.0) b;
  }
