-- ===== src/Io/Softly.antt =====
-- The soft bus keeps the contract of a bus, and what its devices show.
use chik.Json.Struct.{◌>>=◌}
use chik.Prelude.{
  Bool, List, Option, Option-cases, String, arith, beq_self, eq_iff, false, inl, inr, nat_eq, none,
  not, refl, some, string_eq, true, ◌∙◌, ◌≡◌,
}
use chik.Io.Bus.{
  BusLaws, DeviceDescription, DeviceKind, IsLocal, analog_output_device, digital,
  digital_output_device,
}
use chik.Io.Soft.{SoftBus, SoftDevice, describe, guarded, increased, negated, on_device, soft_bus}
use chik.Json.{Numbers, Value, bool, null, num}
use chik.Prelude.Dict.{insert, lookup, lookup-insert, lookup-insert_self}

module _ {N : Type 0} ⦃ops : Numbers N⦄ where
  guarded_keeps :
      (kind : DeviceKind) (change : Value N → Option (Value N)) (d : SoftDevice N)
      {d' : SoftDevice N}
      → guarded kind change d ≡ some d'
      → d'.kind ≡ d.kind
  unfolding guarded
  guarded_keeps kind change d got = ground arith

  -- A call that succeeds puts a changed device in the place of the old.
  on_device_lem :
      (call : SoftDevice N → Option (SoftDevice N)) (id : String) (b b' : SoftBus N)
      → on_device call id b ≡ some b'
      → (d : SoftDevice N) × (d' : SoftDevice N) × (lookup id b ≡ some d)
        × (call d ≡ some d')
        × (b' ≡ insert id d' b)
  unfolding on_device
  on_device_lem call id b b' got = elim (Option-cases (lookup id b)) [
    | inl missing ↦ absurd (ground arith)
    | inr (d, found) ↦ elim (Option-cases (call d)) [
      | inl halt ↦ absurd (ground arith)
      | inr (d', next) ↦ (d, d', found, next, ground arith)
    ]
  ]

  guarded_met :
      (kind : DeviceKind) (change : Value N → Option (Value N)) (d : SoftDevice N) {v : Value N}
      → d.kind ≡ kind
      → change d.value ≡ some v
      → guarded kind change d ≡ some (record d { value = v })
  unfolding guarded
  guarded_met kind change d same next = ground (arith, beq_self kind)

  pub on_device_met :
      (call : SoftDevice N → Option (SoftDevice N)) (id : String) (b : SoftBus N)
      {d d' : SoftDevice N}
      → lookup id b ≡ some d
      → call d ≡ some d'
      → on_device call id b ≡ some (insert id d' b)
  unfolding on_device
  on_device_met call id b found next = ground arith

  describe_digital :
      (d : SoftDevice N) (on : Bool)
      → d.kind ≡ digital_output_device
      → d.value ≡ bool on
      → describe d ≡ some (record { id = d.id; kind = d.kind; state = digital on })
  unfolding describe
  describe_digital d on kind value = ground arith

  describe_fresh :
      (d : SoftDevice N)
      → d.kind ≡ digital_output_device
      → d.value ≡ null
      → describe d ≡ some (record { id = d.id; kind = d.kind; state = digital false })
  unfolding describe
  describe_fresh d kind value = ground arith

  toggle_fresh :
      (id : String) (b : SoftBus N) {d : SoftDevice N}
      → lookup id b ≡ some d
      → d.kind ≡ digital_output_device
      → d.value ≡ null
      → on_device (guarded digital_output_device negated) id b ≡ none
  unfolding on_device guarded
  toggle_fresh id b found kind value = ground arith

  module _ (decode : Option (Value N) → List (SoftDevice N)) where
    on_device-IsLocal :
        (kind : DeviceKind) (change : Value N → Option (Value N)) (id : String)
        → IsLocal (soft_bus decode) id (on_device (guarded kind change) id)
    unfolding soft_bus
    on_device-IsLocal kind change id = record {
      keeps_device = λ b b' got asked.
          let (d, d', found, next, put) = on_device_lem (guarded kind change) id b b' got in
          (rw (put, soft_bus, lookup-insert) (ground (arith, found, eq_iff id asked)));
      keeps_kind = λ b b' got asked.
          let (d, d', found, next, put) = on_device_lem (guarded kind change) id b b' got in
          (rw (put, soft_bus, lookup-insert)
            (ground (arith, found, eq_iff id asked, guarded_keeps kind change d next)));
      keeps_others = λ b b' got asked other.
          let (d, d', found, next, put) = on_device_lem (guarded kind change) id b b' got in
          (rw (put, soft_bus, lookup-insert) (ground (arith, found, eq_iff id asked)));
    }

    -- The soft bus keeps the contract of a bus: each call changes at most the device that it is for, and
    -- the kind of none.
    pub soft_bus-BusLaws : BusLaws (soft_bus decode)
    unfolding soft_bus
    soft_bus-BusLaws = record {
      turn_on_local = λ id. on_device-IsLocal digital_output_device (λ v. some (bool true)) id;
      turn_off_local = λ id. on_device-IsLocal digital_output_device (λ v. some (bool false)) id;
      toggle_local = λ id. on_device-IsLocal digital_output_device negated id;
      set_value_local = λ x id. on_device-IsLocal analog_output_device (λ v. some (num x)) id;
      add_value_local = λ x id. on_device-IsLocal analog_output_device (increased x) id;
    }

    description_found :
        (id : String) (b : SoftBus N) {d : SoftDevice N}
        → lookup id b ≡ some d
        → (soft_bus decode).description id b ≡ describe d
    unfolding soft_bus
    description_found id b found = ground arith

    -- Setting a digital output to `on` and toggling it.
    switch_toggle :
        (id : String) (b : SoftBus N) (on : Bool) {d : SoftDevice N}
        → lookup id b ≡ some d
        → d.kind ≡ digital_output_device
        → (on_device (guarded digital_output_device (λ v. some (bool on))) id b
            >>= on_device (guarded digital_output_device negated) id
            >>= (soft_bus decode).description id)
          ≡ some (record { id = d.id; kind = d.kind; state = digital (not on) })
    unfolding soft_bus
    switch_toggle id b on {d} found kind =
        let set_to : SoftDevice N = record d { value = bool on } in
        let opposite : SoftDevice N = record d { value = bool (not on) } in
        let first =
          on_device_met (guarded digital_output_device (λ v. some (bool on))) id b found
            (guarded_met digital_output_device (λ v. some (bool on)) d kind refl) in
        let second =
          on_device_met (guarded digital_output_device negated) id (insert id set_to b)
            (lookup-insert_self id set_to b)
            (guarded_met digital_output_device negated set_to kind refl) in
        let third =
          description_found id (insert id opposite (insert id set_to b))
            (lookup-insert_self id opposite (insert id set_to b))
          ∙ describe_digital opposite (not on) kind refl in
        rw (first, second, third)

    -- A digital output shows true after TurnOn and false after TurnOff, whatever it had; a toggling then
    -- shows the opposite. But a device that has no value yet shows false, and its toggling panics.
    pub description-toggle :
        (id : String) (b : SoftBus N) {d : SoftDevice N}
        → lookup id b ≡ some d
        → d.kind ≡ digital_output_device
        → (let bus = soft_bus decode in
            let shown : Bool → DeviceDescription N =
              λ on. record { id = d.id; kind = d.kind; state = digital on } in
            ((bus.turn_on id b >>= bus.toggle id >>= bus.description id) ≡ some (shown false))
            × ((bus.turn_off id b >>= bus.toggle id >>= bus.description id) ≡ some (shown true))
            × (d.value ≡ null
                → (bus.description id b ≡ some (shown false)) × (bus.toggle id b ≡ none)))
    unfolding soft_bus
    description-toggle id b {d} found kind = (
      switch_toggle id b true found kind,
      switch_toggle id b false found kind,
      λ fresh. (
        description_found id b found ∙ describe_fresh d kind fresh,
        toggle_fresh id b found kind fresh,
      ),
    )
