-- ===== src/Io/Remembering.antt =====
-- The buses that the handler remembers have their devices.
use chik.Json.Struct.{◌>>=◌}
use chik.Types.Command.{Action}
use chik.Prelude.{
  Bool-cases, Eq, Option, Option-cases, String, [], arith, beq_self, eq_iff, inl, inr, nat_eq, none,
  refl, some, string_eq, true, ◌==◌, ◌∷◌, ◌≡◌,
}
use chik.Io.Bus.{Bus, DeviceDescription, KeepsDevices}
use chik.Io.Devices.{
  Found, Io, description_on, get_device, has_device, no_device, not_found, on_bus, search,
}
use chik.Io.Handler.{execute_analog, execute_digital}
use chik.Io.Status.{edit_status, finish}
use chik.Json.{Numbers}
use chik.Prelude.Dict.{Dict, insert, lookup, lookup-insert}
use chik.Types.Command.{AnalogCommand}
use chik.Types.Time.{TimeIndication}

module _ {B : Type 0} where
  -- The names are distinct, as in a Go map.
  abbrev pub IsMap : Dict String B → Type 0
  IsMap [] = Unit {0}
  IsMap ((k, v) ∷ entries) = (lookup k entries ≡ none) × IsMap entries

  pub insert-IsMap :
      (key : String) (new : B) (entries : Dict String B)
      → IsMap entries
      → IsMap (insert key new entries)
  unfolding insert
  insert-IsMap key new [] m = (unfold lookup in refl, tt)
  insert-IsMap key new ((k, v) ∷ entries) (fresh, m) = elim (Bool-cases (k == key)) [
    | inl same ↦ rw same (fresh, m)
    | inr other ↦ rw other (
      rw lookup-insert (ground (arith, fresh, eq_iff k key, eq_iff key k)),
      insert-IsMap key new entries m,
    )
  ]

module _ {N B : Type 0} (bus : Bus N B) where
  -- Every remembered bus is there and has the device.
  pub record IsSound (h : Io N B) : Type 0 where
    pub distinct : IsMap h.actuators
    pub remembered :
        (id name : String)
        → lookup id h.bus_by_device ≡ some name
        → has_device bus id name h.actuators ≡ true

  has_device-search :
      (id name : String) (actuators : Dict String B)
      → IsMap actuators
      → search bus id actuators ≡ some name
      → has_device bus id name actuators ≡ true
  unfolding search lookup
  has_device-search id name [] m found = cc
  has_device-search id name ((n, b) ∷ actuators) (fresh, m) found =
      elim (Bool-cases (bus.device id b)) [
        | inl here' ↦ ground (arith, beq_self n)
        | inr away ↦ ground (arith, has_device-search id name actuators m, eq_iff n name)
      ]

  same_devices :
      (asked name other : String) (b b' : B) (actuators : Dict String B)
      → lookup name actuators ≡ some b
      → (bus.device asked b ≡ true → bus.device asked b' ≡ true)
      → has_device bus asked other actuators ≡ true
      → has_device bus asked other (insert name b' actuators) ≡ true
  same_devices asked name other b b' actuators found keeps there =
      ground (arith, lookup-insert name other b' actuators, found, keeps, eq_iff name other)

  pub get_device-IsSound : (id : String) (h : Io N B) → IsSound h → IsSound (get_device bus id h).1
  unfolding get_device
  get_device-IsSound id h s = elim (Option-cases (lookup id h.bus_by_device)) [
    | inr (name, known) ↦ rw (get_device, known) s
    | inl unknown ↦ elim (Option-cases (search bus id h.actuators)) [
      | inl missing ↦ rw (get_device, unknown, missing) s
      | inr (name, found) ↦
          rw (get_device, unknown, found)
            (record {
              distinct = s.distinct;
              remembered = λ asked other kept.
                  let at_id = has_device-search id name h.actuators s.distinct found in
                  let old = s.remembered asked other in
                  ground (
                    arith,
                    lookup-insert id asked name h.bus_by_device,
                    at_id,
                    old,
                    eq_iff id asked,
                  );
            })
    ]
  ]

  -- Another bus of the same name that has at least the same devices.
  pub with_bus-IsSound :
      (name : String) (b b' : B) (h : Io N B)
      → IsSound h
      → lookup name h.actuators ≡ some b
      → ((asked : String) → bus.device asked b ≡ true → bus.device asked b' ≡ true)
      → IsSound (record h { actuators = insert name b' h.actuators })
  with_bus-IsSound name b b' h s found keeps = record {
    distinct = insert-IsMap name b' h.actuators s.distinct;
    remembered = λ asked other kept.
        same_devices asked name other b b' h.actuators found (keeps asked)
          (s.remembered asked other kept);
  }

  module _ (laws : KeepsDevices bus) where
    keeps_push :
        (id : String) (b b' : B) (lit : Option B)
        → bus.turn_on id b ≡ lit
        → (lit >>= λ on. bus.turn_off id on) ≡ some b'
        → (asked : String) → bus.device asked b ≡ true
        → bus.device asked b' ≡ true
    keeps_push id b b' none on ran asked there = absurd (ground (arith, ran))
    keeps_push id b b' (some b₁) on ran asked there =
        laws.turn_off_keeps id b₁ b' ran asked (laws.turn_on_keeps id b b₁ on asked there)

    pub keeps-execute_digital :
        (action : Action) (id : String) (b b' : B)
        → execute_digital bus action id b ≡ some b'
        → (asked : String) → bus.device asked b ≡ true
        → bus.device asked b' ≡ true
    unfolding execute_digital
    keeps-execute_digital action id b b' ran asked there =
        let on = laws.turn_on_keeps id b b' in
        let off = laws.turn_off_keeps id b b' in
        let toggled = laws.toggle_keeps id b b' in
        let pushed = keeps_push id b b' (bus.turn_on id b) refl in
        grind (arith, on, off, toggled, pushed)

    pub keeps-execute_analog :
        (c : AnalogCommand N) (b b' : B)
        → execute_analog bus c b ≡ some (some b')
        → (asked : String) → bus.device asked b ≡ true
        → bus.device asked b' ≡ true
    unfolding execute_analog
    keeps-execute_analog c b b' ran asked there =
        let put = laws.set_value_keeps c.value c.appliance_id b in
        let added = laws.add_value_keeps c.value c.appliance_id b in grind (arith, put, added)

    -- The handler's helpers, for a fixed clock.
    module _ ⦃ops : Numbers N⦄ ⦃keys : Eq N⦄ (format_time : TimeIndication → String)
        (now : TimeIndication) where
      edit_status-IsSound :
          (id : String) (d : Option (DeviceDescription N)) (h : Io N B)
          → IsSound h
          → IsSound (edit_status format_time bus now id d h).0
      edit_status-IsSound id d h s = record { distinct = s.distinct; remembered = s.remembered }

      pub finish-IsSound :
          (id : String) (h : Io N B) → IsSound h → IsSound (finish format_time bus now id h).state
      unfolding finish
      finish-IsSound id h s = go (get_device bus id h).0 refl
        where
          got : IsSound (get_device bus id h).1
          got = get_device-IsSound id h s

          go :
              (f : Found)
              → (get_device bus id h).0 ≡ f
              → IsSound (finish format_time bus now id h).state
          go no_device e = rw (finish, e) s
          go not_found e = rw (finish, e) (edit_status-IsSound id none (get_device bus id h).1 got)
          go (on_bus name) e =
              elim (Option-cases (description_on bus id name (get_device bus id h).1.actuators)) [
                | inl faulty ↦ rw (finish, e, faulty) s
                | inr (d, shown) ↦
                    rw (finish, e, shown)
                      (edit_status-IsSound id (some d) (get_device bus id h).1 got)
              ]
