-- ===== src/Io/Soft/Typing.antt =====
-- The values of soft devices have the types that their kinds ask for.
use chik.Prelude.{
  All, Bool, List, Option, Option-cases, String, [], arith, false, if◌then◌else◌, inl, inr, nat_eq,
  none, some, string_eq, true, ◌==◌, ◌||◌, ◌↔◌, ◌∷◌, ◌≡◌, ◌⊎◌,
}
use chik.Io.Bus.{
  DeviceDescription, DeviceKind, analog_input_device, analog_output_device, digital_input_device,
  digital_output_device,
}
use chik.Io.Soft.{
  SoftBus, SoftDevice, describe, guarded, increased, negated, on_device, soft_bus, to_devices,
}
use chik.Io.Softly.{on_device_met}
use chik.Json.{Numbers, Value, bool, null, num}
use chik.Prelude.Dict.{insert, lookup, lookup-insert}

or_fresh : {R S H F : Type 0} → (H → F) → R ⊎ (S × H) → R ⊎ (S × F)
or_fresh fresh (inl runs) = inl runs
or_fresh fresh (inr (stops, halts)) = inr (stops, fresh halts)

module _ {N : Type 0} ⦃ops : Numbers N⦄ where
  -- A digital device has nil or a bool, an analog one nil or a number.
  unfoldable pub is_typed : SoftDevice N → Bool
  is_typed d =
      if d.kind == digital_input_device || d.kind == digital_output_device
      then elim d.value [ null ↦ true | bool b ↦ true | _ ↦ false ]
      else if d.kind == analog_input_device || d.kind == analog_output_device
      then elim d.value [ null ↦ true | num x ↦ true | _ ↦ false ]
      else true

  abbrev pub AllTyped : SoftBus N → Type 0
  AllTyped b = (id : String) (d : SoftDevice N) → lookup id b ≡ some d → is_typed d ≡ true

  describe_iff : (d : SoftDevice N) → ((describe d ≡ none) ↔ (is_typed d ≡ false))
  unfolding describe is_typed
  describe_iff d = (ground arith, ground arith)

  insert-AllTyped :
      (id : String) (d : SoftDevice N) (b : SoftBus N)
      → AllTyped b
      → is_typed d ≡ true
      → AllTyped (insert id d b)
  insert-AllTyped id d b typed fits other d' found =
      ground (arith, lookup-insert id other d b, typed other d')

  -- A call that returns leaves a bus with values of the right types.
  abbrev pub Runs : Option (SoftBus N) → Type 0
  Runs r = (b' : SoftBus N) × (r ≡ some b') × AllTyped b'

  guarded-none :
      (kind : DeviceKind) (change : Value N → Option (Value N)) (d : SoftDevice N)
      → guarded kind change d ≡ none
      → (d.kind ≡ kind) × (change d.value ≡ none)
  unfolding guarded
  guarded-none kind change d got = ground arith

  on_device-Runs :
      (call : SoftDevice N → Option (SoftDevice N)) (id : String) (b : SoftBus N) {d : SoftDevice N}
      → AllTyped b
      → lookup id b ≡ some d
      → ((d' : SoftDevice N) → call d ≡ some d' → is_typed d' ≡ true)
      → Runs (on_device call id b) ⊎ ((on_device call id b ≡ none) × (call d ≡ none))
  unfolding on_device
  on_device-Runs call id b {d} typed found keeps = elim (Option-cases (call d)) [
    | inl halts ↦ inr (ground arith, halts)
    | inr (d', next) ↦ inl (
      insert id d' b,
      on_device_met call id b found next,
      insert-AllTyped id d' b typed (keeps d' next),
    )
  ]

  switched-typed :
      (on : Bool) (d d' : SoftDevice N)
      → is_typed d ≡ true
      → guarded digital_output_device (λ v. some (bool on)) d ≡ some d'
      → is_typed d' ≡ true
  unfolding guarded is_typed
  switched-typed on d d' fits got = ground arith

  negated-typed :
      (d d' : SoftDevice N)
      → is_typed d ≡ true
      → guarded digital_output_device negated d ≡ some d'
      → is_typed d' ≡ true
  unfolding guarded is_typed
  negated-typed d d' fits got = ground arith

  increased-typed :
      (x : N) (d d' : SoftDevice N)
      → is_typed d ≡ true
      → guarded analog_output_device (increased x) d ≡ some d'
      → is_typed d' ≡ true
  unfolding guarded is_typed
  increased-typed x d d' fits got = ground arith

  set-typed :
      (x : N) (d d' : SoftDevice N)
      → is_typed d ≡ true
      → guarded analog_output_device (λ v. some (num x)) d ≡ some d'
      → is_typed d' ≡ true
  unfolding guarded is_typed
  set-typed x d d' fits got = ground arith

  -- A device that has no value yet.
  abbrev pub IsFresh : DeviceKind → SoftDevice N → Type 0
  IsFresh kind d = (d.kind ≡ kind) × (d.value ≡ null)

  negated-none :
      (d : SoftDevice N)
      → is_typed d ≡ true
      → guarded digital_output_device negated d ≡ none
      → IsFresh digital_output_device d
  unfolding guarded is_typed
  negated-none d fits halts = ground arith

  increased-none :
      (x : N) (d : SoftDevice N)
      → is_typed d ≡ true
      → guarded analog_output_device (increased x) d ≡ none
      → IsFresh analog_output_device d
  unfolding guarded is_typed
  increased-none x d fits halts = ground arith

  put-Runs :
      (kind : DeviceKind) (v : Value N) (id : String) (b : SoftBus N) {d : SoftDevice N}
      → AllTyped b
      → lookup id b ≡ some d
      → ((d' : SoftDevice N) → guarded kind (λ w. some v) d ≡ some d' → is_typed d' ≡ true)
      → Runs (on_device (guarded kind (λ w. some v)) id b)
  put-Runs kind v id b {d} typed found keeps =
      elim (on_device-Runs (guarded kind (λ w. some v)) id b typed found keeps) [
        | inl runs ↦ runs
        | inr (stops, halts) ↦ absurd (ground (arith, guarded-none kind (λ w. some v) d halts))
      ]

  shown_if :
      (d : SoftDevice N) → is_typed d ≡ true → (s : DeviceDescription N) × (describe d ≡ some s)
  shown_if d fits = elim (Option-cases (describe d)) [
    | inl halts ↦ absurd (ground (arith, (describe_iff d).0 halts))
    | inr visible ↦ visible
  ]

  to_devices-AllTyped :
      (devices : List (SoftDevice N)) (b : SoftBus N)
      → All (λ d. is_typed d ≡ true) devices
      → AllTyped b
      → AllTyped (to_devices devices b)
  unfolding to_devices
  to_devices-AllTyped [] b all typed = typed
  to_devices-AllTyped (d ∷ devices) b (fits, all) typed =
      to_devices-AllTyped devices (insert d.id d b) all (insert-AllTyped d.id d b typed fits)

  module _ (decode : Option (Value N) → List (SoftDevice N)) where
    pub initialize-AllTyped :
        (config : Option (Value N)) (b : SoftBus N)
        → All (λ d. is_typed d ≡ true) (decode config)
        → AllTyped ((soft_bus decode).initialize config b)
    unfolding soft_bus
    initialize-AllTyped config b all =
        to_devices-AllTyped (decode config) [] all (λ id d found. unfold lookup in cc)

    -- On a bus whose values have the types of their kinds, Description of a device returns, and TurnOn, TurnOff and
    -- SetValue return and leave such a bus. Toggle and AddValue do so too, or panic, and then the device is
    -- a digital output, or an analog one, that has no value yet.
    pub typed-Runs :
        (x : N) (id : String) (b : SoftBus N) {d : SoftDevice N}
        → AllTyped b
        → lookup id b ≡ some d
        → (let bus = soft_bus decode in
            ((s : DeviceDescription N) × (bus.description id b ≡ some s))
            × Runs (bus.turn_on id b)
            × Runs (bus.turn_off id b)
            × Runs (bus.set_value x id b)
            × (Runs (bus.toggle id b)
                ⊎ ((bus.toggle id b ≡ none) × IsFresh digital_output_device d))
            × (Runs (bus.add_value x id b)
                ⊎ ((bus.add_value x id b ≡ none) × IsFresh analog_output_device d)))
    unfolding soft_bus
    typed-Runs x id b {d} typed found =
        let fits = typed id d found in
        let (s, visible) = shown_if d fits in
        (
          (s, ground (arith, found, visible)),
          put-Runs digital_output_device (bool true) id b typed found
              (λ d'. switched-typed true d d' fits),
          put-Runs digital_output_device (bool false) id b typed found
              (λ d'. switched-typed false d d' fits),
          put-Runs analog_output_device (num x) id b typed found (λ d'. set-typed x d d' fits),
          or_fresh (negated-none d fits) (
              on_device-Runs (guarded digital_output_device negated) id b typed found
                (λ d'. negated-typed d d' fits)),
          or_fresh (increased-none x d fits) (
              on_device-Runs (guarded analog_output_device (increased x)) id b typed found
                (λ d'. increased-typed x d d' fits)),
        )
