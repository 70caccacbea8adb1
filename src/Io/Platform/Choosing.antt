-- ===== src/Io/Platform/Choosing.antt =====
-- No method of a bus of the repository removes a device.
use mathlib.Core.Option
use chik.Prelude.{
  Bool, Option, Option-cases, String, arith, false, inl, inr, nat_eq, string_eq, true, ◌≡◌, ◌⊎◌,
}
use chik.Io.Bus.{Bus, BusLaws-KeepsDevices, KeepsDevices, KeepsThere}
use chik.Io.Contract.{buses-BusLaws}
use chik.Io.Gpio.Levels.{gpio_bus-KeepsDevices}
use chik.Io.Platform.{Hardware, any_bus, either_bus}
use chik.Io.Snapcast.{
  Side, SnapcastBus, SnapcastDevice, change_volume, find_device, loudness, mute, mute_to, on_side,
  parse_id, snapcast_bus, toggle_mute, volume_by, volume_to,
}
use chik.Json.{Numbers}
use chik.Prelude.Dict.{lookup-insert}
use chik.Prelude.Int.{int_eq, ℤ}
use chik.Snapcast.Structs.{Volume}

module _ {N A B : Type 0} (left : Bus N A) (right : Bus N B) where
  -- A call of whichever bus there is.
  abbrev pub lifted : (A → Option A) → (B → Option B) → A ⊎ B → Option (A ⊎ B)
  lifted f g b = elim b [ inl x ↦ Option.map inl (f x) | inr y ↦ Option.map inr (g y) ]

  lifted-KeepsThere :
      (f : A → Option A) (g : B → Option B)
      → KeepsThere left f
      → KeepsThere right g
      → KeepsThere (either_bus left right) (lifted f g)
  unfolding either_bus
  lifted-KeepsThere f g first next (inl x) b' ran asked there = elim (Option-cases (f x)) [
    | inl halts ↦ absurd (ground (arith, halts))
    | inr (x', goes) ↦
        let same : inl x' ≡ b' = ground (arith, goes) in rw (← same) (first x x' goes asked there)
  ]
  lifted-KeepsThere f g first next (inr y) b' ran asked there = elim (Option-cases (g y)) [
    | inl halts ↦ absurd (ground (arith, halts))
    | inr (y', goes) ↦
        let same : inr y' ≡ b' = ground (arith, goes) in rw (← same) (next y y' goes asked there)
  ]

  either_bus-KeepsDevices :
      KeepsDevices left → KeepsDevices right → KeepsDevices (either_bus left right)
  unfolding either_bus
  either_bus-KeepsDevices first next = record {
    turn_on_keeps = λ id.
        lifted-KeepsThere (left.turn_on id) (right.turn_on id) (first.turn_on_keeps id)
          (next.turn_on_keeps id);
    turn_off_keeps = λ id.
        lifted-KeepsThere (left.turn_off id) (right.turn_off id) (first.turn_off_keeps id)
          (next.turn_off_keeps id);
    toggle_keeps = λ id.
        lifted-KeepsThere (left.toggle id) (right.toggle id) (first.toggle_keeps id)
          (next.toggle_keeps id);
    set_value_keeps = λ v id.
        lifted-KeepsThere (left.set_value v id) (right.set_value v id) (first.set_value_keeps v id)
          (next.set_value_keeps v id);
    add_value_keeps = λ v id.
        lifted-KeepsThere (left.add_value v id) (right.add_value v id) (first.add_value_keeps v id)
          (next.add_value_keeps v id);
  }

module _ {N : Type 0} (of_int : ℤ → N) (round : N → ℤ) where
  -- A change of the state that removes no device.
  abbrev pub Keeps : (SnapcastBus → SnapcastBus) → Type 0
  Keeps run =
      (b : SnapcastBus) (asked : String)
      → (snapcast_bus of_int round).device asked b ≡ true
      → (snapcast_bus of_int round).device asked (run b) ≡ true

  change_volume-Keeps :
      (side : Side) (d : SnapcastDevice) (v : Volume) → Keeps (change_volume side d v)
  unfolding snapcast_bus find_device change_volume
  change_volume-Keeps side d v b asked there = elim (Option-cases (parse_id asked)) [
    | inl unread ↦ absurd (ground (arith, unread))
    | inr ((s, raw), read) ↦
        ground (arith, read, lookup-insert d.id raw (record d { volume = v }) b.devices)
  ]

  mute_to-Keeps : (on : Bool) (d : SnapcastDevice) → Keeps (mute_to on d)
  unfolding mute_to
  mute_to-Keeps on d b asked there =
      let put =
        change_volume-Keeps mute d (record { muted = on; percent = d.volume.percent }) b asked in
      ground (arith, put)

  volume_to-Keeps : (n : ℤ) (d : SnapcastDevice) → Keeps (volume_to n d)
  unfolding volume_to
  volume_to-Keeps n d b asked there =
      let put =
        change_volume-Keeps loudness d (record { muted = d.volume.muted; percent = n }) b asked in
      ground (arith, put)

  on_mute-KeepsThere :
      (call : SnapcastDevice → SnapcastBus → SnapcastBus) (id : String)
      → ((d : SnapcastDevice) → Keeps (call d))
      → KeepsThere (snapcast_bus of_int round) (on_side mute call id)
  on_mute-KeepsThere call id keeps b b' ran asked there = elim (Option-cases (find_device id b)) [
    | inl missing ↦ absurd (ground (arith, missing))
    | inr ((s, d), found) ↦
        let same : call d b ≡ b' = ground (arith, found) in rw (← same) (keeps d b asked there)
  ]

  on_loudness-KeepsThere :
      (call : SnapcastDevice → SnapcastBus → SnapcastBus) (id : String)
      → ((d : SnapcastDevice) → Keeps (call d))
      → KeepsThere (snapcast_bus of_int round) (on_side loudness call id)
  on_loudness-KeepsThere call id keeps b b' ran asked there =
      elim (Option-cases (find_device id b)) [
        | inl missing ↦ absurd (ground (arith, missing))
        | inr ((s, d), found) ↦
            let same : call d b ≡ b' = ground (arith, found) in rw (← same) (keeps d b asked there)
      ]

  snapcast_bus-KeepsDevices : KeepsDevices (snapcast_bus of_int round)
  unfolding snapcast_bus toggle_mute volume_by
  snapcast_bus-KeepsDevices = record {
    turn_on_keeps = λ id. on_mute-KeepsThere (mute_to true) id (mute_to-Keeps true);
    turn_off_keeps = λ id. on_mute-KeepsThere (mute_to false) id (mute_to-Keeps false);
    toggle_keeps = λ id. on_mute-KeepsThere toggle_mute id (λ d. change_volume-Keeps mute d _);
    set_value_keeps =
        λ x id. on_loudness-KeepsThere (volume_to (round x)) id (volume_to-Keeps (round x));
    add_value_keeps = λ x id.
        on_loudness-KeepsThere (volume_by (round x)) id (λ d. change_volume-Keeps loudness d _);
  }

module _ {N P : Type 0} ⦃ops : Numbers N⦄ (hw : Hardware N P) where
  -- No method of any bus removes a device.
  pub any_bus-KeepsDevices : KeepsDevices (any_bus hw)
  unfolding any_bus
  any_bus-KeepsDevices =
      let (soft, unipi, w1, modbus) =
        buses-BusLaws hw.of_int hw.round hw.decode_soft hw.decode_unipi hw.decode_w1
          hw.decode_modbus hw.reading in
      either_bus-KeepsDevices _ _ (BusLaws-KeepsDevices _ soft) (
        either_bus-KeepsDevices _ _ (gpio_bus-KeepsDevices hw.pins hw.decode_gpio) (
          either_bus-KeepsDevices _ _ (BusLaws-KeepsDevices _ unipi) (
            either_bus-KeepsDevices _ _ (BusLaws-KeepsDevices _ w1) (
              either_bus-KeepsDevices _ _ (BusLaws-KeepsDevices _ modbus)
                (snapcast_bus-KeepsDevices hw.of_int hw.round)))))
