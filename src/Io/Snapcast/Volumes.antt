-- ===== src/Io/Snapcast/Volumes.antt =====
-- What the devices of a client show, and what the server is told.
use chik.Prelude.{
  Bool, Bool-cases, Option, String, [], arith, false, if◌then◌else◌, inl, inr, nat_eq, not, refl,
  some, string_eq, sym, true, ◌++◌, ◌==◌, ◌∷◌, ◌≡◌, ◌⊎◌,
}
use chik.Io.Bus.{DeviceDescription}
use chik.Io.Snapcast.{
  Side, SnapcastBus, SnapcastDevice, change_volume, describe_side, device_id, loudness, mute,
  mute_to, snapcast_bus, toggle_mute, volume_by, volume_to,
}
use chik.Io.Snapcast.Addressing.{find_device-device_id}
use chik.Prelude.Dict.{lookup, lookup-insert_self}
use chik.Prelude.Int.{int_beq_iff, int_eq, ℤ, ◌+ℤ◌}
use chik.Snapcast.Structs.{Volume}

module _ {N : Type 0} (of_int : ℤ → N) (round : N → ℤ) where
  -- What Description shows of the two devices of a client.
  abbrev pub shown : Side → String → SnapcastBus → Option (DeviceDescription N)
  shown side raw b = (snapcast_bus of_int round).description (device_id side raw) b

  shown_lem :
      (side : Side) (raw : String) (b : SnapcastBus) {d : SnapcastDevice}
      → lookup raw b.devices ≡ some d
      → shown side raw b ≡ some (describe_side of_int round side d)
  unfolding snapcast_bus
  shown_lem side raw b found = ground (arith, find_device-device_id side raw b)

  -- After a change of the volume of a client.
  abbrev pub Changed : Side → SnapcastDevice → Volume → SnapcastBus → SnapcastBus → Type 0
  Changed side d v b b' =
      (shown mute d.id b' ≡ some (describe_side of_int round mute (record d { volume = v })))
      × (shown loudness d.id b'
          ≡ some (describe_side of_int round loudness (record d { volume = v })))
      × (b'.sent ≡ b.sent ++ (d.id, v) ∷ [])
      × (b'.changes ≡ b.changes ++ device_id side d.id ∷ [])

  change_volume-Changed :
      (side : Side) (d : SnapcastDevice) (v : Volume) (b : SnapcastBus)
      → Changed side d v b (change_volume side d v b)
  change_volume-Changed side d v b =
      let there : lookup d.id (change_volume side d v b).devices ≡ some (record d { volume = v }) =
        unfold change_volume in lookup-insert_self d.id _ b.devices in
      (
        shown_lem mute d.id _ there,
        shown_lem loudness d.id _ there,
        unfold change_volume in refl,
        unfold change_volume in refl,
      )

  mute_to_cases :
      (on : Bool) (d : SnapcastDevice) (b : SnapcastBus)
      → (let v : Volume = record { muted = on; percent = d.volume.percent } in
          ((d.volume.muted ≡ on) × (mute_to on d b ≡ b)) ⊎ Changed mute d v b (mute_to on d b))
  mute_to_cases on d b = elim (Bool-cases (if d.volume.muted then on else not on)) [
    | inl same ↦ inl (ground arith, unfold mute_to in rw same refl)
    | inr other ↦ inr (unfold mute_to in rw other (change_volume-Changed mute d _ b))
  ]

  volume_to_cases :
      (n : ℤ) (d : SnapcastDevice) (b : SnapcastBus)
      → (let v : Volume = record { muted = d.volume.muted; percent = n } in
          ((d.volume.percent ≡ n) × (volume_to n d b ≡ b))
          ⊎ Changed loudness d v b (volume_to n d b))
  volume_to_cases n d b = elim (Bool-cases (n == d.volume.percent)) [
    | inl same ↦
        inl (sym ((int_beq_iff n d.volume.percent).0 same), unfold volume_to in rw same refl)
    | inr other ↦ inr (unfold volume_to in rw other (change_volume-Changed loudness d _ b))
  ]

  -- Muting a client or not, toggling its mute, setting its volume and changing it: where nothing would
  -- change, TurnOn, TurnOff and SetValue leave everything as it is. Otherwise the two devices of the client
  -- show the new volume, of which only the asked part is another one, the server is told exactly once what
  -- they show, and exactly the device that was called is reported.
  pub volume_changes :
      (x : N) (d : SnapcastDevice) (b : SnapcastBus)
      → lookup d.id b.devices ≡ some d
      → (let bus = snapcast_bus of_int round in
          let v : Volume = d.volume in
          let muted_to : Bool → Volume = λ on. record { muted = on; percent = v.percent } in
          let percent_to : ℤ → Volume = λ n. record { muted = v.muted; percent = n } in
          ((b' : SnapcastBus) × (bus.turn_on (device_id mute d.id) b ≡ some b')
            × (((v.muted ≡ true) × (b' ≡ b)) ⊎ Changed mute d (muted_to true) b b'))
          × ((b' : SnapcastBus) × (bus.turn_off (device_id mute d.id) b ≡ some b')
              × (((v.muted ≡ false) × (b' ≡ b)) ⊎ Changed mute d (muted_to false) b b'))
          × ((b' : SnapcastBus) × (bus.toggle (device_id mute d.id) b ≡ some b')
              × Changed mute d (muted_to (not v.muted)) b b')
          × ((b' : SnapcastBus) × (bus.set_value x (device_id loudness d.id) b ≡ some b')
              × (((v.percent ≡ round x) × (b' ≡ b))
                  ⊎ Changed loudness d (percent_to (round x)) b b'))
          × ((b' : SnapcastBus) × (bus.add_value x (device_id loudness d.id) b ≡ some b')
              × Changed loudness d (percent_to (v.percent +ℤ round x)) b b'))
  unfolding snapcast_bus
  volume_changes x d b found =
      let on_mute = find_device-device_id mute d.id b in
      let on_volume = find_device-device_id loudness d.id b in
      (
        (mute_to true d b, ground (arith, on_mute), mute_to_cases true d b),
        (mute_to false d b, ground (arith, on_mute), mute_to_cases false d b),
        (
          toggle_mute d b,
          ground (arith, on_mute),
          unfold toggle_mute in change_volume-Changed mute d _ b,
        ),
        (volume_to (round x) d b, ground (arith, on_volume), volume_to_cases (round x) d b),
        (
          volume_by (round x) d b,
          ground (arith, on_volume),
          unfold volume_by in change_volume-Changed loudness d _ b,
        ),
      )
