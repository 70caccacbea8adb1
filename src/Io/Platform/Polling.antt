-- ===== src/Io/Platform/Polling.antt =====
-- The loops of the buses remove no device.
use chik.Prelude.{
  Bool, List, Option, Option-cases, String, [], arith, false, inl, inr, nat_eq, none, refl, some,
  string_eq, true, ℕ, ◌++◌, ◌∷◌, ◌≡◌,
}
use chik.Io.Mapped.{mapped_bus}
use chik.Io.Modbus.{ModbusDevice, poll_group}
use chik.Io.Modbus.Polling.{
  Groups, ModbusBus, Polled, bits_of, devices_of, modbus_bus, query_device_changes, query_group,
  query_registers, store_all, then_poll,
}
use chik.Io.Platform.{
  AnyBus, BusLoop, Hardware, any_bus, either_bus, modbus_poll, snapcast_clients, snapcast_notice,
  unipi_poll, w1_poll,
}
use chik.Io.Platform.Choosing.{Keeps}
use chik.Io.Snapcast.{
  Notification, SnapcastDevice, clients_of, find_device, load_client, load_clients, on_connect,
  on_disconnect, on_notify, on_volume_changed, other_notification, parse_id, report_both,
  snapcast_bus, store_volume, update_known_clients,
}
use chik.Io.Unipi.{UnipiBus, fetch_status, poll_device, poll_devices, unipi_bus, value_path}
use chik.Io.W1.{W1Device, get_current_value, get_values, w1_bus}
use chik.Json.{Numbers}
use chik.Prelude.Dict.{Dict, insert, lookup, lookup-insert}
use chik.Prelude.Int.{int_eq, ℤ}
use chik.Snapcast.Structs.{Client, Volume}

abbrev pub is_in : {D : Type 0} → String → Dict String D → Bool
is_in id b = elim (lookup id b) [ none ↦ false | some d ↦ true ]

-- Every entry of the first map has one in the second.
abbrev pub Grows : {D : Type 0} → Dict String D → Dict String D → Type 0
Grows b b' = (id : String) → is_in id b ≡ true → is_in id b' ≡ true

insert-Grows : {D : Type 0} (id : String) (d : D) (b : Dict String D) → Grows b (insert id d b)
insert-Grows id d b other there = ground (arith, lookup-insert id other d b)

poll_device-Grows :
    (reading : String → Option (List ℕ)) (id : String) (b : UnipiBus)
    → Grows b (poll_device reading id b).0
unfolding poll_device
poll_device-Grows reading id b other there = elim (Option-cases (lookup id b)) [
  | inl missing ↦ ground (arith, missing)
  | inr (d, found) ↦ elim (Option-cases (fetch_status (reading (value_path d)) d)) [
    | inl unread ↦ ground (arith, found, unread)
    | inr (d', got) ↦ ground (arith, found, got, insert-Grows id d' b other there)
  ]
]

poll_devices-Grows :
    (reading : String → Option (List ℕ)) (ids : List String) (b : UnipiBus)
    → Grows b (poll_devices reading ids b).0
unfolding poll_devices
poll_devices-Grows reading [] b other there = there
poll_devices-Grows reading (id ∷ ids) b other there =
    poll_devices-Grows reading ids (poll_device reading id b).0 other
      (poll_device-Grows reading id b other there)

module _ {N : Type 0} (parse_float : List ℕ → Option N) (same_float : N → N → Bool)
    (reading : String → Option (List ℕ)) where
  get_values-Grows :
      (ids : List String) (b : Dict String (W1Device N)) {b' : Dict String (W1Device N)}
      {changes : List String}
      → get_values parse_float same_float reading ids b ≡ some (b', changes)
      → Grows b b'
  unfolding get_values
  get_values-Grows [] b {b'} got other there =
      let same : b ≡ b' = ground (arith, got) in rw (← same) there
  get_values-Grows (id ∷ ids) b got other there = elim (Option-cases (lookup id b)) [
    | inl missing ↦ get_values-Grows ids b (rw (missing, get_values) at got) other there
    | inr (d, found) ↦ elim (Option-cases (get_current_value parse_float (reading d.device_id) d)) [
      | inl halts ↦ absurd (ground (arith, found, halts))
      | inr (d', read') ↦
          elim (Option-cases (get_values parse_float same_float reading ids (insert id d' b))) [
            | inl halts ↦ absurd (ground (arith, found, read', halts))
            | inr ((b₁, more), later) ↦
                let grown =
                  get_values-Grows ids (insert id d' b) later other
                    (insert-Grows id d' b other there) in
                ground (arith, found, read', later, grown)
          ]
    ]
  ]

store_all-Grows : (devices : List ModbusDevice) (b : ModbusBus) → Grows b (store_all devices b)
store_all-Grows [] b other there = there
store_all-Grows (d ∷ devices) b other there =
    store_all-Grows devices (insert d.id d b) other (insert-Grows d.id d b other there)

-- What a poll of the Modbus bus leaves, if it returns.
abbrev PollGrows : ModbusBus → Polled → Type 0
PollGrows b r = (b' : ModbusBus) (changes : List String) → r ≡ some (b', changes) → Grows b b'

query_group-Grows :
    (response : Option (List ℕ)) (ids : List String) (b : ModbusBus)
    → PollGrows b (query_group response ids b)
unfolding query_group
query_group-Grows response ids b b' ids' got = go response refl
  where
    unread : query_group response ids b ≡ some (b, []) → Grows b b'
    unread same other there = let left : b ≡ b' = ground (arith, got, same) in rw (← left) there

    go : (r : Option (List ℕ)) → response ≡ r → Grows b b'
    go none e = unread (rw e refl)
    go (some []) e = unread (rw e refl)
    go (some (x ∷ [])) e = unread (rw e refl)
    go (some (x ∷ y ∷ z ∷ zs)) e = unread (rw e refl)
    go (some (high ∷ low ∷ [])) e = λ other there.
        elim (Option-cases (poll_group (bits_of 8 low ++ bits_of 8 high) (devices_of ids b))) [
          | inl halts ↦ absurd (ground (arith, rw (e, query_group, halts) at got))
          | inr ((devices, more), found) ↦
              let same : store_all devices b ≡ b' =
                ground (arith, rw (e, query_group, found) at got) in
              rw (← same) (store_all-Grows devices b other there)
        ]

then_poll-Grows :
    (b : ModbusBus) (first : Polled) (next : ModbusBus → Polled)
    → PollGrows b first
    → ((b₁ : ModbusBus) → PollGrows b₁ (next b₁))
    → PollGrows b (then_poll first next)
then_poll-Grows b none next one two b' changes got other there = absurd (ground (arith, got))
then_poll-Grows b (some (b₁, some_changes)) next one two b' changes got other there =
    elim (Option-cases (next b₁)) [
      | inl halts ↦ absurd (ground (arith, halts))
      | inr ((b₂, more), later) ↦
          let same : b₂ ≡ b' = ground (arith, later) in
          rw (← same) (two b₁ b₂ more later other (one b₁ some_changes refl other there))
    ]

module _ (read_register : ℕ → ℕ → Option (List ℕ)) where
  query_registers-Grows :
      (address : ℕ) (registers : Dict ℕ (List String)) (b : ModbusBus)
      → PollGrows b (query_registers read_register address registers b)
  unfolding query_registers
  query_registers-Grows address [] b =
      λ b' ids got other there. let same : b ≡ b' = ground (arith, got) in rw (← same) there
  query_registers-Grows address ((number, ids) ∷ rest) b =
      then_poll-Grows b _ _ (query_group-Grows (read_register address number) ids b)
        (query_registers-Grows address rest)

  query_device_changes-Grows :
      (groups : Groups) (b : ModbusBus) → PollGrows b (query_device_changes read_register groups b)
  unfolding query_device_changes
  query_device_changes-Grows [] b =
      λ b' ids got other there. let same : b ≡ b' = ground (arith, got) in rw (← same) there
  query_device_changes-Grows ((address, registers) ∷ rest) b =
      then_poll-Grows b _ _ (query_registers-Grows address registers b)
        (query_device_changes-Grows rest)

module _ {N : Type 0} (of_int : ℤ → N) (round : N → ℤ) where
  stored-Keeps :
      (id : String) (d : SnapcastDevice) (changes' : List String)
      → Keeps of_int round
          (λ b. record b { devices = insert id d b.devices; changes = b.changes ++ changes' })
  unfolding snapcast_bus find_device
  stored-Keeps id d changes' b other there = elim (Option-cases (parse_id other)) [
    | inl unread ↦ absurd (ground (arith, unread))
    | inr ((s, raw), words) ↦ ground (arith, words, lookup-insert id raw d b.devices)
  ]

  load_client-Keeps : (c : Client) → Keeps of_int round (load_client c)
  unfolding load_client
  load_client-Keeps c b other there =
      let stored =
        stored-Keeps c.id (record { id = c.id; volume = c.config.volume }) (report_both c.id) b
          other there in
      ground (arith, stored)

  load_clients-Keeps : (clients : List Client) → Keeps of_int round (load_clients clients)
  unfolding load_clients
  load_clients-Keeps [] b other there = there
  load_clients-Keeps (c ∷ clients) b other there =
      load_clients-Keeps clients (load_client c b) other (load_client-Keeps c b other there)

  store_volume-Keeps : (id : String) (v : Volume) → Keeps of_int round (store_volume id v)
  unfolding store_volume
  store_volume-Keeps id v b other there = elim (Option-cases (lookup id b.devices)) [
    | inl missing ↦
        rw missing (stored-Keeps id (record { id = id; volume = v }) (report_both id) b other there)
    | inr (d, found) ↦
        rw found (stored-Keeps id (record d { volume = v }) (report_both id) b other there)
  ]

  on_notify-Keeps : (notice : Notification) → Keeps of_int round (on_notify notice)
  unfolding on_notify
  on_notify-Keeps (on_volume_changed none) b other there = there
  on_notify-Keeps (on_volume_changed (some c)) b other there =
      store_volume-Keeps c.id c.volume b other there
  on_notify-Keeps (on_connect none) b other there = there
  on_notify-Keeps (on_connect (some c)) b other there =
      store_volume-Keeps c.id c.config.volume b other there
  on_notify-Keeps (on_disconnect none) b other there = there
  on_notify-Keeps (on_disconnect (some c)) b other there =
      store_volume-Keeps c.id c.config.volume b other there
  on_notify-Keeps other_notification b other there = there

module _ {N P : Type 0} ⦃ops : Numbers N⦄ (hw : Hardware N P) where
  -- No loop of a bus removes a device.
  pub BusLoop-keeps :
      {b b' : AnyBus N P}
      → BusLoop b b'
      → (other : String) → (any_bus hw).device other b ≡ true
      → (any_bus hw).device other b' ≡ true
  unfolding any_bus either_bus unipi_bus w1_bus modbus_bus mapped_bus
  BusLoop-keeps (unipi_poll reading ids b) other there =
      poll_devices-Grows reading ids b other there
  BusLoop-keeps (w1_poll parse_float same_float reading ids changes' b b' got) other there =
      get_values-Grows parse_float same_float reading ids b got other there
  BusLoop-keeps (modbus_poll read_register groups changes' b b' got) other there =
      query_device_changes-Grows read_register groups b b' changes' got other there
  BusLoop-keeps (snapcast_clients status b) other there =
      unfold update_known_clients in
      load_clients-Keeps hw.of_int hw.round (clients_of status.groups) b other there
  BusLoop-keeps (snapcast_notice notice b) other there =
      on_notify-Keeps hw.of_int hw.round notice b other there
