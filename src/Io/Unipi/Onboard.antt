-- ===== src/Io/Unipi/Onboard.antt =====
-- The Unipi bus as a bus, and its poll.
use chik.Prelude.{
  AllDistinct, Bool, List, Option, Option-cases, String, [], arith, beq_self, contains, eq_iff,
  false, if◌then◌else◌, inl, inr, keep_if, nat_eq, none, not, refl, some, string_eq, ℕ, ◌==◌, ◌∷◌,
  ◌≡◌, ◌≢◌,
}
use chik.Io.Bus.{BusLaws}
use chik.Io.Mapped.Local.{mapped_bus-BusLaws}
use chik.Io.Unipi.{
  UnipiBus, UnipiDevice, add_pin, fetch_status, kind_of, pin_methods, poll_device, poll_devices,
  put_level, set_pin, toggle_pin, unipi_bus, value_path, write_status,
}
use chik.Json.{Value}
use chik.Prelude.Dict.{lookup, lookup-insert}
use chik.Prelude.Int.{int_eq, ℤ}

module _ {N : Type 0} (of_int : ℤ → N) (round : N → ℤ) where
  -- The Unipi bus keeps the contract of a bus: each call changes at most the device that it is for, and
  -- the kind of none.
  pub unipi_bus-BusLaws :
      (decode : Option (Value N) → List UnipiDevice) (reading : String → Option (List ℕ))
      → BusLaws (unipi_bus of_int round decode reading)
  unfolding unipi_bus put_level toggle_pin set_pin add_pin write_status kind_of
  unipi_bus-BusLaws decode reading =
      mapped_bus-BusLaws (pin_methods of_int round) _ (λ d d' got. ground arith)
        (λ d d' got. ground arith) (λ d d' got. ground arith) (λ x d d' got. ground arith)
        (λ x d d' got. ground arith)

-- What a poll shows of a device: the status of its file, or the old one where that cannot be read.
abbrev pub polled : (reading : String → Option (List ℕ)) → UnipiDevice → UnipiDevice
polled reading d = elim (fetch_status (reading (value_path d)) d) [ none ↦ d | some d' ↦ d' ]

poll_device_lem :
    (reading : String → Option (List ℕ)) (id asked : String) (b : UnipiBus)
    → lookup asked (poll_device reading id b).0 ≡ (
        if id == asked
        then elim (lookup asked b) [ none ↦ none | some d ↦ some (polled reading d) ]
        else lookup asked b)
unfolding poll_device
poll_device_lem reading id asked b = elim (Option-cases (lookup id b)) [
  | inl missing ↦ ground (arith, eq_iff id asked)
  | inr (d, found) ↦ elim (Option-cases (fetch_status (reading (value_path d)) d)) [
    | inl wrong ↦ ground (arith, eq_iff id asked)
    | inr (d', next) ↦ ground (arith, lookup-insert id asked d' b, eq_iff id asked)
  ]
]

-- Whether a poll finds another status.
abbrev pub differs_now : (reading : String → Option (List ℕ)) → UnipiBus → String → Bool
differs_now reading b id = elim (lookup id b) [
  | none ↦ false
  | some d ↦ not (d.status == (polled reading d).status)
]

poll_device_reports :
    (reading : String → Option (List ℕ)) (id : String) (b : UnipiBus)
    → (poll_device reading id b).1 ≡ (if differs_now reading b id then id ∷ [] else [])
unfolding poll_device
poll_device_reports reading id b = elim (Option-cases (lookup id b)) [
  | inl missing ↦ ground arith
  | inr (d, found) ↦ elim (Option-cases (fetch_status (reading (value_path d)) d)) [
    | inl wrong ↦ ground (arith, beq_self ⦃keys = int_eq⦄ d.status)
    | inr (d', next) ↦ ground arith
  ]
]

keep_if_agree :
    (p q : String → Bool) (id : String) (ids : List String)
    → contains id ids ≡ false
    → ((i : String) → i ≢ id → p i ≡ q i)
    → keep_if p ids ≡ keep_if q ids
keep_if_agree p q id [] apart agree = refl
keep_if_agree p q id (i ∷ ids) apart agree =
    ground (arith, keep_if_agree p q id ids, agree i, eq_iff i id)

-- A round of the poll over distinct identifiers leaves each of their devices with the status of its file,
-- or with the old one where the file cannot be read, and every other device as it was; exactly the devices
-- whose status became another one are reported, in their order.
pub poll_devices-reports :
    (reading : String → Option (List ℕ)) (ids : List String) (b : UnipiBus) (asked : String)
    → AllDistinct ids
    → (lookup asked (poll_devices reading ids b).0 ≡ (
        if contains asked ids
        then elim (lookup asked b) [ none ↦ none | some d ↦ some (polled reading d) ]
        else lookup asked b))
      × ((poll_devices reading ids b).1 ≡ keep_if (differs_now reading b) ids)
unfolding poll_devices
poll_devices-reports reading [] b asked distinct = (refl, refl)
poll_devices-reports reading (id ∷ ids) b asked (apart, distinct) =
    let b' : UnipiBus = (poll_device reading id b).0 in
    let (devices, reports) = poll_devices-reports reading ids b' asked distinct in
    let same_change : (i : String) → i ≢ id → differs_now reading b' i ≡ differs_now reading b i =
      λ i other. ground (arith, poll_device_lem reading id i b, eq_iff id i) in
    (
      ground (arith, devices, poll_device_lem reading id asked b, eq_iff id asked),
      rw (poll_device_reports reading id b) (
          ground (
            arith,
            reports,
            keep_if_agree (differs_now reading b') (differs_now reading b) id ids apart same_change,
          )),
    )
