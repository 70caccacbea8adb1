-- ===== src/Io/Devices.antt =====
-- handlers/io/io.go: the devices of the handler. All buses have one type of states here.
use chik.Prelude.{
  Bool, Option, String, [], false, if◌then◌else◌, nat_eq, none, some, string_eq, ◌∷◌,
}
use chik.Io.Bus.{Bus, DeviceDescription}
use chik.Io.Equality.{IoStatus}
use chik.Prelude.Dict.{Dict, insert, lookup}
use chik.StatusHolder.{StatusHolder}

pub record Io (N B : Type 0) : Type 0 where
  pub actuators : Dict String B
  pub bus_by_device : Dict String String
  pub status : StatusHolder (IoStatus N)

-- What `getDevice` returns: the bus of a device, an error, or neither device nor error.
pub data Found : Type 0 where
  on_bus : String → Found
  not_found : Found
  no_device : Found

module _ {N B : Type 0} (bus : Bus N B) where
  -- The first bus that has the device.
  unfoldable pub search : String → Dict String B → Option String
  search id [] = none
  search id ((name, b) ∷ rest) =
      let later = search id rest in if bus.device id b then some name else later

  abbrev pub has_device : String → String → Dict String B → Bool
  has_device id name actuators = elim (lookup name actuators) [
    | none ↦ false
    | some b ↦ bus.device id b
  ]

  -- `getDevice`, which remembers the bus that it found.
  unfoldable pub get_device : String → Io N B → Found × Io N B
  unfolding search
  get_device id h = elim (lookup id h.bus_by_device) [
    | some name ↦ (if has_device id name h.actuators then on_bus name else not_found, h)
    | none ↦ elim (search id h.actuators) [
      | some name ↦ (on_bus name, record h { bus_by_device = insert id name h.bus_by_device })
      | none ↦ (elim h.actuators [ [] ↦ no_device | e ∷ rest ↦ not_found ], h)
    ]
  ]

  abbrev pub description_on : String → String → Dict String B → Option (DeviceDescription N)
  description_on id name actuators = elim (lookup name actuators) [
    | none ↦ none
    | some b ↦ bus.description id b
  ]
