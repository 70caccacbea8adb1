-- ===== src/Io/Snapcast.antt =====
-- handlers/io/bus/snapcast/snapcast.go: the clients of a snapcast server as devices, one that mutes a
-- client and one that sets its volume. The state carries what was sent so far: the volumes to the server,
-- whatever it answers, and the identifiers to the channel of changes.
pub mod Requests
pub mod Addressing
pub mod Volumes
pub mod Clients
use Prim.Native.String.{◌++◌ as append}
use chik.Prelude.{
  Bool, List, Option, String, [], drop, false, if◌then◌else◌, length, ltb, nat_eq, none, not, some,
  string_eq, take, true, ◌++◌, ◌==◌, ◌∷◌,
}
use chik.Io.Bus.{
  Bus, DeviceDescription, analog, analog_output_device, digital, digital_output_device, no_kind,
}
use chik.Prelude.Dict.{Dict, insert, lookup}
use chik.Prelude.Int.{int_eq, ℤ, ◌+ℤ◌}
use chik.Snapcast.Structs.{Client, ClientVolume, Group, ServerStatus, Volume}
use chik.Words.{join, split}

pub record SnapcastDevice : Type 0 where
  pub id : String
  pub volume : Volume

pub record SnapcastBus : Type 0 where
  pub devices : Dict String SnapcastDevice
  pub sent : List (String × Volume)
  pub changes : List String

-- The two devices of a client.
pub data Side : Type 0 where
  mute : Side
  loudness : Side

abbrev pub prefix_of : Side → String
prefix_of mute = "snapcast_audio_mute"
prefix_of loudness = "snapcast_audio_volume"

-- `ID`.
abbrev pub device_id : Side → String → String
device_id side id = append (prefix_of side) (append "_" id)

abbrev pub side_of : String → Option Side
side_of prefix =
    if prefix == prefix_of mute
    then some mute
    else if prefix == prefix_of loudness
    then some loudness
    else none

-- The side and the client that `Device` reads from the words of an identifier.
unfoldable pub read_words : List String → Option (Side × String)
unfolding join
read_words splits =
    if ltb (length splits) 3 then none else elim (side_of (join "_" (take 3 splits))) [
      | none ↦ none
      | some side ↦ some (side, join "_" (drop 3 splits))
    ]

unfoldable pub parse_id : String → Option (Side × String)
unfolding split read_words
parse_id id = read_words (split "_" id)

-- `Device`.
unfoldable pub find_device : String → SnapcastBus → Option (Side × SnapcastDevice)
unfolding parse_id lookup
find_device id b = elim (parse_id id) [
  | none ↦ none
  | some (side, raw) ↦ elim (lookup raw b.devices) [ none ↦ none | some d ↦ some (side, d) ]
]

-- A volume is put into the device, sent to the server, and reported for one of the two devices.
unfoldable pub change_volume : Side → SnapcastDevice → Volume → SnapcastBus → SnapcastBus
change_volume side d v b = record b {
  devices = insert d.id (record d { volume = v }) b.devices;
  sent = b.sent ++ (d.id, v) ∷ [];
  changes = b.changes ++ device_id side d.id ∷ [];
}

-- `TurnOn`, `TurnOff` and `Toggle` of a mute device.
unfoldable pub mute_to : Bool → SnapcastDevice → SnapcastBus → SnapcastBus
unfolding change_volume
mute_to on d b =
    if (if d.volume.muted then on else not on)
    then b
    else let v : Volume = d.volume in
      change_volume mute d (record { muted = on; percent = v.percent }) b

unfoldable pub toggle_mute : SnapcastDevice → SnapcastBus → SnapcastBus
unfolding change_volume
toggle_mute d b =
    change_volume mute d (record { muted = not d.volume.muted; percent = d.volume.percent }) b

-- `SetValue` and `AddValue` of a volume device, with the rounded value.
unfoldable pub volume_to : ℤ → SnapcastDevice → SnapcastBus → SnapcastBus
unfolding change_volume
volume_to value d b =
    if value == d.volume.percent
    then b
    else change_volume loudness d (record { muted = d.volume.muted; percent = value }) b

unfoldable pub volume_by : ℤ → SnapcastDevice → SnapcastBus → SnapcastBus
unfolding change_volume
volume_by value d b =
    change_volume loudness d
      (record { muted = d.volume.muted; percent = d.volume.percent +ℤ value }) b

-- A method of the devices of one side; a device of the other side does not have it.
abbrev pub on_side :
    Side → (SnapcastDevice → SnapcastBus → SnapcastBus) → String → SnapcastBus → Option SnapcastBus
on_side mute call id b = elim (find_device id b) [
  | none ↦ none
  | some (side, d) ↦ elim side [ mute ↦ some (call d b) | loudness ↦ none ]
]
on_side loudness call id b = elim (find_device id b) [
  | none ↦ none
  | some (side, d) ↦ elim side [ mute ↦ none | loudness ↦ some (call d b) ]
]

module _ {N : Type 0} (of_int : ℤ → N) (round : N → ℤ) where
  unfoldable pub describe_side : Side → SnapcastDevice → DeviceDescription N
  describe_side mute d = record {
    id = device_id mute d.id;
    kind = digital_output_device;
    state = digital d.volume.muted;
  }
  describe_side loudness d = record {
    id = device_id loudness d.id;
    kind = analog_output_device;
    state = analog (of_int d.volume.percent);
  }

  -- `DeviceIds`.
  abbrev pub all_ids : Dict String SnapcastDevice → List String
  all_ids [] = []
  all_ids ((raw, d) ∷ rest) = device_id loudness d.id ∷ device_id mute d.id ∷ all_ids rest

  -- The bus. `Initialize` sets the address and starts the loop that asks for the clients.
  unfoldable pub snapcast_bus : Bus N SnapcastBus
  unfolding find_device mute_to toggle_mute volume_to volume_by describe_side
  snapcast_bus = record {
    initialize = λ config b. b;
    device = λ id b. elim (find_device id b) [ none ↦ false | some d ↦ true ];
    kind = λ id b. elim (find_device id b) [
      | none ↦ no_kind
      | some (side, d) ↦ elim side [
        | mute ↦ digital_output_device
        | loudness ↦ analog_output_device
      ]
    ];
    description = λ id b. elim (find_device id b) [
      | none ↦ none
      | some (side, d) ↦ some (describe_side side d)
    ];
    turn_on = on_side mute (mute_to true);
    turn_off = on_side mute (mute_to false);
    toggle = on_side mute toggle_mute;
    set_value = λ x. on_side loudness (volume_to (round x));
    add_value = λ x. on_side loudness (volume_by (round x));
    device_ids = λ b. all_ids b.devices;
  }

-- `updateKnownClients`: a client that is not known yet is stored and reported.
abbrev pub report_both : String → List String
report_both id = device_id mute id ∷ device_id loudness id ∷ []

unfoldable pub load_client : Client → SnapcastBus → SnapcastBus
unfolding lookup insert
load_client c b = elim (lookup c.id b.devices) [
  | none ↦ record b {
    devices = insert c.id (record { id = c.id; volume = c.config.volume }) b.devices;
    changes = b.changes ++ report_both c.id;
  }
  | some d ↦ b
]

unfoldable pub load_clients : List Client → SnapcastBus → SnapcastBus
unfolding load_client
load_clients [] b = b
load_clients (c ∷ clients) b = load_clients clients (load_client c b)

abbrev pub clients_of : List Group → List Client
clients_of [] = []
clients_of (g ∷ groups) = g.clients ++ clients_of groups

unfoldable pub update_known_clients : ServerStatus → SnapcastBus → SnapcastBus
unfolding load_clients
update_known_clients status b = load_clients (clients_of status.groups) b

-- The notifications of the server that `OnNotify` handles, decoded (`none` where that fails).
pub data Notification : Type 0 where
  on_volume_changed : Option ClientVolume → Notification
  on_connect : Option Client → Notification
  on_disconnect : Option Client → Notification
  other_notification : Notification

unfoldable pub store_volume : String → Volume → SnapcastBus → SnapcastBus
unfolding lookup insert
store_volume id v b = record b {
  devices = elim (lookup id b.devices) [
    | none ↦ insert id (record { id = id; volume = v }) b.devices
    | some d ↦ insert id (record d { volume = v }) b.devices
  ];
  changes = b.changes ++ report_both id;
}

unfoldable pub on_notify : Notification → SnapcastBus → SnapcastBus
unfolding store_volume
on_notify (on_volume_changed (some changed)) b = store_volume changed.id changed.volume b
on_notify (on_connect (some c)) b = store_volume c.id c.config.volume b
on_notify (on_disconnect (some c)) b = store_volume c.id c.config.volume b
on_notify _ b = b
