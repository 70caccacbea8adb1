-- ===== src/Io/Snapcast/Addressing.antt =====
-- The identifiers of the devices, and the clients that they name.
use Prim.Native.String.{◌++◌ as append}
use text.Mathlib.TextLemmas.{cons-append, nil-append}
use chik.Prelude.{List, String, ap, arith, nat_eq, none, some, string_eq, ◌++◌, ◌∙◌, ◌≡◌}
use chik.Io.Snapcast.{
  Side, SnapcastBus, device_id, find_device, loudness, mute, parse_id, prefix_of, read_words,
}
use chik.Prelude.Dict.{lookup}
use chik.Words.{join, join-split, split, split-append}
-- What follows the three words of a prefix.
use text.Mathlib.TextLemmas.{cons-append, nil-append}
use chik.Prelude.{List, String, ap, none, some, ◌++◌, ◌∙◌, ◌≡◌}
use chik.Io.Snapcast.{Side, device_id, parse_id, prefix_of}
use chik.Words.{join, split, split-append}

split_prefixed :
    (side : Side) (raw : String)
    → split "_" (device_id side raw) ≡ split "_" (prefix_of side) ++ split "_" raw
split_prefixed side raw =
    ap (λ (t : String). split "_" (append (prefix_of side) t))
      (cons-append "_" "" raw ∙ ap (λ (t : String). String.◌∷◌ "_" t) (nil-append raw))
    ∙ split-append "_" (prefix_of side) raw

read_words_prefixed :
    (side : Side) (words : List String)
    → read_words (split "_" (prefix_of side) ++ words) ≡ some (side, join "_" words)
unfolding read_words split
read_words_prefixed mute words = ground arith
read_words_prefixed loudness words = ground arith

parse_id-device_id : (side : Side) (raw : String) → parse_id (device_id side raw) ≡ some (side, raw)
unfolding parse_id
parse_id-device_id side raw =
    ap read_words (split_prefixed side raw)
    ∙ read_words_prefixed side (split "_" raw)
    ∙ ap (λ (r : String). some (side, r)) (join-split "_" raw)

-- Device finds, by the identifier of a device of a client, this device: the side and the client with the
-- current volume, whatever characters the client's identifier has; for a client that is not known it
-- returns an error.
pub find_device-device_id :
    (side : Side) (raw : String) (b : SnapcastBus)
    → find_device (device_id side raw) b
      ≡ elim (lookup raw b.devices) [ none ↦ none | some d ↦ some (side, d) ]
unfolding find_device
find_device-device_id side raw b = ground (arith, parse_id-device_id side raw)
