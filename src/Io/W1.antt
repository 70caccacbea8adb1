-- ===== src/Io/W1.antt =====
-- handlers/io/bus/w1bus/w1bus.go: thermometers on a 1-wire bus. What a read of the file of a device returns
-- is an argument (`none` is a failed read, and a read has at most 128 bytes), and so is strconv.ParseFloat
-- for float32 (`none` is an error).
pub mod Sensing
use chik.Prelude.{
  Bool, List, Option, String, [], but_last, drop, false, if◌then◌else◌, length, ltb, nat_eq, none,
  not, some, string_eq, take, true, ℕ, ◌&&◌, ◌++◌, ◌-◌, ◌==◌, ◌∷◌,
}
use chik.Decimal.{is_digit}
use chik.Io.Bus.{Bus, analog, analog_input_device}
use chik.Io.Mapped.{DeviceMethods, by_key, mapped_bus}
use chik.Json.{Value}
use chik.Prelude.Dict.{Dict, insert, lookup}

-- `[0-9]+$`: the digits up to the end of the text, if there are any and nothing else.
abbrev pub all_digits : List ℕ → Bool
all_digits [] = true
all_digits (c ∷ cs) = is_digit c && all_digits cs

abbrev pub is_empty : List ℕ → Bool
is_empty [] = true
is_empty (c ∷ cs) = false

-- The group of the regular expression, where ` t=` stands at the start of the text.
unfoldable pub after_mark : List ℕ → Option (List ℕ)
after_mark (a ∷ b ∷ c ∷ cs) =
    if (a == b' ' && (b == b't' && c == b'=')) && (not (is_empty cs) && all_digits cs)
    then some cs
    else none
after_mark _ = none

-- The group of the first match in the text.
unfoldable pub find_temperature : List ℕ → Option (List ℕ)
unfolding after_mark
find_temperature [] = none
find_temperature (c ∷ cs) =
    let later = find_temperature cs in
    elim (after_mark (c ∷ cs)) [ none ↦ later | some ds ↦ some ds ]

-- The decimal point before the last three digits; with fewer digits the slice panics.
unfoldable pub with_point : List ℕ → Option (List ℕ)
with_point ds =
    let l = length ds in if ltb l 3 then none else some (take (l - 3) ds ++ b'.' ∷ drop (l - 3) ds)

-- `buffer[:size-1]`.
abbrev pub without_last : List ℕ → List ℕ
without_last [] = []
without_last (c ∷ cs) = but_last c cs

pub record W1Device (N : Type 0) : Type 0 where
  pub id : String
  pub device_id : String
  pub value : N

module _ {N : Type 0} (parse_float : List ℕ → Option N) where
  -- `getCurrentValue` after the match; `none` is a panic.
  unfoldable pub from_match : Option (List ℕ) → W1Device N → Option (W1Device N)
  unfolding with_point
  from_match none d = some d
  from_match (some ds) d = elim (with_point ds) [
    | none ↦ none
    | some text ↦ elim (parse_float text) [ none ↦ some d | some x ↦ some (record d { value = x }) ]
  ]

  -- `getCurrentValue`. An empty file gives the error EOF.
  unfoldable pub get_current_value : Option (List ℕ) → W1Device N → Option (W1Device N)
  unfolding find_temperature from_match
  get_current_value none d = some d
  get_current_value (some []) d = some d
  get_current_value (some (c ∷ cs)) d = from_match (find_temperature (without_last (c ∷ cs))) d

  -- A round of `getValues` over the map, in the order that the map is ranged over: the devices and the
  -- identifiers that are reported. Go's `==` of float32 is an argument.
  unfoldable pub get_values :
      (same_float : N → N → Bool) (reading : String → Option (List ℕ))
      → List String
      → Dict String (W1Device N)
      → Option (Dict String (W1Device N) × List String)
  unfolding get_current_value
  get_values same_float reading [] b = some (b, [])
  get_values same_float reading (id ∷ ids) b = elim (lookup id b) [
    | none ↦ get_values same_float reading ids b
    | some d ↦ elim (get_current_value (reading d.device_id) d) [
      | none ↦ none
      | some d' ↦ elim (get_values same_float reading ids (insert id d' b)) [
        | none ↦ none
        | some (b', more) ↦ some (b', if same_float d.value d'.value then more else id ∷ more)
      ]
    ]
  ]

-- A thermometer is neither a DigitalDevice nor an AnalogDevice.
abbrev pub w1_methods : {N : Type 0} → DeviceMethods N (W1Device N)
w1_methods = record {
  kind = λ d. analog_input_device;
  description =
      λ d. some (record { id = d.id; kind = analog_input_device; state = analog d.value });
  turn_on = λ d. none;
  turn_off = λ d. none;
  toggle = λ d. none;
  set_value = λ x d. none;
  add_value = λ x d. none;
}

unfoldable pub w1_bus :
    {N : Type 0} (decode : Option (Value N) → List (W1Device N)) → Bus N (Dict String (W1Device N))
unfolding mapped_bus by_key
w1_bus decode = mapped_bus w1_methods (λ config b. by_key (λ d. d.id) (decode config) [])
