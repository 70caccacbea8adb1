-- ===== src/Io/Unipi.antt =====
-- handlers/io/bus/unipibus/unipibus.go: digital and analog devices over the files of the system. A device
-- is a record, its file an argument: what a read of a path returns is given (`none` is a failed read, and
-- every read of a file that could not be opened), and what a method writes to it is its second result, one
-- text for each write that succeeds. The fade of a pwm output, which a goroutine of its own writes, is
-- written at once here. The configured identifiers are taken to be distinct.
pub mod Fading
pub mod Files
pub mod Onboard
use Prim.Native.String.{◌++◌ as append}
use chik.Prelude.{
  Bool, List, Option, String, [], but_last, false, get_elem?, if◌then◌else◌, leb, ltb, map, nat_eq,
  none, not, some, string_eq, suc, take, true, zero, ℕ, ◌%◌, ◌&&◌, ◌*◌, ◌++◌, ◌+◌, ◌-◌, ◌/◌, ◌==◌,
  ◌^◌, ◌||◌, ◌∷◌,
}
use chik.Decimal.{digits, itoa, parse_int32}
use chik.Io.Bus.{
  Bus, DeviceDescription, DeviceKind, analog, analog_output_device, digital, digital_input_device,
  digital_output_device,
}
use chik.Io.Mapped.{DeviceMethods, by_key, mapped_bus}
use chik.Json.{Value}
use chik.Prelude.Dict.{Dict, insert, lookup}
use chik.Prelude.Int.{abs, int_eq, ltb_ℤ, negsuc, pos, ℤ, ◌+ℤ◌, ◌-ℤ◌}

abbrev pub UnipiPinType : Type 0
UnipiPinType = ℕ

abbrev pub unipi_digital_input : UnipiPinType
unipi_digital_input = 0

abbrev pub unipi_digital_output : UnipiPinType
unipi_digital_output = 1

abbrev pub unipi_relay_output : UnipiPinType
unipi_relay_output = 2

abbrev pub unipi_analog_output : UnipiPinType
unipi_analog_output = 3

abbrev pub unipi_pwm_output : UnipiPinType
unipi_pwm_output = 4

-- `String` of a pin type.
unfoldable pub pin_name : UnipiPinType → String
pin_name t =
    if t == unipi_digital_input
    then "di"
    else if t == unipi_digital_output || t == unipi_pwm_output
    then "do"
    else if t == unipi_relay_output
    then "ro"
    else if t == unipi_analog_output
    then "ao"
    else ""

pub record UnipiDevice : Type 0 where
  pub id : String
  pub group : ℕ
  pub pin : ℕ
  pub pin_type : UnipiPinType
  pub status : ℤ

-- A method of a device: the device, and what it writes.
abbrev pub Written : Type 0
Written = UnipiDevice × List (List ℕ)

unfoldable pub kind_of : UnipiDevice → DeviceKind
kind_of d =
    if d.pin_type == unipi_digital_input
    then digital_input_device
    else if d.pin_type == unipi_digital_output || d.pin_type == unipi_relay_output
    then digital_output_device
    else if d.pin_type == unipi_analog_output || d.pin_type == unipi_pwm_output
    then analog_output_device
    else digital_input_device

-- The value file of a device.
unfoldable pub value_file : UnipiDevice → String
unfolding pin_name
value_file d =
    if d.pin_type == unipi_pwm_output
    then "pwm_duty_cycle"
    else append (pin_name d.pin_type) "_value"

-- The text of decimal digits, and `%d` and `%02d` of a uint8.
abbrev numerals : List String
numerals = "0" ∷ "1" ∷ "2" ∷ "3" ∷ "4" ∷ "5" ∷ "6" ∷ "7" ∷ "8" ∷ "9" ∷ []

abbrev text_of : List ℕ → String
text_of [] = ""
text_of (c ∷ cs) =
    append (elim (get_elem? numerals (c - b'0')) [ none ↦ "" | some s ↦ s ]) (text_of cs)

abbrev decimal : ℕ → String
decimal n = text_of (digits (suc n) n)

abbrev two_digits : ℕ → String
two_digits n = if ltb n 10 then append "0" (decimal n) else decimal n

-- `path`.
unfoldable pub device_path : UnipiDevice → String
unfolding pin_name digits
device_path d = append "/sys/devices/platform/unipi_plc/io_group" (
    append (decimal d.group) (
      append "/" (
        append (pin_name d.pin_type)
          (append "_" (append (decimal d.group) (append "_" (two_digits d.pin)))))))

-- The path of the value file.
unfoldable pub value_path : UnipiDevice → String
unfolding device_path value_file
value_path d = append (device_path d) (append "/" (value_file d))

-- The buffer has 128 bytes; `buffer[0:size-1]` leaves out the last byte that was read. An empty file gives the error EOF.
unfoldable pub fetch_status : Option (List ℕ) → UnipiDevice → Option UnipiDevice
unfolding parse_int32
fetch_status none d = none
fetch_status (some []) d = none
fetch_status (some (c ∷ cs)) d = elim (parse_int32 (but_last c (take 127 cs))) [
  | none ↦ none
  | some status ↦ some (record d { status = status })
]

-- The text of a status.
abbrev pub line_of : ℤ → List ℕ
line_of n = itoa n ++ b'\n' ∷ []

-- `initialize` opens the file of a digital input for reading only, so that a write to it fails; its error is not
-- looked at.
unfoldable pub through_file : UnipiDevice → List (List ℕ) → List (List ℕ)
unfolding kind_of
through_file d texts = if kind_of d == digital_input_device then [] else texts

-- `TurnOn` and `TurnOff`, of any device.
unfoldable pub put_level : Bool → UnipiDevice → Written
unfolding through_file
put_level true d = (record d { status = pos 1 }, through_file d ((b'1' ∷ b'\n' ∷ []) ∷ []))
put_level false d = (record d { status = pos 0 }, through_file d ((b'0' ∷ b'\n' ∷ []) ∷ []))

-- `status == 1`.
abbrev pub is_one : ℤ → Bool
is_one (pos n) = n == 1
is_one (negsuc n) = false

unfoldable pub toggle_pin : UnipiDevice → Written
unfolding put_level
toggle_pin d = put_level (not (is_one d.status)) d

-- `int(math.Abs(float64(n)))`: a float64 has 53 bits, and what has more is rounded to the nearest, of two the even.
abbrev pub rounded : (e n : ℕ) → ℕ
rounded e n =
    let q = n / 2 ^ e in
    let twice = 2 * (n % 2 ^ e) in
    let up = ltb (2 ^ e) twice || (twice == 2 ^ e && q % 2 == 1) in
    (if up then q + 1 else q) * 2 ^ e

-- The exponents that an int can have, from `e` on.
unfoldable pub rounded_from : (left e : ℕ) → ℕ → ℕ
rounded_from zero e n = n
rounded_from (suc left) e n =
    let higher = rounded_from left (e + 1) n in
    if leb n (2 ^ 53 * 2 ^ e) then rounded e n else higher

unfoldable pub float_abs : ℤ → ℕ
unfolding rounded_from
float_abs n = rounded_from 12 0 (abs n)

-- `from+(i*(absDiff/diff))`, where the second argument has the sign of the quotient and `i` is the product.
abbrev pub step_to : Bool → ℤ → ℕ → ℤ
step_to up from i = if up then from +ℤ pos i else from -ℤ pos i

-- The rounds of the loop from `i` on.
unfoldable pub fade_from : ℕ → ℕ → Bool → (quotient : ℕ) → ℤ → List ℤ
fade_from zero i up quotient from = []
fade_from (suc left) i up quotient from =
    step_to up from (i * quotient) ∷ fade_from left (i + 1) up quotient from

-- `pwmFade`: the values that are written.
unfoldable pub pwm_fade : ℤ → ℤ → List ℤ
unfolding fade_from float_abs
pwm_fade from to =
    let diff = to -ℤ from in
    fade_from (float_abs diff) 1 (ltb_ℤ (pos 0) diff) (float_abs diff / abs diff) from

-- The common end of `SetValue` and `AddValue`. A digital device only gets an error in the log.
unfoldable pub write_status : ℤ → UnipiDevice → Written
unfolding pwm_fade itoa through_file
write_status status d = (
  record d { status = status },
  through_file d (
      map line_of
        (if d.pin_type == unipi_pwm_output then pwm_fade d.status status else status ∷ [])),
)

-- `math.Max(0, ...)`.
abbrev pub at_least_zero : ℤ → ℤ
at_least_zero (pos n) = pos n
at_least_zero (negsuc n) = pos 0

abbrev pub UnipiBus : Type 0
UnipiBus = Dict String UnipiDevice

-- The bodies of the loop of `startPoll`: the devices of the identifiers, and the changes that are
-- reported. A failed read leaves the device.
unfoldable pub poll_device :
    (reading : String → Option (List ℕ)) → String → UnipiBus → UnipiBus × List String
unfolding fetch_status value_path
poll_device reading id b = elim (lookup id b) [
  | none ↦ (b, [])
  | some d ↦ elim (fetch_status (reading (value_path d)) d) [
    | none ↦ (b, [])
    | some d' ↦ (insert id d' b, if d.status == d'.status then [] else id ∷ [])
  ]
]

unfoldable pub poll_devices :
    (reading : String → Option (List ℕ)) → List String → UnipiBus → UnipiBus × List String
unfolding poll_device
poll_devices reading [] b = (b, [])
poll_devices reading (id ∷ ids) b =
    let (b', changed) = poll_device reading id b in
    let (b'', more) = poll_devices reading ids b' in (b'', changed ++ more)

-- The status that `initialize` reads: a device whose file cannot be opened or read keeps its own.
unfoldable pub initialize_device : (reading : String → Option (List ℕ)) → UnipiDevice → UnipiDevice
unfolding fetch_status value_path
initialize_device reading d = elim (fetch_status (reading (value_path d)) d) [
  | none ↦ d
  | some d' ↦ d'
]

-- What `initialize` writes to the files of a pwm output.
unfoldable pub defaults : UnipiDevice → List (String × List ℕ)
unfolding itoa device_path
defaults d =
    if d.pin_type == unipi_pwm_output
    then (append (device_path d) "/pwm_prescale", itoa (pos 800))
      ∷ (append (device_path d) "/pwm_frequency_cycle", itoa (pos 200))
      ∷ []
    else []

-- The polled devices of `Initialize`.
unfoldable pub polled_devices : List UnipiDevice → List String
polled_devices [] = []
polled_devices (d ∷ devices) =
    let more = polled_devices devices in
    if d.pin_type == unipi_digital_input then d.id ∷ more else more

module _ {N : Type 0} (of_int : ℤ → N) (round : N → ℤ) where
  unfoldable pub set_pin : N → UnipiDevice → Written
  unfolding write_status
  set_pin x d = write_status (round x) d

  unfoldable pub add_pin : N → UnipiDevice → Written
  unfolding write_status
  add_pin x d = write_status (at_least_zero (d.status +ℤ round x)) d

  unfoldable pub describe_pin : UnipiDevice → DeviceDescription N
  unfolding kind_of
  describe_pin d = record {
    id = d.id;
    kind = kind_of d;
    state =
        if ltb d.pin_type unipi_analog_output
        then digital (is_one d.status)
        else analog (of_int d.status);
  }

  abbrev pub pin_methods : DeviceMethods N UnipiDevice
  pin_methods = record {
    kind = kind_of;
    description = λ d. some (describe_pin d);
    turn_on = λ d. some (put_level true d).0;
    turn_off = λ d. some (put_level false d).0;
    toggle = λ d. some (toggle_pin d).0;
    set_value = λ x d. some (set_pin x d).0;
    add_value = λ x d. some (add_pin x d).0;
  }

  -- The bus; `decode` reads its configuration, and `reading` the files of the devices.
  unfoldable pub unipi_bus :
      (decode : Option (Value N) → List UnipiDevice) (reading : String → Option (List ℕ))
      → Bus N UnipiBus
  unfolding mapped_bus by_key describe_pin set_pin add_pin put_level toggle_pin kind_of
      initialize_device
  unipi_bus decode reading =
      mapped_bus pin_methods
        (λ config b. by_key (λ d. d.id) (map (initialize_device reading) (decode config)) [])
