-- ===== src/Types/Time/Parsing.antt =====
-- types/types.go: times as texts. The zone of the process is an argument.
use chik.Prelude.{
  Bool, List, Option, [], false, if◌then◌else◌, ltb, nat_eq, none, some, string_eq, suc, true, ℕ,
  ◌%◌, ◌*◌, ◌++◌, ◌+◌, ◌/◌, ◌==◌, ◌∷◌,
}
use chik.Decimal.{digits}
use chik.Prelude.Int.{int_eq, ltb_ℤ, negsuc, pos, pos_part, sub_ℕ, ℤ, ◌+ℤ◌, ◌-ℤ◌}
use chik.Types.Time.{TimeIndication}
use chik.Types.Time.Calendar.{date_of_day, day_of_date}
use chik.Types.Time.Layouts.{TimeFields, parse_fields}

-- The seconds by which the clocks of the zone are ahead of UTC, at an instant.
abbrev pub Location : Type 0
Location = ℤ → ℤ

-- The years and the seconds from the absolute zero to the year 0 and to the epoch.
abbrev pub zero_years : ℕ
zero_years = 292277022400

abbrev pub zero_seconds : ℕ
zero_seconds = 9223372028715321600

abbrev pub seconds_per_day : ℕ
seconds_per_day = 86400

-- What the clock of the zone shows at an instant, in seconds from the absolute zero; the last eight billion
-- seconds before it that an int64 reaches are left out.
unfoldable pub local_seconds : Location → TimeIndication → ℕ
local_seconds local t = pos_part (t +ℤ local t +ℤ pos zero_seconds)

-- `time.Date`: the offset of the zone is taken at the instant that would have the clock in UTC, and again
-- at the instant that this offset gives.
unfoldable pub instant_of : Location → ℕ → TimeIndication
instant_of local seconds =
    let unix = pos seconds -ℤ pos zero_seconds in unix -ℤ local (unix -ℤ local unix)

abbrev pub clock : ℕ → ℕ → ℕ → ℕ
clock hour minute second = hour * 3600 + minute * 60 + second

-- The fields of a date after the absolute zero; years are those of the calendar.
unfoldable pub seconds_of : TimeFields → ℕ
seconds_of f =
    day_of_date (record { year = f.year + zero_years; month = f.month; day = f.day })
      * seconds_per_day
    + clock f.hour f.minute f.second

-- The date of now with the time of the fields, at the end of its minute, or a day later if that is past.
unfoldable pub next_at : Location → (now : TimeIndication) → TimeFields → TimeIndication
next_at local now f =
    let today = day_of_date (date_of_day (local_seconds local now / seconds_per_day)) in
    let result = instant_of local (today * seconds_per_day + clock f.hour f.minute 59) in
    if ltb_ℤ result now then result +ℤ pos seconds_per_day else result

-- `ParseTimeIndication`; `none` is an error.
unfoldable pub parse_time_indication :
    Location → (now : TimeIndication) → List ℕ → Option TimeIndication
parse_time_indication local now text = elim (parse_fields text) [
  | none ↦ none
  | some f ↦
      if f.year == 0 then some (next_at local now f) else some (instant_of local (seconds_of f))
]

-- Numbers with two digits, and with at least four; a year before 0 has a sign.
abbrev pub two : ℕ → List ℕ
two n = (b'0' + n / 10) ∷ (b'0' + n % 10) ∷ []

unfoldable pub four : ℕ → List ℕ
unfolding digits
four n = if ltb n 10000 then two (n / 100) ++ two (n % 100) else digits (suc n) n

abbrev pub year_text : ℤ → List ℕ
year_text (pos n) = four n
year_text (negsuc n) = b'-' ∷ four (suc n)

abbrev pub timed : (hour minute second : ℕ) → List ℕ
timed hour minute second = two hour ++ b':' ∷ (two minute ++ b':' ∷ two second)

abbrev pub dashed : (month day : ℕ) → List ℕ → List ℕ
dashed month day rest = b'-' ∷ (two month ++ b'-' ∷ (two day ++ b' ' ∷ rest))

-- `time.Unix(…).Format("2006-01-02 15:04:05")`.
unfoldable pub format_time : Location → TimeIndication → List ℕ
format_time local t =
    let seconds = local_seconds local t in
    let date = date_of_day (seconds / seconds_per_day) in
    year_text (sub_ℕ date.year zero_years)
    ++ dashed date.month date.day
        (timed (seconds % seconds_per_day / 3600) (seconds / 60 % 60) (seconds % 60))

-- `MarshalJSON`.
unfoldable pub marshal_json : Location → TimeIndication → List ℕ
marshal_json local t = b'"' ∷ (format_time local t ++ b'"' ∷ [])

-- `UnmarshalJSON`, with the value that it leaves and whether there is no error; `unquote` is json.Unmarshal
-- of a text. A text that is no time leaves the epoch.
unfoldable pub unmarshal_json :
    (unquote : List ℕ → Option (List ℕ))
    → Location
    → (now : TimeIndication) → List ℕ
    → (old : TimeIndication) → TimeIndication × Bool
unmarshal_json unquote local now data_text old = elim (unquote data_text) [
  | none ↦ (old, false)
  | some text ↦ elim (parse_time_indication local now text) [
    | none ↦ (pos 0, false)
    | some t ↦ (t, true)
  ]
]
