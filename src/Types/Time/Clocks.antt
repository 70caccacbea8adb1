-- ===== src/Types/Time/Clocks.antt =====
-- Times that are written and read, and times of the day.
use native.Mathlib.Decide.{dec_lt}
use chik.Prelude.{
  All, List, Option, [], arith, false, nat_eq, refl, some, string_eq, true, ℕ, ◌%◌, ◌++◌, ◌+◌, ◌-◌,
  ◌/◌, ◌<◌, ◌==◌, ◌∷◌, ◌≡◌, ◌≢◌, ◌≤◌,
}
use chik.Prelude.Int.{abs, int_eq, int_laws, negsuc, pos, pos_part, sub_ℕ, ℤ, ◌+ℤ◌, ◌-ℤ◌, ◌≤ℤ◌}
use chik.Types.Time.{TimeIndication}
use chik.Types.Time.Calendar.{
  Date, date_of_day, date_of_day_bounds, day_of_date-date_of_day, month_lengths, short_month,
  year_of,
}
use chik.Types.Time.Layouts.{TimeFields, is_day_of}
use chik.Types.Time.Parsing.{
  Location, format_time, four, instant_of, local_seconds, marshal_json, parse_time_indication,
  seconds_of, seconds_per_day, unmarshal_json, year_text, zero_seconds, zero_years,
}
use chik.Types.Time.Rereading.{IsTime, four-two, parse_fields_dated}

-- The clocks of the zone are not changed within a number of seconds of an instant.
abbrev pub IsSteady : Location → TimeIndication → ℕ → Type 0
IsSteady local t reach =
    (u : TimeIndication) → t ≤ℤ u +ℤ pos reach → u ≤ℤ t +ℤ pos reach → local u ≡ local t

-- The date that the clock shows.
abbrev pub shown_date : Location → TimeIndication → Date
shown_date local t = date_of_day (local_seconds local t / seconds_per_day)

pub pos_pos_part : (a : ℤ) → 0 < pos_part a → pos (pos_part a) ≡ a
pos_pos_part (pos n) ahead = refl
pos_pos_part (negsuc n) ahead = absurd (omega arith)

back : (a b : ℤ) → a +ℤ b -ℤ b ≡ a
back a b = omega int_laws

pub local_unix :
    (local : Location) (t : TimeIndication)
    → 0 < local_seconds local t
    → pos (local_seconds local t) -ℤ pos zero_seconds ≡ t +ℤ local t
unfolding local_seconds
local_unix local t ahead =
    rw (pos_pos_part (t +ℤ local t +ℤ pos zero_seconds) ahead)
      (back (t +ℤ local t) (pos zero_seconds))

-- An instant is found again from what the clock shows at it.
pub instant_of-local_seconds :
    (local : Location) (t : TimeIndication)
    → 0 < local_seconds local t
    → IsSteady local t (abs (local t))
    → instant_of local (local_seconds local t) ≡ t
unfolding instant_of
instant_of-local_seconds local t ahead steady =
    let unix = local_unix local t ahead in
    let same = steady (t +ℤ local t) (omega int_laws) (omega int_laws) in
    rw (unix, same, back t (local t), back t (local t)) refl

abbrev pub shown_fields : Location → TimeIndication → TimeFields
shown_fields local t =
    let seconds = local_seconds local t in
    let date = shown_date local t in
    record {
      year = date.year - zero_years;
      month = date.month;
      day = date.day;
      hour = seconds % seconds_per_day / 3600;
      minute = seconds / 60 % 60;
      second = seconds % 60;
    }

seconds_of-shown_fields :
    (local : Location) (t : TimeIndication)
    → zero_years ≤ (shown_date local t).year
    → seconds_of (shown_fields local t) ≡ local_seconds local t
unfolding seconds_of
seconds_of-shown_fields local t late =
    let seconds = local_seconds local t in
    let again : (shown_date local t).year - zero_years + zero_years ≡ (shown_date local t).year =
      omega arith in
    rw (again, day_of_date-date_of_day (seconds / seconds_per_day)) (omega arith)

same_months : (y : ℕ) → zero_years ≤ y → month_lengths (y - zero_years) ≡ month_lengths y
same_months y late =
    let fours : (y - zero_years) % 4 ≡ y % 4 = omega arith in
    let centuries : (y - zero_years) % 100 ≡ y % 100 = omega arith in
    let cycles : (y - zero_years) % 400 ≡ y % 400 = omega arith in
    rw (fours, centuries, cycles) refl

first_year : (date_of_day (0 / seconds_per_day)).year ≡ 1
unfolding date_of_day year_of
first_year = refl

ahead_of_zero :
    (local : Location) (t : TimeIndication)
    → zero_years ≤ (shown_date local t).year
    → 0 < local_seconds local t
ahead_of_zero local t late = elim (dec_lt 0 (local_seconds local t)) [
  | yes ahead ↦ ahead
  | no not_ahead ↦
      let none' : local_seconds local t ≡ 0 = omega arith in
      let first = rw (none', first_year) at late in absurd (omega arith)
]

year_text_after : (y : ℕ) → zero_years ≤ y → year_text (sub_ℕ y zero_years) ≡ four (y - zero_years)
year_text_after y late = ground arith

shown_fields-IsTime : (local : Location) (t : TimeIndication) → IsTime (shown_fields local t)
shown_fields-IsTime local t = record {
  hour_in = omega arith;
  minute_in = omega arith;
  second_in = omega arith;
}

shown_day :
    (local : Location) (t : TimeIndication)
    → zero_years ≤ (shown_date local t).year
    → is_day_of (shown_fields local t) ≡ true
shown_day local t late =
    let bounds = date_of_day_bounds (local_seconds local t / seconds_per_day) in
    rw (same_months (shown_date local t).year late) (ground (arith, bounds))

-- In a zone that is steady, a time of the years 1 to 9999 is read as it was written.
pub parse_time_indication-format_time :
    (local : Location) (now t : TimeIndication)
    → IsSteady local t (abs (local t))
    → zero_years < (shown_date local t).year
    → (shown_date local t).year < zero_years + 10000
    → parse_time_indication local now (format_time local t) ≡ some t
unfolding parse_time_indication format_time
parse_time_indication-format_time local now t steady least most =
    let f = shown_fields local t in
    let bounds = date_of_day_bounds (local_seconds local t / seconds_per_day) in
    let dated = year_text_after (shown_date local t).year (omega arith) in
    let fields =
      parse_fields_dated f (omega arith) bounds.2 bounds.3
        (omega (arith, short_month (shown_date local t).year ((shown_date local t).month - 1)))
        (shown_day local t (omega arith)) (shown_fields-IsTime local t) in
    let year : (f.year == 0) ≡ false = ground arith in
    let seconds = seconds_of-shown_fields local t (omega arith) in
    let again = instant_of-local_seconds local t (ahead_of_zero local t (omega arith)) steady in
    rw (parse_time_indication, format_time, dated, fields, year, seconds, again) refl

-- Characters that a JSON text holds as they are.
abbrev pub IsPlain : List ℕ → Type 0
IsPlain = All (λ c. (b' ' ≤ c) × (c ≤ b'~') × (c ≢ b'"') × (c ≢ b'\\'))

-- What json.Unmarshal does with a text in quotes.
abbrev pub Unquotes : (List ℕ → Option (List ℕ)) → Type 0
Unquotes unquote = (text : List ℕ) → IsPlain text → unquote (b'"' ∷ (text ++ b'"' ∷ [])) ≡ some text

format_time-IsPlain :
    (local : Location) (t : TimeIndication)
    → zero_years < (shown_date local t).year
    → (shown_date local t).year < zero_years + 10000
    → IsPlain (format_time local t)
unfolding format_time four
format_time-IsPlain local t least most =
    let seconds = local_seconds local t in
    let bounds = date_of_day_bounds (seconds / seconds_per_day) in
    let few = short_month (shown_date local t).year ((shown_date local t).month - 1) in
    let dated = year_text_after (shown_date local t).year (omega arith) in
    rw (format_time, dated, four-two ((shown_date local t).year - zero_years) (omega arith))
      (omega arith)

-- In a zone that is steady, a time of the years 1 to 9999 is unmarshalled as it was marshalled.
pub unmarshal_json-marshal_json :
    (unquote : List ℕ → Option (List ℕ)) (local : Location) (now t old : TimeIndication)
    → Unquotes unquote
    → IsSteady local t (abs (local t))
    → zero_years < (shown_date local t).year
    → (shown_date local t).year < zero_years + 10000
    → unmarshal_json unquote local now (marshal_json local t) old ≡ (t, true)
unfolding unmarshal_json marshal_json
unmarshal_json-marshal_json unquote local now t old unquotes steady least most =
    let plain = unquotes (format_time local t) (format_time-IsPlain local t least most) in
    let again = parse_time_indication-format_time local now t steady least most in
    rw (unmarshal_json, marshal_json, plain, again) refl
