-- ===== src/Tests/Times.antt =====
-- Tests of the times.
use chik.Prelude.{
  List, Option, [], ap, arith, if◌then◌else◌, nat_eq, none, refl, some, string_eq, true, ℕ, ◌*◌,
  ◌++◌, ◌-◌, ◌/◌, ◌==◌, ◌∷◌, ◌≡◌,
}
use chik.Actor.Durations.{leading_fraction, leading_int, parse_duration}
use chik.Decimal.{codes}
use chik.Prelude.Int.{int_eq, negsuc, pos, ◌+ℤ◌}
use chik.Tests.Samples.{nat_numbers}
use chik.Types.Time.{TimeIndication, second}
use chik.Types.Time.Calendar.{date_of_day, split_months, year_of}
use chik.Types.Time.Clocks.{IsPlain, shown_date, unmarshal_json-marshal_json}
use chik.Types.Time.Daily.{IsNext, parse_time_indication-IsNext}
use chik.Types.Time.Layouts.{parse_fields}
use chik.Types.Time.Parsing.{
  Location, dashed, format_time, four, local_seconds, marshal_json, parse_time_indication, timed,
  two, unmarshal_json,
}

-- A zone that is an hour ahead of UTC.
abbrev rome : Location
rome t = pos 3600

abbrev leap_noon : TimeIndication
leap_noon = pos 1709206200

-- 2024-02-29 12:30:00
abbrev leap_noon_text : List ℕ
leap_noon_text = b'2' ∷ b'0' ∷ b'2' ∷ b'4' ∷ dashed 2 29 (timed 12 30 0)

format_time_test : format_time rome leap_noon ≡ leap_noon_text
unfolding format_time local_seconds date_of_day year_of split_months four ◌+ℤ◌
format_time_test = refl

-- The year 2023 has no such day.
no_leap_day_test :
    parse_time_indication rome (pos 0) (b'2' ∷ b'0' ∷ b'2' ∷ b'3' ∷ dashed 2 29 (timed 12 30 0))
    ≡ none
unfolding parse_time_indication parse_fields
no_leap_day_test = refl

leap_noon_year : (shown_date rome leap_noon).year ≡ 292277024424
unfolding local_seconds date_of_day year_of split_months ◌+ℤ◌
leap_noon_year = refl

-- Up to the next quote.
abbrev up_to_quote : List ℕ → List ℕ
up_to_quote [] = []
up_to_quote (c ∷ rest) = let later = up_to_quote rest in if c == b'"' then [] else c ∷ later

abbrev strip : List ℕ → Option (List ℕ)
strip [] = none
strip (c ∷ rest) = some (up_to_quote rest)

up_to_quote_lem : (text : List ℕ) → IsPlain text → up_to_quote (text ++ b'"' ∷ []) ≡ text
up_to_quote_lem [] plain = refl
up_to_quote_lem (c ∷ text) (one, plain) = let ih = up_to_quote_lem text plain in ground (arith, ih)

unmarshal_json-marshal_json_example :
    unmarshal_json strip rome (pos 0) (marshal_json rome leap_noon) (pos 0) ≡ (leap_noon, true)
unmarshal_json-marshal_json_example =
    unmarshal_json-marshal_json strip rome (pos 0) leap_noon (pos 0)
      (λ text plain. ap some (up_to_quote_lem text plain)) (λ u after before. refl)
      (omega (arith, leap_noon_year)) (omega (arith, leap_noon_year))

now_shown : local_seconds rome leap_noon ≡ 9223372030424531400
unfolding local_seconds ◌+ℤ◌
now_shown = refl

parse_time_indication-IsNext_example :
    (t : TimeIndication) × (parse_time_indication rome leap_noon (two 7 ++ b':' ∷ two 30) ≡ some t)
    × (parse_time_indication rome leap_noon (timed 7 30 15) ≡ some t)
    × IsNext rome leap_noon 7 30 t
parse_time_indication-IsNext_example =
    parse_time_indication-IsNext rome leap_noon 7 30 15 (λ u after before. refl)
      (omega (arith, now_shown)) (omega arith) (omega arith) (omega arith)

-- The fraction of a unit, rounded down.
abbrev floor_part : ℕ → ℕ → ℕ → ℕ
floor_part value unit scale = value * unit / scale

parse_duration_test :
    (parse_duration floor_part (codes "1h30m") ≡ some (pos (5400 * second)))
    × (parse_duration floor_part (codes "-1.5h") ≡ some (negsuc (5400 * second - 1)))
    × (parse_duration floor_part (codes "90") ≡ none)
    × (parse_duration floor_part (codes "0") ≡ some (pos 0))
unfolding parse_duration leading_int leading_fraction
parse_duration_test = (refl, refl, refl, refl)

-- Two parts whose sum is 2 ^ 64 are read as nothing.
wrapped_duration_test :
    parse_duration floor_part (codes "9223372036854775808ns9223372036854775808ns") ≡ some (pos 0)
unfolding parse_duration leading_int leading_fraction
wrapped_duration_test = refl
