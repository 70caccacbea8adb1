-- ===== src/Types/Time/Calendar.antt =====
-- Go's time package, as types/types.go uses it: days, years and months. Days and years are counted from the
-- absolute zero of the package, the first day of the year -292277022399, whose number is 1 here.
use native.Mathlib.Decide.{dec_lt}
use chik.Prelude.{
  All, Bool, List, [], arith, get_elem?, if◌then◌else◌, length, ltb, nat_eq, none, not, refl, some,
  string_eq, suc, true, zero, ℕ, ◌%◌, ◌&&◌, ◌*◌, ◌+◌, ◌-◌, ◌/◌, ◌<◌, ◌==◌, ◌||◌, ◌∷◌, ◌≡◌, ◌≤◌,
}

abbrev pub is_leap : ℕ → Bool
is_leap y = y % 4 == 0 && (not (y % 100 == 0) || y % 400 == 0)

abbrev pub month_lengths : ℕ → List ℕ
month_lengths y =
    31 ∷ (if is_leap y then 29 else 28) ∷ 31 ∷ 30 ∷ 31 ∷ 30 ∷ 31 ∷ 31 ∷ 30 ∷ 31 ∷ 30 ∷ 31 ∷ []

abbrev pub year_length : ℕ → ℕ
year_length y = if is_leap y then 366 else 365

-- The days of the years before a year.
unfoldable pub days_before_year : ℕ → ℕ
days_before_year y = let p = y - 1 in p * 365 + p / 4 - p / 100 + p / 400

-- The year of a day, and the days of the year before it: cycles of 400, 100, 4 years and one year are
-- cut off. The last of four centuries, and the last of four years, has one day more.
abbrev least_three : ℕ → ℕ
least_three n = if ltb n 3 then n else 3

unfoldable pub year_of : ℕ → ℕ × ℕ
year_of d =
    let r = d % 146097 in
    let b = least_three (r / 36524) in
    let s = r - 36524 * b in
    let u = s % 1461 in
    let e = least_three (u / 365) in
    (400 * (d / 146097) + 100 * b + 4 * (s / 1461) + e + 1, u - 365 * e)

-- The month of a day of a year and the day of the month, all of them counted from 0.
unfoldable pub split_months : List ℕ → ℕ → ℕ × ℕ
split_months [] d = (0, d)
split_months (n ∷ lengths) d =
    let later = split_months lengths (d - n) in if ltb d n then (0, d) else (suc later.0, later.1)

unfoldable pub days_before_month : List ℕ → ℕ → ℕ
days_before_month lengths zero = 0
days_before_month [] (suc m) = 0
days_before_month (n ∷ lengths) (suc m) = n + days_before_month lengths m

-- Months and days are counted from 1.
pub record Date : Type 0 where
  pub year : ℕ
  pub month : ℕ
  pub day : ℕ

unfoldable pub date_of_day : ℕ → Date
date_of_day d =
    let (year, day) = year_of d in
    let (m, n) = split_months (month_lengths year) day in
    record { year = year; month = m + 1; day = n + 1 }

unfoldable pub day_of_date : Date → ℕ
day_of_date t =
    days_before_year t.year + days_before_month (month_lengths t.year) (t.month - 1) + (t.day - 1)

-- The length of a month, counted from 0.
abbrev pub month_length : List ℕ → ℕ → ℕ
month_length lengths m = elim (get_elem? lengths m) [ none ↦ 0 | some n ↦ n ]

abbrev total : List ℕ → ℕ
total [] = 0
total (n ∷ lengths) = n + total lengths

cycles :
    (a b c e : ℕ)
    → b ≤ 3
    → c ≤ 24
    → e ≤ 3
    → days_before_year (400 * a + 100 * b + 4 * c + e + 1)
      ≡ 146097 * a + 36524 * b + 1461 * c + 365 * e
unfolding days_before_year
cycles a b c e hb hc he = omega arith

least_three_le :
    (n : ℕ) → (least_three n ≤ 3) × (least_three n ≤ n) × (least_three n < 3 → least_three n ≡ n)
least_three_le n = (ground arith, ground arith, λ few. ground arith)

year_bounds :
    (d b s : ℕ)
    → (b ≤ 3) × (b ≤ d % 146097 / 36524) × (b < 3 → b ≡ d % 146097 / 36524)
    → s ≡ d % 146097 - 36524 * b
    → s ≤ 36524
year_bounds d b s (three, low, exact) is = elim (dec_lt b 3) [
  | yes few ↦ let e = exact few in omega arith
  | no all ↦ omega arith
]

days_before_year-year_of : (d : ℕ) → days_before_year (year_of d).0 + (year_of d).1 ≡ d
unfolding year_of
days_before_year-year_of d =
    let r = d % 146097 in
    let b = least_three (r / 36524) in
    let s = r - 36524 * b in
    let u = s % 1461 in
    let e = least_three (u / 365) in
    let century = least_three_le (r / 36524) in
    let latest = least_three_le (u / 365) in
    let few = year_bounds d b s century refl in
    let before = cycles (d / 146097) b (s / 1461) e century.0 (omega arith) latest.0 in
    rw before (omega (arith, century.1, latest.1))

days_before_month-split_months :
    (lengths : List ℕ) (d : ℕ)
    → days_before_month lengths (split_months lengths d).0 + (split_months lengths d).1 ≡ d
unfolding split_months days_before_month
days_before_month-split_months [] d = omega arith
days_before_month-split_months (n ∷ lengths) d =
    ground (arith, days_before_month-split_months lengths (d - n))

split_months_bounds :
    (lengths : List ℕ) (d : ℕ)
    → d < total lengths
    → (split_months lengths d).1 < month_length lengths (split_months lengths d).0
unfolding split_months
split_months_bounds [] d below = absurd (omega arith)
split_months_bounds (n ∷ lengths) d below = ground (arith, split_months_bounds lengths (d - n))

leap_cycle :
    (a b c : ℕ) → c ≤ 24 → (c ≡ 24 → b ≡ 3) → is_leap (400 * a + 100 * b + 4 * c + 3 + 1) ≡ true
leap_cycle a b c low whole = elim (dec_lt c 24) [
  | yes part ↦ ground (arith)
  | no all ↦ let three = whole (omega arith) in ground arith
]

century_of_last :
    (d b s : ℕ)
    → (b ≤ 3) × (b ≤ d % 146097 / 36524) × (b < 3 → b ≡ d % 146097 / 36524)
    → s ≡ d % 146097 - 36524 * b
    → s % 1461 ≡ 1460
    → s / 1461 ≡ 24
    → b ≡ 3
century_of_last d b s (three, low, exact) is final whole = elim (dec_lt b 3) [
  | yes few ↦ let e = exact few in absurd (omega arith)
  | no all ↦ omega arith
]

least_year : (y : ℕ) → 365 ≤ year_length y
least_year y = ground arith

leap_year : (y : ℕ) → is_leap y ≡ true → year_length y ≡ 366
leap_year y leap = rw leap

succ-pred : (m : ℕ) → m + 1 - 1 ≡ m
succ-pred m = omega arith

year_of_bounds : (d : ℕ) → (year_of d).1 < year_length (year_of d).0
unfolding year_of
year_of_bounds d =
    let r = d % 146097 in
    let b = least_three (r / 36524) in
    let s = r - 36524 * b in
    let u = s % 1461 in
    let century = least_three_le (r / 36524) in
    let latest = least_three_le (u / 365) in
    let few = year_bounds d b s century refl in
    let least = least_year (year_of d).0 in
    elim (dec_lt (least_three (u / 365)) 3) [
      | yes part ↦ let exact = latest.2 part in omega (arith, exact, least)
      | no all ↦
          let three : least_three (u / 365) ≡ 3 = omega (arith, latest.0) in
          elim (dec_lt u 1460) [
            | yes early ↦ omega (arith, three, least)
            | no late ↦
                let final : u ≡ 1460 = omega arith in
                let leap =
                  leap_cycle (d / 146097) b (s / 1461) (omega arith)
                    (century_of_last d b s century refl final) in
                rw three (
                  omega
                    (arith, leap_year (400 * (d / 146097) + 100 * b + 4 * (s / 1461) + 3 + 1) leap))
          ]
    ]

total_year : (y : ℕ) → total (month_lengths y) ≡ year_length y
total_year y = ground arith

-- A day is found again from its date.
pub day_of_date-date_of_day : (d : ℕ) → day_of_date (date_of_day d) ≡ d
unfolding day_of_date date_of_day
day_of_date-date_of_day d =
    let inner = days_before_month-split_months (month_lengths (year_of d).0) (year_of d).1 in
    let outer = days_before_year-year_of d in
    rw (succ-pred (split_months (month_lengths (year_of d).0) (year_of d).1).0)
      (omega (arith, inner, outer))

within : (lengths : List ℕ) (m k : ℕ) → k < month_length lengths m → m < length lengths
within [] m k below = absurd (omega arith)
within (n ∷ lengths) zero k below = omega arith
within (n ∷ lengths) (suc m) k below = omega (arith, within lengths m k below)

pub date_of_day_bounds :
    (d : ℕ)
    → (1 ≤ (date_of_day d).day)
      × ((date_of_day d).day
          ≤ month_length (month_lengths (date_of_day d).year) ((date_of_day d).month - 1))
      × (1 ≤ (date_of_day d).month)
      × ((date_of_day d).month ≤ 12)
unfolding date_of_day
date_of_day_bounds d =
    let lengths = month_lengths (year_of d).0 in
    let below : (year_of d).1 < total lengths =
      omega (arith, total_year (year_of d).0, year_of_bounds d) in
    let few = split_months_bounds lengths (year_of d).1 below in
    (
      omega arith,
      rw (succ-pred (split_months lengths (year_of d).1).0) (omega (arith, few)),
      omega arith,
      omega (
        arith,
        within lengths (split_months lengths (year_of d).1).0 (split_months lengths (year_of d).1).1
            few,
      ),
    )

short : (lengths : List ℕ) (m : ℕ) → All (λ n. n ≤ 31) lengths → month_length lengths m ≤ 31
short [] m all = omega arith
short (n ∷ lengths) zero (few, all) = few
short (n ∷ lengths) (suc m) (few, all) = short lengths m all

pub short_month : (y m : ℕ) → month_length (month_lengths y) m ≤ 31
short_month y m = short (month_lengths y) m (ground arith)
