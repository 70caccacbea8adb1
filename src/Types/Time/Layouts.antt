-- ===== src/Types/Time/Layouts.antt =====
-- Go's time package, as types/types.go uses it: `ParseInLocation` by the four layouts of the source, on the
-- bytes of a text, up to the fields of a time.
use chik.Prelude.{
  Bool, List, Option, [], false, if◌then◌else◌, leb, ltb, nat_eq, none, not, some, string_eq, true,
  ℕ, ◌&&◌, ◌*◌, ◌+◌, ◌-◌, ◌==◌, ◌||◌, ◌∷◌,
}
use chik.Decimal.{is_digit}
use chik.Types.Time.Calendar.{month_length, month_lengths}

-- The parts of a layout: those of a time, a character that is expected, and a blank, which stands for any
-- number of them.
pub data Chunk : Type 0 where
  hour_chunk : Chunk
  minute_chunk : Chunk
  second_chunk : Chunk
  year_chunk : Chunk
  month_chunk : Chunk
  day_chunk : Chunk
  expect : ℕ → Chunk
  blank : Chunk

abbrev pub time_layout : List Chunk
time_layout = hour_chunk ∷ expect b':' ∷ minute_chunk ∷ []

abbrev pub seconds_layout : List Chunk
seconds_layout = hour_chunk ∷ expect b':' ∷ minute_chunk ∷ expect b':' ∷ second_chunk ∷ []

abbrev pub dated : List Chunk → List Chunk
dated layout = year_chunk ∷ expect b'-' ∷ month_chunk ∷ expect b'-' ∷ day_chunk ∷ blank ∷ layout

pub record TimeFields : Type 0 where
  pub year : ℕ
  pub month : ℕ
  pub day : ℕ
  pub hour : ℕ
  pub minute : ℕ
  pub second : ℕ

abbrev pub no_fields : TimeFields
no_fields = record { year = 0; month = 1; day = 1; hour = 0; minute = 0; second = 0 }

abbrev pub value_of : ℕ → ℕ
value_of c = c - b'0'

-- `getnum`: one digit or two, and two if it is fixed.
unfoldable pub get_number : (fixed : Bool) → List ℕ → Option (ℕ × List ℕ)
get_number fixed [] = none
get_number fixed (c ∷ []) = if is_digit c && not fixed then some (value_of c, []) else none
get_number fixed (c ∷ d ∷ rest) =
    if not (is_digit c)
    then none
    else if is_digit d
    then some (value_of c * 10 + value_of d, rest)
    else if fixed
    then none
    else some (value_of c, d ∷ rest)

-- A number below a bound, or from 1 to it.
abbrev pub bounded : ℕ → Option (ℕ × List ℕ) → Option (ℕ × List ℕ)
bounded bound none = none
bounded bound (some (n, rest)) = if ltb n bound then some (n, rest) else none

abbrev pub skip_digits : List ℕ → List ℕ
skip_digits [] = []
skip_digits (c ∷ rest) = let later = skip_digits rest in if is_digit c then later else c ∷ rest

-- A fraction of a second that the layout does not have is read, too; it is shorter than a second.
unfoldable pub skip_fraction : List ℕ → List ℕ
skip_fraction (c ∷ d ∷ rest) =
    if (c == b'.' || c == b',') && is_digit d then skip_digits rest else c ∷ d ∷ rest
skip_fraction text = text

abbrev pub skip_blanks : List ℕ → List ℕ
skip_blanks [] = []
skip_blanks (c ∷ rest) = let later = skip_blanks rest in if c == b' ' then later else c ∷ rest

unfoldable pub get_year : List ℕ → Option (ℕ × List ℕ)
get_year (a ∷ b ∷ c ∷ d ∷ rest) =
    if (is_digit a && is_digit b) && (is_digit c && is_digit d)
    then some (((value_of a * 10 + value_of b) * 10 + value_of c) * 10 + value_of d, rest)
    else none
get_year _ = none

abbrev pub Progress : Type 0
Progress = Option (TimeFields × List ℕ)

abbrev pub field_of : (ℕ → TimeFields) → Option (ℕ × List ℕ) → Progress
field_of put none = none
field_of put (some (n, rest)) = some (put n, rest)

abbrev pub not_zero : Option (ℕ × List ℕ) → Option (ℕ × List ℕ)
not_zero none = none
not_zero (some (n, rest)) = if n == 0 then none else some (n, rest)

-- What one part of a layout takes from the text.
unfoldable pub take_chunk : Chunk → TimeFields → List ℕ → Progress
unfolding get_number get_year skip_fraction
take_chunk hour_chunk f text =
    field_of (λ n. record f { hour = n }) (bounded 24 (get_number false text))
take_chunk minute_chunk f text =
    field_of (λ n. record f { minute = n }) (bounded 60 (get_number true text))
take_chunk second_chunk f text = elim (bounded 60 (get_number true text)) [
  | none ↦ none
  | some (n, rest) ↦ some (record f { second = n }, skip_fraction rest)
]
take_chunk year_chunk f text = field_of (λ n. record f { year = n }) (get_year text)
take_chunk month_chunk f text =
    field_of (λ n. record f { month = n }) (not_zero (bounded 13 (get_number true text)))
take_chunk day_chunk f text = field_of (λ n. record f { day = n }) (get_number true text)
take_chunk (expect e) f [] = none
take_chunk (expect e) f (c ∷ rest) = if c == e then some (f, rest) else none
take_chunk blank f [] = some (f, [])
take_chunk blank f (c ∷ rest) = if c == b' ' then some (f, skip_blanks rest) else none

-- The day must be one of the month; no text may be left.
abbrev pub is_day_of : TimeFields → Bool
is_day_of f = leb 1 f.day && leb f.day (month_length (month_lengths f.year) (f.month - 1))

unfoldable pub parse_layout : List Chunk → TimeFields → List ℕ → Option TimeFields
unfolding take_chunk
parse_layout [] f [] = if is_day_of f then some f else none
parse_layout [] f (c ∷ rest) = none
parse_layout (chunk ∷ layout) f text = elim (take_chunk chunk f text) [
  | none ↦ none
  | some (f', rest) ↦ parse_layout layout f' rest
]

-- The first of the four layouts by which a text is read.
abbrev pub or_else : Option TimeFields → Option TimeFields → Option TimeFields
or_else none second = second
or_else (some f) second = some f

unfoldable pub parse_fields : List ℕ → Option TimeFields
unfolding parse_layout
parse_fields text = or_else (parse_layout time_layout no_fields text) (
    or_else (parse_layout seconds_layout no_fields text) (
      or_else (parse_layout (dated time_layout) no_fields text)
        (parse_layout (dated seconds_layout) no_fields text)))
