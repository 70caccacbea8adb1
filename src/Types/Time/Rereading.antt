-- ===== src/Types/Time/Rereading.antt =====
-- What a layout reads from a text that was made for it.
use chik.Prelude.{
  Bool, Bool-cases, List, [], arith, false, inl, inr, ltb, ltb→lt, none, refl, some, true, ℕ, ◌%◌,
  ◌++◌, ◌/◌, ◌<◌, ◌∙◌, ◌∷◌, ◌≡◌, ◌≤◌,
}
use chik.Types.Time.Layouts.{
  Chunk, TimeFields, blank, dated, day_chunk, expect, get_number, hour_chunk, is_day_of,
  minute_chunk, month_chunk, no_fields, parse_fields, parse_layout, second_chunk, seconds_layout,
  skip_fraction, take_chunk, time_layout, year_chunk,
}
use chik.Types.Time.Parsing.{dashed, four, timed, two}

module _ (layout : List Chunk) (f : TimeFields) (text : List ℕ) where
  parse_step :
      (chunk : Chunk) (f' : TimeFields) (rest : List ℕ)
      → take_chunk chunk f text ≡ some (f', rest)
      → parse_layout (chunk ∷ layout) f text ≡ parse_layout layout f' rest
  unfolding parse_layout
  parse_step chunk f' rest got = rw (parse_layout, got)

  parse_stuck :
      (chunk : Chunk) → take_chunk chunk f text ≡ none → parse_layout (chunk ∷ layout) f text ≡ none
  unfolding parse_layout
  parse_stuck chunk got = rw (parse_layout, got)

get_number-two :
    (fixed : Bool) (n : ℕ) (rest : List ℕ)
    → n < 100
    → get_number fixed (two n ++ rest) ≡ some (n, rest)
unfolding get_number
get_number-two fixed n rest few = ground arith

module _ (f : TimeFields) (n : ℕ) (rest : List ℕ) where
  take_year :
      n < 10000 → take_chunk year_chunk f (four n ++ rest) ≡ some (record f { year = n }, rest)
  unfolding take_chunk four
  take_year few = ground arith

  take_month :
      1 ≤ n
      → n ≤ 12
      → take_chunk month_chunk f (two n ++ rest) ≡ some (record f { month = n }, rest)
  unfolding take_chunk
  take_month least most = rw (get_number-two true n rest (omega arith)) (ground arith)

  take_day : n < 100 → take_chunk day_chunk f (two n ++ rest) ≡ some (record f { day = n }, rest)
  unfolding take_chunk
  take_day few = rw (get_number-two true n rest few)

  take_hour : n < 24 → take_chunk hour_chunk f (two n ++ rest) ≡ some (record f { hour = n }, rest)
  unfolding take_chunk
  take_hour few = rw (get_number-two false n rest (omega arith)) (ground arith)

  take_minute :
      n < 60 → take_chunk minute_chunk f (two n ++ rest) ≡ some (record f { minute = n }, rest)
  unfolding take_chunk
  take_minute few = rw (get_number-two true n rest (omega arith)) (ground arith)

  take_second :
      n < 60
      → take_chunk second_chunk f (two n ++ rest)
        ≡ some (record f { second = n }, skip_fraction rest)
  unfolding take_chunk
  take_second few = rw (take_chunk, get_number-two true n rest (omega arith)) (ground arith)

  take_blank : take_chunk blank f (32 ∷ (two n ++ rest)) ≡ some (f, two n ++ rest)
  unfolding take_chunk
  take_blank = ground arith

-- The text of a date has its second pair of digits where a time has a colon.
late_hour :
    (f : TimeFields) (n : ℕ) (rest : List ℕ)
    → n < 100
    → ltb n 24 ≡ false
    → take_chunk hour_chunk f (two n ++ rest) ≡ none
unfolding take_chunk
late_hour f n rest few late = rw (take_chunk, get_number-two false n rest few, late)

digit_for_colon :
    (f : TimeFields) (m : ℕ) (rest : List ℕ)
    → m < 100
    → take_chunk (expect b':') f (two m ++ rest) ≡ none
unfolding take_chunk
digit_for_colon f m rest few = ground arith

no_time :
    (layout : List Chunk) (f : TimeFields) (n m : ℕ) (rest : List ℕ)
    → n < 100
    → m < 100
    → parse_layout (hour_chunk ∷ expect b':' ∷ layout) f (two n ++ (two m ++ rest)) ≡ none
no_time layout f n m rest few few' = elim (Bool-cases (ltb n 24)) [
  | inl hour ↦
      parse_step (expect b':' ∷ layout) f (two n ++ (two m ++ rest)) hour_chunk
        (record f { hour = n }) (two m ++ rest) (take_hour f n (two m ++ rest) (ltb→lt n 24 hour))
      ∙ parse_stuck layout (record f { hour = n }) (two m ++ rest) (expect b':')
          (digit_for_colon (record f { hour = n }) m rest few')
  | inr late ↦
      parse_stuck (expect b':' ∷ layout) f (two n ++ (two m ++ rest)) hour_chunk
        (late_hour f n (two m ++ rest) few late)
]

-- The fields of a time of the clock.
pub record IsTime (f : TimeFields) : Type 0 where
  pub hour_in : f.hour < 24
  pub minute_in : f.minute < 60
  pub second_in : f.second < 60

-- From the date on, what is left is read by a layout for the time.
dated_rest :
    (layout : List Chunk) (y m d h : ℕ) (rest : List ℕ)
    → y < 10000
    → 1 ≤ m
    → m ≤ 12
    → d < 100
    → parse_layout (dated layout) no_fields (four y ++ dashed m d (two h ++ rest))
      ≡ parse_layout layout (record no_fields { year = y; month = m; day = d }) (two h ++ rest)
dated_rest layout y m d h rest year least most few =
    let dated_f : TimeFields = record no_fields { year = y } in
    let f' : TimeFields = record dated_f { month = m } in
    let f'' : TimeFields = record f' { day = d } in
    let text : List ℕ = two h ++ rest in
    let day_text : List ℕ = two d ++ 32 ∷ text in
    let month_text : List ℕ = two m ++ b'-' ∷ day_text in
    parse_step _ no_fields (four y ++ b'-' ∷ month_text) year_chunk dated_f (b'-' ∷ month_text)
      (take_year no_fields y (b'-' ∷ month_text) year)
    ∙ parse_step _ dated_f (b'-' ∷ month_text) (expect b'-') dated_f month_text
        (unfold take_chunk in refl)
    ∙ parse_step _ dated_f month_text month_chunk f' (b'-' ∷ day_text)
        (take_month dated_f m (b'-' ∷ day_text) least most)
    ∙ parse_step _ f' (b'-' ∷ day_text) (expect b'-') f' day_text (unfold take_chunk in refl)
    ∙ parse_step _ f' day_text day_chunk f'' (32 ∷ text) (take_day f' d (32 ∷ text) few)
    ∙ parse_step layout f'' (32 ∷ text) blank f'' text (take_blank f'' h rest)

minutes_rest :
    (layout : List Chunk) (f : TimeFields) (h m : ℕ) (rest : List ℕ)
    → h < 24
    → m < 60
    → parse_layout
        (hour_chunk ∷ expect b':' ∷ minute_chunk ∷ layout)
        f
        (two h ++ b':' ∷ (two m ++ rest))
      ≡ parse_layout layout (record f { hour = h; minute = m }) rest
minutes_rest layout f h m rest hour minute =
    let f' : TimeFields = record f { hour = h } in
    let f'' : TimeFields = record f' { minute = m } in
    let text : List ℕ = two m ++ rest in
    parse_step _ f (two h ++ b':' ∷ text) hour_chunk f' (b':' ∷ text)
      (take_hour f h (b':' ∷ text) hour)
    ∙ parse_step _ f' (b':' ∷ text) (expect b':') f' text (unfold take_chunk in refl)
    ∙ parse_step layout f' text minute_chunk f'' rest (take_minute f' m rest minute)

second_rest :
    (f : TimeFields) (s : ℕ)
    → s < 60
    → is_day_of f ≡ true
    → parse_layout (expect b':' ∷ second_chunk ∷ []) f (b':' ∷ two s)
      ≡ some (record f { second = s })
unfolding parse_layout
second_rest f s few day =
    parse_step (second_chunk ∷ []) f (b':' ∷ two s) (expect b':') f (two s)
      (unfold take_chunk in refl)
    ∙ parse_step [] f (two s) second_chunk (record f { second = s }) []
        (take_second f s [] few ∙ (unfold skip_fraction in refl))
    ∙ rw day

-- Seconds that are not expected.
minutes_only : (f : TimeFields) (s : ℕ) → parse_layout [] f (b':' ∷ two s) ≡ none
unfolding parse_layout
minutes_only f s = refl

pub four-two : (y : ℕ) → y < 10000 → four y ≡ two (y / 100) ++ two (y % 100)
unfolding four
four-two y few = ground arith

pub parse_fields_minutes :
    (h m : ℕ)
    → h < 24
    → m < 60
    → parse_fields (two h ++ b':' ∷ two m) ≡ some (record no_fields { hour = h; minute = m })
unfolding parse_fields
parse_fields_minutes h m hour minute =
    rw (minutes_rest [] no_fields h m [] hour minute) (unfold parse_layout in refl)

pub parse_fields_seconds :
    (h m s : ℕ)
    → h < 24
    → m < 60
    → s < 60
    → parse_fields (timed h m s) ≡ some (record no_fields { hour = h; minute = m; second = s })
unfolding parse_fields
parse_fields_seconds h m s hour minute few =
    let f : TimeFields = record no_fields { hour = h; minute = m } in
    let first = minutes_rest [] no_fields h m (b':' ∷ two s) hour minute ∙ minutes_only f s in
    let next =
      minutes_rest (expect b':' ∷ second_chunk ∷ []) no_fields h m (b':' ∷ two s) hour minute
      ∙ second_rest f s few refl in
    rw (first, next) refl

pub parse_fields_dated :
    (f : TimeFields)
    → f.year < 10000
    → 1 ≤ f.month
    → f.month ≤ 12
    → f.day < 100
    → is_day_of f ≡ true
    → IsTime f
    → parse_fields (four f.year ++ dashed f.month f.day (timed f.hour f.minute f.second)) ≡ some f
unfolding parse_fields
parse_fields_dated f year least most few day time =
    let date_f : TimeFields = record no_fields { year = f.year; month = f.month; day = f.day } in
    let f' : TimeFields = record date_f { hour = f.hour; minute = f.minute } in
    let minutes : List ℕ = b':' ∷ (two f.minute ++ b':' ∷ two f.second) in
    let rest : List ℕ = dashed f.month f.day (timed f.hour f.minute f.second) in
    let no_pair = λ (layout : List Chunk).
      no_time layout no_fields (f.year / 100) (f.year % 100) rest (omega arith) (omega arith) in
    let first : parse_layout time_layout no_fields (four f.year ++ rest) ≡ none =
      rw (four-two f.year year) (no_pair (minute_chunk ∷ [])) in
    let next : parse_layout seconds_layout no_fields (four f.year ++ rest) ≡ none =
      rw (four-two f.year year) (no_pair (minute_chunk ∷ expect b':' ∷ second_chunk ∷ [])) in
    let third =
      dated_rest time_layout f.year f.month f.day f.hour minutes year least most few
      ∙ minutes_rest [] date_f f.hour f.minute (b':' ∷ two f.second) time.hour_in time.minute_in
      ∙ minutes_only f' f.second in
    let fourth =
      dated_rest seconds_layout f.year f.month f.day f.hour minutes year least most few
      ∙ minutes_rest (expect b':' ∷ second_chunk ∷ []) date_f f.hour f.minute (b':' ∷ two f.second)
          time.hour_in time.minute_in
      ∙ second_rest f' f.second time.second_in day in
    rw (first, next, third, fourth) refl
