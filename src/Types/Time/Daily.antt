-- ===== src/Types/Time/Daily.antt =====
-- Times of the day, which stand for the next instant at which the clock shows them.
use chik.Prelude.{
  Bool-cases, ap, arith, inl, inr, ltb→lt, refl, some, ℕ, ◌%◌, ◌*◌, ◌++◌, ◌+◌, ◌/◌, ◌<◌, ◌∷◌, ◌≡◌,
}
use chik.Prelude.Int.{abs, int_laws, ltb_ℤ, neg_part, negsuc, pos, pos_part, ℤ, ◌+ℤ◌, ◌-ℤ◌, ◌≤ℤ◌}
use chik.Types.Time.{TimeIndication}
use chik.Types.Time.Calendar.{day_of_date-date_of_day}
use chik.Types.Time.Clocks.{IsSteady, local_unix, pos_pos_part}
use chik.Types.Time.Layouts.{TimeFields, no_fields}
use chik.Types.Time.Parsing.{
  Location, clock, instant_of, local_seconds, next_at, parse_time_indication, seconds_per_day,
  timed, two, zero_seconds,
}
use chik.Types.Time.Rereading.{parse_fields_minutes, parse_fields_seconds}

-- How far the instants lie from now that are looked up for a time of the day.
abbrev pub day_reach : Location → TimeIndication → ℕ
day_reach local now = seconds_per_day + abs (local now)

abbrev unix_of : ℕ → ℤ
unix_of w = pos w -ℤ pos zero_seconds

-- `a` is as far after `b` as `w` is after `v`.
abbrev Apart : ℤ → ℤ → ℕ → ℕ → Type 0
Apart a b w v = pos_part a + neg_part b + v ≡ neg_part a + pos_part b + w

pos_part_of : (a : ℤ) (w : ℕ) → pos_part a ≡ neg_part a + w → pos_part a ≡ w
pos_part_of (pos n) w is = omega arith
pos_part_of (negsuc n) w is = absurd (omega arith)

far_day : (now o : ℤ) (w v : ℕ) → unix_of v ≡ now +ℤ o → Apart (unix_of w -ℤ o) now w v
far_day now o w v shown = omega (int_laws, ap pos_part shown, ap neg_part shown)

unix_far :
    (now o : ℤ) (w v : ℕ)
    → unix_of v ≡ now +ℤ o
    → w < v + seconds_per_day
    → v < w + seconds_per_day
    → (now ≤ℤ unix_of w +ℤ pos (seconds_per_day + abs o))
      × (unix_of w ≤ℤ now +ℤ pos (seconds_per_day + abs o))
unix_far now o w v shown late early = (
  omega (int_laws, ap pos_part shown, ap neg_part shown),
  omega (int_laws, ap pos_part shown, ap neg_part shown),
)

module _ (local : Location) (now : TimeIndication)
    (steady : IsSteady local now (day_reach local now)) (ahead : 0 < local_seconds local now) where
  instant_on_day :
      (w : ℕ)
      → w < local_seconds local now + seconds_per_day
      → local_seconds local now < w + seconds_per_day
      → instant_of local w ≡ unix_of w -ℤ local now
  unfolding instant_of
  instant_on_day w late early =
      let unix = local_unix local now ahead in
      let far = unix_far now (local now) w (local_seconds local now) unix late early in
      let apart = far_day now (local now) w (local_seconds local now) unix in
      let first = steady (unix_of w) far.0 far.1 in
      let next = steady (unix_of w -ℤ local now) (omega int_laws) (omega int_laws) in
      rw (first, next) refl

  -- What the clock shows within a day of now.
  shown_on_day :
      (t : TimeIndication) (w : ℕ)
      → now ≤ℤ t
      → t ≤ℤ now +ℤ pos seconds_per_day
      → Apart t now w (local_seconds local now)
      → local_seconds local t ≡ w
  unfolding local_seconds
  shown_on_day t w after before apart =
      let same = steady t (omega int_laws) (omega int_laws) in
      let whole = pos_pos_part (now +ℤ local now +ℤ pos zero_seconds) ahead in
      rw same (
        pos_part_of (t +ℤ local now +ℤ pos zero_seconds) w
          (omega (int_laws, ap pos_part whole, ap neg_part whole)))

  day_after :
      (w : ℕ) (t : TimeIndication)
      → Apart t now w (local_seconds local now)
      → Apart (t +ℤ pos seconds_per_day) now (w + seconds_per_day) (local_seconds local now)
  day_after w t apart = omega int_laws

-- What a time of the day stands for: an instant from now on and less than a day away, at which the clock
-- shows the end of its minute.
pub record IsNext (local : Location) (now : TimeIndication) (h m : ℕ) (t : TimeIndication)
    : Type 0 where
  pub after_now : now ≤ℤ t
  pub within_day : t +ℤ pos 1 ≤ℤ now +ℤ pos seconds_per_day
  pub shown : local_seconds local t % seconds_per_day ≡ clock h m 59

later-IsNext :
    (local : Location) (now t : TimeIndication) (w h m : ℕ)
    → IsSteady local now (day_reach local now)
    → 0 < local_seconds local now
    → Apart t now w (local_seconds local now)
    → now ≤ℤ t
    → t +ℤ pos 1 ≤ℤ now +ℤ pos seconds_per_day
    → w % seconds_per_day ≡ clock h m 59
    → IsNext local now h m t
later-IsNext local now t w h m steady ahead apart after within at_clock = record {
  after_now = after;
  within_day = within;
  shown = rw (shown_on_day local now steady ahead t w after (omega int_laws) apart) at_clock;
}

next_at-IsNext :
    (local : Location) (now : TimeIndication) (f : TimeFields)
    → IsSteady local now (day_reach local now)
    → 0 < local_seconds local now
    → f.hour < 24
    → f.minute < 60
    → IsNext local now f.hour f.minute (next_at local now f)
unfolding next_at
next_at-IsNext local now f steady ahead hour minute =
    let seconds = local_seconds local now in
    let w = seconds / seconds_per_day * seconds_per_day + clock f.hour f.minute 59 in
    let unix = local_unix local now ahead in
    let today = day_of_date-date_of_day (seconds / seconds_per_day) in
    let t = unix_of w -ℤ local now in
    let found = instant_on_day local now steady ahead w (omega arith) (omega arith) in
    let apart = far_day now (local now) w seconds unix in
    elim (Bool-cases (ltb_ℤ t now)) [
      | inl past ↦
          let before = ltb→lt (pos_part t + neg_part now) (pos_part now + neg_part t) past in
          rw (today, found, past)
            (later-IsNext local now (t +ℤ pos seconds_per_day) (w + seconds_per_day) f.hour f.minute
              steady ahead (omega (int_laws, apart)) (omega (int_laws, apart))
              (omega (int_laws, before)) (omega arith))
      | inr later ↦
          let after : now ≤ℤ t = ground arith in
          rw (today, found, later)
            (later-IsNext local now t w f.hour f.minute steady ahead apart after
              (omega (int_laws, apart)) (omega arith))
    ]

-- A time of the day, with or without seconds, is read as the end of its minute, at the next instant from
-- now on at which the clock shows it, in less than a day: the seconds of the text do not count. The zone is
-- steady for a day around now.
pub parse_time_indication-IsNext :
    (local : Location) (now : TimeIndication) (h m s : ℕ)
    → IsSteady local now (day_reach local now)
    → 0 < local_seconds local now
    → h < 24
    → m < 60
    → s < 60
    → (t : TimeIndication) × (parse_time_indication local now (two h ++ b':' ∷ two m) ≡ some t)
      × (parse_time_indication local now (timed h m s) ≡ some t)
      × IsNext local now h m t
unfolding parse_time_indication
parse_time_indication-IsNext local now h m s steady ahead hour minute few =
    let f : TimeFields = record no_fields { hour = h; minute = m } in
    (
      next_at local now f,
      rw (parse_time_indication, parse_fields_minutes h m hour minute) refl,
      rw (parse_time_indication, parse_fields_seconds h m s hour minute few)
          (unfold next_at in refl),
      next_at-IsNext local now f steady ahead hour minute,
    )
