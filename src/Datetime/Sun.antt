-- ===== src/Datetime/Sun.antt =====
-- The times of the sun belong to the date that is shown.
use mathlib.Core.Option
use chik.Datetime.{handle_timer_event}
use chik.Prelude.{
  Bool-cases, Eq, List, Option, [], ap, arith, inl, inr, nat_eq, none, refl, some, string_eq, sym,
  ◌<◌, ◌==◌, ◌∙◌, ◌∷◌, ◌≡◌,
}
use chik.Controller.{Publication}
use chik.Datetime.{Datetime, DatetimeData, Tick, data_at, new_datetime, tick_all}
use chik.Json.{Value}
use chik.Prelude.Int.{pos}
use chik.StatusHolder.{
  emit_status_changed, latest, latest-append, latest-set_status, module-set_status,
  new_status_holder, status-set_status,
}
use chik.Types.Time.{TimeIndication}

abbrev pub SameDate : Tick → Tick → Type 0
SameDate s t = (s.year ≡ t.year) × (s.month ≡ t.month) × (s.day ≡ t.day)

-- A tick on the day of the month of the tick before is on its date, too: the handler is never without a
-- tick for a whole month.
abbrev pub Steady : Tick → List Tick → Type 0
Steady prev [] = Unit {0}
Steady prev (t ∷ later) = (prev.day ≡ t.day → SameDate prev t) × Steady t later

abbrev pub last_of : Tick → List Tick → Tick
last_of prev [] = prev
last_of prev (t ∷ later) = last_of t later

-- The data of a tick.
abbrev pub Shows : (sun : Tick → TimeIndication × TimeIndication) → Tick → DatetimeData → Type 0
Shows sun t d =
    (SameDate (record { year = d.year; month = d.month; day = d.day; weekday = 0; unix = pos 0 }) t)
    × (d.weekday ≡ t.weekday)
    × (d.time ≡ t.unix)
    × ((d.sunrise, d.sunset) ≡ sun t)

module _ {N : Type 0} ⦃keys : Eq DatetimeData⦄ (to_value : DatetimeData → Value N)
    (sun : Tick → TimeIndication × TimeIndication)
    (by_date : (s t : Tick) → SameDate s t → sun s ≡ sun t) where
  data_at-Shows :
      (prev t : Tick) (d : DatetimeData)
      → (d.sunrise, d.sunset) ≡ sun prev
      → d.day ≡ prev.day
      → (prev.day ≡ t.day → SameDate prev t)
      → Shows sun t (data_at sun t d)
  unfolding data_at
  data_at-Shows prev t d known day steady = elim (Bool-cases (d.day == t.day)) [
    | inl same ↦
        let date = by_date prev t (steady (ground arith)) in
        ((refl, refl, refl), refl, refl, rw same (known ∙ date))
    | inr other ↦ ((refl, refl, refl), refl, refl, rw other refl)
  ]

  next_tick :
      (prev t : Tick) (h : Datetime)
      → Shows sun prev h.content
      → (prev.day ≡ t.day → SameDate prev t)
      → Shows sun t (handle_timer_event to_value sun t h).state.content
  unfolding handle_timer_event
  next_tick prev t h (date, weekday, now, known) steady =
      data_at-Shows prev t h.content known (date.2) steady

  tick_all-Shows :
      (prev : Tick) (later : List Tick) (h : Datetime)
      → Shows sun prev h.content
      → Steady prev later
      → Shows sun (last_of prev later) (tick_all to_value sun later h).0.content
  unfolding tick_all
  tick_all-Shows prev [] h shown steady = shown
  tick_all-Shows prev (t ∷ later) h shown (step, steady) =
      tick_all-Shows t later (handle_timer_event to_value sun t h).state
        (next_tick prev t h shown step) steady

  -- The publication of the data of a handler.
  abbrev told : Datetime → Publication N
  told h = emit_status_changed to_value h.status.module_name h.content

  tick_latest :
      (before : Option (Publication N)) (t : Tick) (h : Datetime)
      → before ≡ Option.map (emit_status_changed to_value h.status.module_name) h.status.status
      → (latest before (handle_timer_event to_value sun t h).sent
          ≡ some (told (handle_timer_event to_value sun t h).state))
        × (told (handle_timer_event to_value sun t h).state
            ≡ emit_status_changed to_value h.status.module_name (data_at sun t h.content))
        × ((handle_timer_event to_value sun t h).state.status.status
            ≡ some (handle_timer_event to_value sun t h).state.content)
  unfolding handle_timer_event
  tick_latest before t h shown =
      let content : DatetimeData = data_at sun t h.content in
      let named = module-set_status to_value content h.status in
      (
        rw named (latest-set_status to_value before content h.status shown),
        rw named refl,
        status-set_status to_value content h.status,
      )

  tick_all-latest :
      (before : Option (Publication N)) (t : Tick) (later : List Tick) (h : Datetime)
      → before ≡ Option.map (emit_status_changed to_value h.status.module_name) h.status.status
      → latest before (tick_all to_value sun (t ∷ later) h).1
        ≡ some (told (tick_all to_value sun (t ∷ later) h).0)
  unfolding tick_all
  tick_all-latest before t [] h shown =
      latest-append before (handle_timer_event to_value sun t h).sent []
      ∙ (tick_latest before t h shown).0
  tick_all-latest before t (t' ∷ later) h shown =
      let st = handle_timer_event to_value sun t h in
      let (sent, same, stored) = tick_latest before t h shown in
      latest-append before st.sent (tick_all to_value sun (t' ∷ later) st.state).1
      ∙ tick_all-latest (latest before st.sent) t' later st.state (
          sent
          ∙ sym (ap (Option.map (emit_status_changed to_value st.state.status.module_name)) stored))

  first_data : (t : Tick) → 0 < t.day → Shows sun t (data_at sun t new_datetime.content)
  unfolding data_at new_datetime
  first_data t numbered = elim (Bool-cases (0 == t.day)) [
    | inl zero_day ↦ absurd (ground arith)
    | inr other ↦ ((refl, refl, refl), refl, refl, rw other refl)
  ]

  first_tick :
      (t : Tick)
      → 0 < t.day
      → Shows sun t (handle_timer_event to_value sun t new_datetime).state.content
  unfolding handle_timer_event
  first_tick t numbered = first_data t numbered

  -- From its start on, after every tick, the status that was published last is the date and the time of that
  -- tick with the times of the sun on this date, though these are computed only when the day changes: if
  -- they depend on the date alone, days are numbered from one, and no tick comes on the same day of another
  -- month than the tick before.
  pub tick_all-date :
      (t : Tick) (later : List Tick)
      → 0 < t.day
      → Steady t later
      → (let (h, sent) = tick_all to_value sun (t ∷ later) new_datetime in
          (latest none sent ≡ some (emit_status_changed to_value h.status.module_name h.content))
          × Shows sun (last_of t later) h.content)
  tick_all-date t later numbered steady =
      let h : Datetime = (handle_timer_event to_value sun t new_datetime).state in
      (
        tick_all-latest none t later new_datetime (unfold new_datetime new_status_holder in refl),
        unfold tick_all in tick_all-Shows t later h (first_tick t numbered) steady,
      )
