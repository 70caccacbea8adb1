-- ===== src/Datetime.antt =====
-- handlers/datetime/datetime.go: the date, the time, and the times of sunrise and sunset as a status. The
-- clock is what a tick shows; the sunrisesunset library is an argument, which may fail (its times are then
-- those of the zero time).
pub mod Sun
use chik.Prelude.{Eq, List, [], if◌then◌else◌, nat_eq, string_eq, ℕ, ◌++◌, ◌==◌, ◌∷◌}
use chik.Controller.{Publication, Step, done}
use chik.Json.{Value}
use chik.Prelude.Int.{pos}
use chik.StatusHolder.{StatusHolder, new_status_holder, set_status}
use chik.Types.Time.{TimeIndication}

-- What the source asks of the time of a tick.
pub record Tick : Type 0 where
  pub year : ℕ
  pub month : ℕ
  pub day : ℕ
  pub weekday : ℕ
  pub unix : TimeIndication

pub record DatetimeData : Type 0 where
  pub year : ℕ
  pub month : ℕ
  pub day : ℕ
  pub weekday : ℕ
  pub time : TimeIndication
  pub sunrise : TimeIndication
  pub sunset : TimeIndication

pub record Datetime : Type 0 where
  pub content : DatetimeData
  pub status : StatusHolder DatetimeData

-- `New`.
unfoldable pub new_datetime : Datetime
unfolding new_status_holder
new_datetime = record {
  content = record {
    year = 0;
    month = 0;
    day = 0;
    weekday = 0;
    time = pos 0;
    sunrise = pos 0;
    sunset = pos 0;
  };
  status = new_status_holder "datetime";
}

-- The data at a tick: the times of the sun are computed when the day is another one.
unfoldable pub data_at :
    (sun : Tick → TimeIndication × TimeIndication) → Tick → DatetimeData → DatetimeData
data_at sun t d = record {
  year = t.year;
  month = t.month;
  day = t.day;
  weekday = t.weekday;
  time = t.unix;
  sunrise = if d.day == t.day then d.sunrise else (sun t).0;
  sunset = if d.day == t.day then d.sunset else (sun t).1;
}

module _ {N : Type 0} ⦃keys : Eq DatetimeData⦄ (to_value : DatetimeData → Value N)
    (sun : Tick → TimeIndication × TimeIndication) where
  -- `HandleTimerEvent`.
  unfoldable pub handle_timer_event : Tick → Datetime → Step N Datetime
  unfolding data_at set_status
  handle_timer_event t h =
      let content = data_at sun t h.content in
      let (status, sent) = set_status to_value content h.status in
      record { state = record { content = content; status = status }; sent = sent; exit = done }

  -- The ticks of the timer, one after the other, and what is published at them.
  unfoldable pub tick_all : List Tick → Datetime → Datetime × List (Publication N)
  unfolding handle_timer_event
  tick_all [] h = (h, [])
  tick_all (t ∷ ticks) h =
      let st = handle_timer_event t h in
      let (h', more) = tick_all ticks st.state in (h', st.sent ++ more)
