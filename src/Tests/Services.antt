-- ===== src/Tests/Services.antt =====
-- Tests of the bot, the units, the tags and the clock.
use chik.Prelude.{
  Eq, String, [], arith, false, length, nat_eq, none, refl, some, string_eq, true, ℕ, ◌*◌, ◌++◌,
  ◌+◌, ◌==◌, ◌∷◌, ◌≡◌,
}
use chik.Badge.{encode_to_string, read_tags}
use chik.Badge.Framing.{Frame, frame_reads, read_tags-frames, whole}
use chik.Config.Tls.{Authority, PairFiles, TokenClaims}
use chik.Datetime.{DatetimeData, Tick, new_datetime, tick_all}
use chik.Datetime.Sun.{Shows, tick_all-date}
use chik.Json.{Value, num}
use chik.Prelude.Dict.{lookup}
use chik.Prelude.Int.{pos}
use chik.StatusHolder.{emit_status_changed, latest}
use chik.Telegram.{Telegram, handle_update, off_button, on_button, on_text, text_message}
use chik.Telegram.Switching.{handle_update-switches}
use chik.Tests.Samples.{int_discrete, nat_discrete, nat_numbers, of_decision}
use chik.Types.Command.{reset, set}
use chik.Types.Time.{TimeIndication}

abbrev bot : Telegram
bot = record {
  allowed_users = "7" ∷ [];
  appliances_by_name = ("lamp", "soft_1") ∷ ("fan", "soft_2") ∷ [];
  set_strings = "on" ∷ [];
  reset_strings = "off" ∷ [];
  set_done_message = "on: %s";
  reset_done_message = "off: %s";
  has_bot = true;
}

abbrev same_text : String → String
same_text t = t

abbrev format_text : String → String → String
format_text text device = text

on_text_test :
    (on_text same_text format_text bot "fan off lamp").events
    ≡ record { action = reset; appliance_id = "soft_2" }
      ∷ record { action = reset; appliance_id = "soft_1" }
      ∷ []
unfolding on_text
on_text_test = refl

handle_update-switches_example :
    (let r = handle_update same_text format_text bot (text_message "8" "lamp on") in
      (r.events ≡ [])
      × (length r.answers ≡ length r.events)
      × ((handle_update same_text format_text bot (on_button "8" "fan")).events
          ≡ record { action = set; appliance_id = "soft_2" } ∷ [])
      × ((handle_update same_text format_text bot (off_button "8" "fan")).events
          ≡ record { action = reset; appliance_id = "soft_2" } ∷ []))
handle_update-switches_example =
    handle_update-switches same_text format_text bot "8" "lamp on" "fan" "soft_2"
      (unfold lookup in refl)

abbrev card : Frame
card = record {
  noise = 0 ∷ 13 ∷ [];
  unknown_field = 4;
  tag = record { sak = 8 ∷ []; atqa = 0 ∷ 4 ∷ []; id = 0xde ∷ 0xad ∷ 0xbe ∷ 0xef ∷ [] };
}

encode_to_string_test : encode_to_string card.tag.id ≡ "deadbeef"
unfolding encode_to_string
encode_to_string_test = refl

-- A card between bytes that are no frame.
read_tags-frames_example :
    read_tags 3 (frame_reads card ++ frame_reads card ++ whole (1 ∷ []) ∷ [])
    ≡ card.tag ∷ card.tag ∷ read_tags 1 (whole (1 ∷ []) ∷ [])
read_tags-frames_example = read_tags-frames (card ∷ card ∷ []) 1 (whole (1 ∷ []) ∷ []) (
  ((λ e. absurd (omega arith), (λ e. absurd (omega arith), tt)), refl, refl, refl),
  (((λ e. absurd (omega arith), (λ e. absurd (omega arith), tt)), refl, refl, refl), tt),
)

data_discrete : Discrete DatetimeData
data_discrete = hlevel (nat_discrete, int_discrete)

instance data_eq : Eq DatetimeData
data_eq = of_decision data_discrete

abbrev noon : ℕ → Tick
noon day = record { year = 2024; month = 5; day = day; weekday = 3; unix = pos (day * 86400) }

-- The sun rises and sets by the day of the month here.
abbrev sun_of : Tick → TimeIndication × TimeIndication
sun_of t = (pos (t.day * 100 + 6), pos (t.day * 100 + 18))

abbrev date_value : DatetimeData → Value ℕ
date_value d = num d.day

tick_all-date_example :
    (let (h, sent) = tick_all date_value sun_of (noon 3 ∷ noon 3 ∷ noon 4 ∷ []) new_datetime in
      (latest none sent ≡ some (emit_status_changed date_value h.status.module_name h.content))
      × Shows sun_of (noon 4) h.content)
tick_all-date_example =
    tick_all-date date_value sun_of (λ s t same. ground arith) (noon 3) (noon 3 ∷ noon 4 ∷ [])
      (omega arith) (λ e. (refl, refl, refl), (λ e. (refl, refl, e), tt))

-- An authority that signs, while the second certificate cannot be written.
abbrev step_authority : Authority String ℕ ℕ ℕ (PairFiles ℕ ℕ)
step_authority = record {
  parse_signed = λ token. some token;
  claims_of = λ t. some (record { root_sha = "5a"; audience = "HTTPS://ca" ∷ [] });
  new_client = λ audience pair root_sha. true;
  create_sign_request = λ token. some (1, 2);
  write_key = true;
  sign = λ req. some (3, 4);
  serialize = λ c. true;
  create_file = true;
  encode = λ n. n == 0;
  load = λ files. (files, false);
  run_renewer = λ pair. false;
  renew = λ pair. none;
}

abbrev step_claims : TokenClaims
step_claims = record { root_sha = "5a"; audience = "HTTPS://ca" ∷ [] }
