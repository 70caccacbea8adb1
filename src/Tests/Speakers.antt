-- ===== src/Tests/Speakers.antt =====
-- Tests of the snapcast handler, with a server of one group.
use chik.Snapcast.Requests.{Server}
use chik.Snapcast.Events.{handle_channel_event}
use chik.Prelude.{Eq, String, [], none, refl, some, true, ℕ, ◌∷◌, ◌≡◌}
use chik.Json.{Value, null}
use chik.Prelude.Outcome.{ok, panic}
use chik.Snapcast.Events.{on_stream_changed, on_update}
use chik.Snapcast.Requests.{Snapcast, SnapcastStatus, connect, full, no_link, simplified}
use chik.Snapcast.Restoring.{asked, connect_settles, having}
use chik.Snapcast.Streams.{restreamed, stream_changes}
use chik.Snapcast.Structs.{
  GroupStreamChanged, ServerStatus, SimplifiedGroup, SimplifiedServerStatus,
}
use chik.StatusHolder.{emit_status_changed}
use chik.Tests.Samples.{holds, holds_iff, int_discrete, nat_numbers, string_discrete}

status_discrete : Discrete SnapcastStatus
status_discrete = hlevel (string_discrete, int_discrete)

instance status_eq : Eq SnapcastStatus
status_eq = record {
  same = λ a b. holds (status_discrete a b);
  same_iff = λ a b. holds_iff (status_discrete a b);
}

abbrev living_room : String → SimplifiedGroup
living_room stream = record {
  clients = [];
  id = "living";
  name = "Living room";
  stream_id = stream;
}

abbrev server_with : String → SimplifiedServerStatus
server_with stream = record { groups = living_room stream ∷ []; streams = [] }

-- It answers every call with its status.
abbrev radio : Server (Unit {0})
radio = record {
  dial = λ n. true;
  call = λ n req. some tt;
  simplified_of = λ r. some (server_with "radio");
  status_of = λ r. some (record { groups = []; streams = [] });
  stream_of = λ r. some (record { id = ""; stream_id = "radio" });
}

abbrev idle : Snapcast
idle = record {
  link = no_link;
  status = record { status = none; module_name = "snapcast" };
  requests = [];
}

abbrev shown_status : SnapcastStatus → Value ℕ
shown_status s = null

abbrev no_groups : ServerStatus
no_groups = record { groups = []; streams = [] }

connect_settles_example :
    (let first = connect radio shown_status (having none idle) in
      let later = connect radio shown_status (having (some (simplified (server_with "tv"))) idle) in
      ((first.result ≡ ok tt)
        × (first.state ≡ having (some (simplified (server_with "radio"))) (asked idle))
        × (first.sent
            ≡ emit_status_changed shown_status "snapcast" (simplified (server_with "radio")) ∷ []))
      × ((later.result ≡ ok tt)
          × (later.state ≡ having (some (simplified (server_with "tv"))) (asked idle))
          × (later.sent ≡ []))
      × ((connect radio shown_status (having (some (full no_groups)) idle)).result ≡ panic))
connect_settles_example =
    connect_settles radio shown_status idle tt (server_with "radio") (server_with "tv") no_groups
      refl refl refl (refl, tt)

abbrev to_tv : GroupStreamChanged
to_tv = record { id = "living"; stream_id = "tv" }

stream_changes_example :
    (let event = handle_channel_event radio shown_status in
      let playing = having (some (simplified (server_with "radio"))) idle in
      let r = event (on_stream_changed (some to_tv)) playing in
      ((r.result ≡ ok tt)
        × (r.state.status.status ≡ some (restreamed to_tv (server_with "radio")))
        × (r.sent
            ≡ emit_status_changed shown_status "snapcast" (restreamed to_tv (server_with "radio"))
              ∷ [])
        × (r.state.requests ≡ []))
      × ((event
            (on_stream_changed (some to_tv))
            (event (on_update (some no_groups)) playing).state).result
          ≡ panic))
stream_changes_example =
    stream_changes radio shown_status to_tv (server_with "radio") no_groups
      (having (some (simplified (server_with "radio"))) idle) refl
