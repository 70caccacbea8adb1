-- ===== src/Tests/Statuses.antt =====
-- Tests of the status handler.
use mathlib.Core.List.{Memᴰ}
use chik.Status.{handle_message}
use chik.Status.{get_status}
use chik.Prelude.{[], arith, nat_eq, none, refl, some, string_eq, ℕ, ◌++◌, ◌^◌, ◌∷◌, ◌≡◌}
use chik.Json.{end, field, num, obj, to_map}
use chik.Messaging.{Message}
use chik.Prelude.Dict.{lookup}
use chik.Status.{
  StatusCommand, StatusState, handle_status_command, handle_status_update, notification,
}
use chik.Status.Subscribing.{after_updates, subscribed-is_notified}
use chik.Status.Updating.{announced, handle_status_update-sent}
use chik.Tests.Samples.{message_of, nat_numbers}
use chik.Types.Command.{new_command, status_update_command_type}

-- Device 7 listens for "io" and was heard of at instant 0, device 8 long after that.
abbrev known : StatusState ℕ
known = record {
  subscribers =
      (7, record { listeners = "io" ∷ []; last_contact = 0 })
      ∷ (8, record { listeners = "io" ∷ "time" ∷ []; last_contact = 10 ^ 12 })
      ∷ [];
  current_status = ("io", num 1) ∷ [];
}

abbrev subscription : StatusCommand
subscription = record { action = 0; query = "time" }

abbrev update : Message ℕ
update = record {
  sender = 0;
  receiver = 0;
  command = some (new_command status_update_command_type (obj (field "io" (num 2) end)));
}

handle_message_tests :
    ((handle_message 1 (10 ^ 12) known update).sent
      ≡ notification (("io", num 2) ∷ []) 7
        ∷ notification (("io", num 2) ∷ []) 8
        ∷ notification (("io", num 2) ∷ []) 0
        ∷ [])
    × (lookup 7 (handle_message 1 (10 ^ 12) known update).state.subscribers ≡ none)
    × ((handle_message 1 (10 ^ 12) known (message_of 7 1 3)).sent ≡ [])
unfolding handle_message handle_status_update to_map lookup chik.Json.unmarshal_map
    chik.Prelude.Dict.insert chik.Status.decode_status_command
handle_message_tests = (refl, refl, refl)

subscribed-is_notified_example :
    Memᴰ
      (notification (("time", num 3) ∷ []) 7)
      (handle_status_update 9 (("time", num 3) ∷ []) (
        after_updates
          ((7, ("io", num 2) ∷ []) ∷ [])
          (handle_status_command 1 5 (message_of 7 1 3) subscription known).state)).sent
subscribed-is_notified_example =
    subscribed-is_notified 1 5 9 (message_of 7 1 3) subscription known
      ((7, ("io", num 2) ∷ []) ∷ []) (num 3) (omega arith) (omega arith) refl (omega arith, tt)

handle_status_update-sent_example :
    (handle_status_update 9 (("io", num 2) ∷ []) known).sent
    ≡ announced (("io", num 2) ∷ []) known.subscribers
      ++ notification (handle_status_update 9 (("io", num 2) ∷ []) known).state.current_status 0
        ∷ []
handle_status_update-sent_example = handle_status_update-sent 9 (("io", num 2) ∷ []) known

abbrev pruned : StatusState ℕ
pruned = (handle_status_update (10 ^ 12) (("io", num 2) ∷ []) known).state
