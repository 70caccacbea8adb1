-- ===== src/Tests/Actions.antt =====
-- Tests of the actor. An expression is the name of a module of the status.
use mathlib.Core.Option.{Option, none, some}
use chik.Actor.Decoding.{Action}
use chik.Actor.Handler.{handle_message}
use chik.Json.{nil}
use chik.Tests.Samples.{bare}
use chik.Prelude.{
  Bool-cases, String, [], arith, concat, false, inl, inr, keep_if, map, nat_eq, refl, string_eq,
  true, ℕ, ◌==◌, ◌∷◌, ◌≡◌, ◌≢◌,
}
use chik.Actor.Compare.{Operand, deep_equal, json}
use chik.Actor.Decoding.{ActionCommand, decode_into, empty_action, set_action}
use chik.Actor.Encoding.{action_value}
use chik.Actor.Firing.{IsStill, due, handle_message-performs, published}
use chik.Actor.Handler.{Actor}
use chik.Actor.Query.{field_descriptor, mixed_query, struct_query}
use chik.Actor.Rewriting.{decode-action_value, malformed_query_panics}
use chik.Controller.{crashed, done, publish}
use chik.Json.{Fields, Value, arr, bool, end, field, item, num, obj, str, to_map, unmarshal_map}
use chik.Messaging.{Message, new_message}
use chik.Prelude.Dict.{Dict, insert, lookup}
use chik.Prelude.Outcome.{ok}
use chik.Tests.Samples.{nat_numbers}
use chik.Types.Command.{
  Command, action_request_command_type, new_command, set, status_notification_command_type,
}

abbrev eval_name : String → Dict String (Value ℕ) → Option (Operand ℕ)
unfolding lookup
eval_name key status = elim (lookup key status) [ none ↦ none | some v ↦ some (json v) ]

-- When the light is on and the time has changed, do a command of type 1.
abbrev light : Action ℕ
light = record {
  id = "light";
  query = mixed_query "light" " == " (bool true) true ∷ mixed_query "clock" "> " (num 3) false ∷ [];
  perform = some (bare 1) ∷ [];
}

abbrev evening : Actor ℕ
evening = record {
  actions = light ∷ [];
  previous_state = ("clock", num 4) ∷ ("light", bool true) ∷ [];
}

abbrev notified : ℕ → Command ℕ
notified n =
    new_command status_notification_command_type
      (obj (field "clock" (num n) (field "light" (bool true) end)))

abbrev told : ℕ → Message ℕ
told n = record { sender = 0; receiver = 0; command = some (notified n) }

handle_message_tests :
    ((handle_message eval_name evening (told 5)).sent ≡ publish (bare 1) 0 ∷ [])
    × ((handle_message eval_name evening (told 4)).sent ≡ [])
    × ((handle_message eval_name evening (told 2)).sent ≡ [])
unfolding handle_message lookup chik.Actor.Query.execute unmarshal_map to_map insert
    chik.Actor.Compare.compare_by chik.Json.Equal.value_equal
handle_message_tests = (refl, refl, refl)

abbrev status_5 : Dict String (Value ℕ)
status_5 = ("clock", num 5) ∷ ("light", bool true) ∷ []

decoded_5 : unmarshal_map (notified 5).content ≡ some status_5
unfolding unmarshal_map to_map insert
decoded_5 = refl

handle_message-performs_example : handle_message eval_name evening (told 5) ≡ record {
  state = record evening { previous_state = status_5 };
  sent = concat (
      map
        (λ a. published a.perform)
        (keep_if (due eval_name evening.previous_state status_5) evening.actions));
  exit = done;
}
handle_message-performs_example =
    handle_message-performs eval_name evening (told 5) refl refl decoded_5 (refl, tt)

-- The same action with a nil command.
abbrev broken : Actor ℕ
broken = record evening { actions = record light { perform = none ∷ [] } ∷ [] }

abbrev lit : Dict String (Value ℕ)
lit = ("light", bool true) ∷ []

lit-IsStill : IsStill eval_name lit lit
unfolding field_descriptor deep_equal lookup chik.Json.Equal.value_equal
lit-IsStill key d found = elim (Bool-cases ("light" == key)) [
  | inl same ↦ let e = rw (field_descriptor, same) at found in ground arith
  | inr other ↦ let e = rw (field_descriptor, other) at found in cc
]

abbrev store_light : ActionCommand ℕ
store_light = record { action = set; value = light }

abbrev same_xy : Action ℕ
same_xy = record { id = "a"; query = struct_query "x" "==" "y" true ∷ []; perform = none ∷ [] }

decode-action_value_example :
    decode_into (set_action {N = ℕ}) empty_action (action_value same_xy) ≡ ok (same_xy, true)
decode-action_value_example = decode-action_value same_xy (tt, tt) (tt, tt)

abbrev capital : Dict String (Value ℕ)
capital = ("var1", str "x") ∷ ("Const", num 3) ∷ []

found_const : lookup "Const" capital ≡ some (num 3)
unfolding lookup
found_const = refl

abbrev malformed : Command ℕ
malformed = new_command action_request_command_type (
    obj
      (field "value" (obj (field "query" (arr (item (num 1) nil)) (field "id" (str "a") end))) end))

num-obj : (fs : Fields ℕ) → num 1 ≢ obj fs
num-obj fs e = cc

malformed_query_panics_example :
    (handle_message eval_name evening (new_message 3 malformed)).exit ≡ crashed
unfolding new_message
malformed_query_panics_example =
    malformed_query_panics eval_name evening (new_message 3 malformed) (num 1) nil
      (field "id" (str "a") end) end refl refl refl num-obj
