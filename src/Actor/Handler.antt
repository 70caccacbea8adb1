-- ===== src/Actor/Handler.antt =====
-- handlers/actor/actor.go: when actions are performed, and how they are edited.
use chik.Actor.Decoding.{Action}
use chik.Prelude.{
  Bool, List, Option, String, [], any_of, false, if◌then◌else◌, keep_if, nat_eq, none, not, some,
  string_eq, true, ◌&&◌, ◌++◌, ◌==◌, ◌||◌, ◌∷◌,
}
use chik.Actor.Compare.{Operand}
use chik.Actor.Decoding.{ActionCommand, decode_action_command}
use chik.Actor.Encoding.{actions_value}
use chik.Actor.Query.{QueryResult, StateQuery, execute}
use chik.Controller.{Exit, Publication, Step, crashed, done, failed, loopback_id, publish, reply}
use chik.Json.{Numbers, Value, unmarshal_map}
use chik.Messaging.{Message}
use chik.Prelude.Dict.{Dict}
use chik.Prelude.Outcome.{err, ok, panic}
use chik.Types.Command.{
  Command, action_reply_command_type, action_request_command_type, get, reset, set,
  status_notification_command_type,
}

pub record Actor (N : Type 0) : Type 0 where
  pub actions : List (Action N)
  pub previous_state : Dict String (Value N)

module _ {N : Type 0} where
  -- Publishes the commands of an action on the loopback; a nil command ends in a panic.
  unfoldable pub perform : List (Option (Command N)) → List (Publication N) × Exit
  perform [] = ([], done)
  perform (none ∷ commands) = ([], crashed)
  perform (some c ∷ commands) =
      let (sent, exit) = perform commands in (publish c loopback_id ∷ sent, exit)

  -- SET: every action of that ID is replaced, or the action is added at the end.
  unfoldable pub replace_action : Action N → List (Action N) → List (Action N)
  replace_action new [] = []
  replace_action new (a ∷ actions) =
      (if a.id == new.id then new else a) ∷ replace_action new actions

  unfoldable pub store_action : Action N → List (Action N) → List (Action N)
  unfolding replace_action
  store_action new actions =
      if any_of (λ a. a.id == new.id) actions
      then replace_action new actions
      else actions ++ new ∷ []

  -- RESET.
  unfoldable pub remove_action : String → List (Action N) → List (Action N)
  remove_action id actions = keep_if (λ a. not (a.id == id)) actions

  -- The actions after a request, or `none` for a request of another kind, which has no answer.
  unfoldable pub edited : ActionCommand N → List (Action N) → Option (List (Action N))
  unfolding store_action remove_action
  edited request actions =
      if request.action == get
      then some actions
      else if request.action == set
      then some (store_action request.value actions)
      else if request.action == reset
      then some (remove_action request.value.id actions)
      else none

module _ {N : Type 0} ⦃ops : Numbers N⦄ where
  -- A request that does not decode is an error of the handler.
  unfoldable pub handle_request : Actor N → Message N → Option (Value N) → Step N (Actor N)
  unfolding edited
  handle_request h m content = elim (decode_action_command content) [
    | ok request ↦ elim (edited request h.actions) [
      | none ↦ record { state = h; sent = []; exit = done }
      | some actions ↦ record {
        state = record h { actions = actions };
        sent = reply m action_reply_command_type (actions_value actions) ∷ [];
        exit = done;
      }
    ]
    | err e ↦ record { state = h; sent = []; exit = failed }
    | panic ↦ record { state = h; sent = []; exit = crashed }
  ]

module _ {N : Type 0} ⦃ops : Numbers N⦄ (eval : String → Dict String (Value N) → Option (Operand N))
    (previous current : Dict String (Value N)) where
  -- The inner loop, which stops at the first query that does not match.
  unfoldable pub evaluate : List (StateQuery N) → QueryResult → QueryResult
  evaluate [] composed = composed
  evaluate (q ∷ queries) composed =
      let result = execute eval previous current q in
      let composed' : QueryResult = record {
        match = composed.match && result.match;
        changed = composed.changed || result.changed;
      } in
      let rest = evaluate queries composed' in if composed'.match then rest else composed'

  abbrev pub fires : Action N → Bool
  fires a =
      let result = evaluate a.query (record { match = true; changed = false }) in
      result.match && result.changed

  -- `executeActions`.
  unfoldable pub execute_actions : List (Action N) → List (Publication N) × Exit
  unfolding evaluate perform
  execute_actions [] = ([], done)
  execute_actions (a ∷ actions) =
      let rest = execute_actions actions in
      let (sent, exit) = perform a.perform in
      if fires a
      then elim exit [
        | done ↦ (sent ++ rest.0, rest.1)
        | failed ↦ (sent, failed)
        | crashed ↦ (sent, crashed)
      ]
      else rest

module _ {N : Type 0} ⦃ops : Numbers N⦄
    (eval : String → Dict String (Value N) → Option (Operand N)) where
  -- A status notification; what does not decode counts as the nil status.
  unfoldable pub handle_status : Actor N → Option (Value N) → Step N (Actor N)
  unfolding execute_actions
  handle_status h content =
      let status : Dict String (Value N) = elim (unmarshal_map content) [
        | none ↦ []
        | some s ↦ s
      ] in
      let (sent, exit) = execute_actions eval h.previous_state status h.actions in
      record {
        state = elim exit [
          | done ↦ record h { previous_state = status }
          | failed ↦ h
          | crashed ↦ h
        ];
        sent = sent;
        exit = exit;
      }

  -- `actor.HandleMessage`.
  unfoldable pub handle_message : Actor N → Message N → Step N (Actor N)
  unfolding handle_status handle_request
  handle_message h m = elim m.command [
    | none ↦ record { state = h; sent = []; exit = crashed }
    | some c ↦
        if c.kind == status_notification_command_type
        then handle_status h c.content
        else if c.kind == action_request_command_type
        then handle_request h m c.content
        else record { state = h; sent = []; exit = done }
  ]
