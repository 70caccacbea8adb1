-- ===== src/Actor/Firing.antt =====
-- Which commands a change of the status publishes.
use chik.Actor.Decoding.{Action}
use chik.Actor.Handler.{handle_message}
use chik.Prelude.{
  All, Bool, Bool-cases, List, Option, Option-cases, String, [], any_of, arith, concat, false,
  if◌then◌else◌, inl, inr, keep_if, map, none, not, refl, some, true, ◌&&◌, ◌||◌, ◌∷◌, ◌≡◌,
}
use chik.Actor.Compare.{Operand}
use chik.Actor.Handler.{Actor, evaluate, execute_actions, fires, perform}
use chik.Actor.Query.{
  FieldDescriptor, StateQuery, execute, field_descriptor, mixed_query, struct_query,
}
use chik.Controller.{Publication, crashed, done, loopback_id, publish}
use chik.Json.{Numbers, Value, unmarshal_map}
use chik.Messaging.{Message}
use chik.Prelude.Dict.{Dict}
use chik.Types.Command.{Command, status_notification_command_type}

module _ {N : Type 0} where
  -- Whether no command is a nil pointer.
  abbrev pub is_whole : List (Option (Command N)) → Bool
  is_whole [] = true
  is_whole (none ∷ commands) = false
  is_whole (some c ∷ commands) = is_whole commands

  -- The commands of a list, on the loopback.
  abbrev pub published : List (Option (Command N)) → List (Publication N)
  published [] = []
  published (none ∷ commands) = published commands
  published (some c ∷ commands) = publish c loopback_id ∷ published commands

  perform-whole :
      (commands : List (Option (Command N)))
      → is_whole commands ≡ true
      → perform commands ≡ (published commands, done)
  unfolding perform
  perform-whole [] whole = refl
  perform-whole (none ∷ commands) whole = cc
  perform-whole (some c ∷ commands) whole = rw (perform-whole commands whole)

  exit-perform :
      (commands : List (Option (Command N)))
      → (perform commands).1 ≡ (if is_whole commands then done else crashed)
  unfolding perform
  exit-perform [] = refl
  exit-perform (none ∷ commands) = refl
  exit-perform (some c ∷ commands) = exit-perform commands

module _ {N : Type 0} ⦃ops : Numbers N⦄ (eval : String → Dict String (Value N) → Option (Operand N))
    (previous current : Dict String (Value N)) where
  -- All queries match, and one of them saw a change.
  abbrev pub all_match : List (StateQuery N) → Bool
  all_match [] = true
  all_match (q ∷ queries) = (execute eval previous current q).match && all_match queries

  abbrev pub any_changed : List (StateQuery N) → Bool
  any_changed [] = false
  any_changed (q ∷ queries) = (execute eval previous current q).changed || any_changed queries

  abbrev pub due : Action N → Bool
  due a = all_match a.query && any_changed a.query

  evaluate_lem :
      (queries : List (StateQuery N)) (m c : Bool)
      → ((evaluate eval previous current queries (record { match = m; changed = c })).match
          && (evaluate eval previous current queries (record { match = m; changed = c })).changed)
        ≡ (m && all_match queries) && (c || any_changed queries)
  unfolding evaluate
  evaluate_lem [] m c = ground arith
  evaluate_lem (q ∷ queries) m c =
      let r = execute eval previous current q in
      let ih = evaluate_lem queries (m && r.match) (c || r.changed) in ground (arith, ih)

  fires-due : (a : Action N) → fires eval previous current a ≡ due a
  fires-due a = evaluate_lem a.query true false

  execute_actions-sent :
      (actions : List (Action N))
      → All (λ a. is_whole a.perform ≡ true) actions
      → execute_actions eval previous current actions
        ≡ (concat (map (λ a. published a.perform) (keep_if due actions)), done)
  unfolding execute_actions
  execute_actions-sent [] whole = refl
  execute_actions-sent (a ∷ actions) (w, whole) =
      let ih = execute_actions-sent actions whole in
      let p = perform-whole a.perform w in
      elim (Bool-cases (due a)) [
        | inl ready ↦ rw (fires-due a, ready) (ground (arith, p, ih))
        | inr idle ↦ rw (fires-due a, idle, ih)
      ]

  exit-execute_actions :
      (actions : List (Action N))
      → (execute_actions eval previous current actions).1
        ≡ (if any_of (λ a. due a && not (is_whole a.perform)) actions then crashed else done)
  unfolding execute_actions
  exit-execute_actions [] = refl
  exit-execute_actions (a ∷ actions) =
      let ih = exit-execute_actions actions in
      let stop = exit-perform a.perform in rw (fires-due a) (ground (arith, ih, stop))

  abbrev pub IsStill : Type 0
  IsStill =
      (key : String) (d : FieldDescriptor N)
      → field_descriptor eval previous current key ≡ some d
      → d.changed ≡ false

  changed-execute : IsStill → (q : StateQuery N) → (execute eval previous current q).changed ≡ false
  unfolding execute
  changed-execute still (struct_query var1 op var2 b) =
      elim (Option-cases (field_descriptor eval previous current var1)) [
        | inl missing ↦ rw (execute, missing)
        | inr (d, found) ↦ elim (Option-cases (field_descriptor eval previous current var2)) [
          | inl missing ↦ rw (execute, found, missing)
          | inr (d', found') ↦
              let s = still var1 d found in
              let s' = still var2 d' found' in rw (execute, found, found') (ground arith)
        ]
      ]
  changed-execute still (mixed_query var1 op constant b) =
      elim (Option-cases (field_descriptor eval previous current var1)) [
        | inl missing ↦ rw (execute, missing)
        | inr (d, found) ↦ let s = still var1 d found in rw (execute, found) (ground arith)
      ]

  any_changed_still : IsStill → (queries : List (StateQuery N)) → any_changed queries ≡ false
  any_changed_still still [] = refl
  any_changed_still still (q ∷ queries) =
      rw (changed-execute still q, any_changed_still still queries)

  -- When no expression has another value than in the status before, no action is due, and nothing is
  -- published, whatever the queries are.
  pub execute_actions_still :
      IsStill
      → (actions : List (Action N)) → execute_actions eval previous current actions ≡ ([], done)
  unfolding execute_actions
  execute_actions_still still [] = refl
  execute_actions_still still (a ∷ actions) =
      let ih = execute_actions_still still actions in
      let idle = any_changed_still still a.query in rw (fires-due a, idle) (ground (arith, ih))

module _ {N : Type 0} ⦃ops : Numbers N⦄
    (eval : String → Dict String (Value N) → Option (Operand N)) where
  -- A status notification performs exactly the actions whose queries all match the new status and of
  -- which one saw a change, in the order of the actions and of their commands, all on the loopback;
  -- then the new status is the one to compare the next with. No command is nil.
  pub handle_message-performs :
      (h : Actor N) (m : Message N) {c : Command N} {status : Dict String (Value N)}
      → m.command ≡ some c
      → c.kind ≡ status_notification_command_type
      → unmarshal_map c.content ≡ some status
      → All (λ a. is_whole a.perform ≡ true) h.actions
      → handle_message eval h m ≡ record {
        state = record h { previous_state = status };
        sent =
            concat (
              map
                (λ a. published a.perform)
                (keep_if (due eval h.previous_state status) h.actions));
        exit = done;
      }
  unfolding handle_message
  handle_message-performs h m {c} {status} carried notified decoded whole =
      let all = execute_actions-sent eval h.previous_state status h.actions whole in
      ground (arith, all)

  -- It panics exactly if one of the actions that are due has a nil command.
  pub handle_message-crashes :
      (h : Actor N) (m : Message N) {c : Command N} {status : Dict String (Value N)}
      → m.command ≡ some c
      → c.kind ≡ status_notification_command_type
      → unmarshal_map c.content ≡ some status
      → (handle_message eval h m).exit ≡ (
          if any_of (λ a. due eval h.previous_state status a && not (is_whole a.perform)) h.actions
          then crashed
          else done)
  unfolding handle_message
  handle_message-crashes h m {c} {status} carried notified decoded =
      let end = exit-execute_actions eval h.previous_state status h.actions in
      rw (carried, notified, decoded) (ground (arith, end))
