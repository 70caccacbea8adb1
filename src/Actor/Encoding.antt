-- ===== src/Actor/Encoding.antt =====
-- handlers/actor/actor.go and query.go: json.Marshal of actions.
use chik.Actor.Decoding.{Action}
use chik.Prelude.{Bool, List, Option, [], false, none, some, true, ◌∷◌}
use chik.Actor.Query.{StateQuery, mixed_query, struct_query}
use chik.Json.{Fields, Items, Numbers, Value, arr, bool, end, field, item, nil, null, num, obj, str}
use chik.Types.Command.{Command}

module _ {N : Type 0} where
  -- `omitempty` leaves out a false trigger switch.
  abbrev pub detrigger_field : Bool → Fields N
  detrigger_field false = end
  detrigger_field true = field "disable_trigger_on_change" (bool true) end

  abbrev pub query_fields : StateQuery N → Fields N
  query_fields (struct_query var1 op var2 detrigger) =
      field "var1" (str var1)
        (field "op" (str op) (field "var2" (str var2) (detrigger_field detrigger)))
  query_fields (mixed_query var1 op constant detrigger) =
      field "var1" (str var1)
        (field "op" (str op) (field "const" constant (detrigger_field detrigger)))

  unfoldable pub query_items : List (StateQuery N) → Items N
  query_items [] = nil
  query_items (q ∷ queries) = item (obj (query_fields q)) (query_items queries)

module _ {N : Type 0} ⦃ops : Numbers N⦄ where
  -- A command without content has a nil raw message, which is written as null.
  unfoldable pub command_value : Option (Command N) → Value N
  command_value none = null
  command_value (some c) =
      let body : Value N = elim c.content [ none ↦ null | some v ↦ v ] in
      obj (field "type" (num (ops.of_nat c.kind)) (field "data" body end))

  unfoldable pub command_items : List (Option (Command N)) → Items N
  unfolding command_value
  command_items [] = nil
  command_items (c ∷ commands) = item (command_value c) (command_items commands)

  -- Empty lists are left out.
  unfoldable pub action_value : Action N → Value N
  unfolding query_items command_items
  action_value a =
      let performed : Fields N = elim a.perform [
        | [] ↦ end
        | c ∷ commands ↦ field "perform" (arr (command_items a.perform)) end
      ] in
      let queried : Fields N = elim a.query [
        | [] ↦ performed
        | q ∷ queries ↦ field "query" (arr (query_items a.query)) performed
      ] in
      obj (field "id" (str a.id) queried)

  action_items : List (Action N) → Items N
  unfolding action_value
  action_items [] = nil
  action_items (a ∷ actions) = item (action_value a) (action_items actions)

  unfoldable pub actions_value : List (Action N) → Value N
  unfolding action_items
  actions_value actions = arr (action_items actions)
