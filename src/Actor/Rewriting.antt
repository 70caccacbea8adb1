-- ===== src/Actor/Rewriting.antt =====
-- What the actor writes as JSON it reads back.
use chik.Actor.Handler.{handle_message}
use chik.Prelude.Outcome.{◌>>=◌}
use chik.Actor.Decoding.{Action}
use chik.Prelude.{
  All, Bool, Bool-cases, List, Option, Option-cases, String, [], arith, eq_iff, false, inl, inr,
  lt→ltb, nat_eq, none, refl, some, string_eq, true, ◌<◌, ◌==◌, ◌∙◌, ◌∷◌, ◌≡◌, ◌≢◌,
}
use chik.Actor.Compare.{Operand}
use chik.Actor.Decoding.{
  as_any, blank_query, commands_from, decode_action_command, decode_commands, decode_into,
  decode_queries, empty_action, query_from_raw, set_action, set_queries, set_query,
}
use chik.Actor.Encoding.{action_value, command_items, query_fields, query_items}
use chik.Actor.Handler.{Actor}
use chik.Actor.Query.{StateQuery, mixed_query, struct_query}
use chik.Controller.{crashed}
use chik.Json.{Fields, Items, Numbers, Value, arr, bool, field, item, null, num, obj, str, to_map}
use chik.Json.Struct.{names_field}
use chik.Messaging.{Message}
use chik.Prelude.Dict.{Dict, insert, lookup}
use chik.Prelude.Outcome.{Outcome, err, ok, panic}
use chik.Types.Command.{Command, action_request_command_type}

bind_ok :
    {E A B : Type 0} (m : Outcome E A) {f : A → Outcome E B} {b : B}
    → (m >>= f) ≡ ok b
    → (a : A) × (m ≡ ok a) × (f a ≡ ok b)
bind_ok (ok a) e = (a, refl, e)
bind_ok (err x) e = cc
bind_ok panic e = cc

module _ {N : Type 0} where
  -- The constant of a query is not null.
  abbrev pub IsStorable : StateQuery N → Type 0
  IsStorable (struct_query var1 op var2 detrigger) = Unit {0}
  IsStorable (mixed_query var1 op constant detrigger) = constant ≢ null

  as_any_not_null : (v : Value N) → v ≢ null → as_any v ≡ ok v
  unfolding as_any
  as_any_not_null null s = absurd (s refl)
  as_any_not_null (bool b) s = refl
  as_any_not_null (num x) s = refl
  as_any_not_null (str t) s = refl
  as_any_not_null (arr vs) s = refl
  as_any_not_null (obj fs) s = refl

  query_from_raw_lem :
      (q : StateQuery N) → IsStorable q → query_from_raw (to_map (query_fields q)) ≡ ok q
  unfolding query_from_raw to_map insert lookup
  query_from_raw_lem (struct_query var1 op var2 true) s = refl
  query_from_raw_lem (struct_query var1 op var2 false) s = refl
  query_from_raw_lem (mixed_query var1 op constant true) s = rw (as_any_not_null constant s)
  query_from_raw_lem (mixed_query var1 op constant false) s = rw (as_any_not_null constant s)

  -- The queries of an action are read back as they were written, if no constant among them is null.
  pub decode_queries-query_items :
      (queries : List (StateQuery N))
      → All IsStorable queries
      → decode_queries (arr (query_items queries)) ≡ ok queries
  unfolding decode_queries query_items
  decode_queries-query_items [] s = refl
  decode_queries-query_items (q ∷ queries) (s, ss) =
      let ih = decode_queries-query_items queries ss in rw (query_from_raw_lem q s) (rw ih)

  abbrev is_mixed : StateQuery N → Bool
  is_mixed (struct_query var1 op var2 detrigger) = false
  is_mixed (mixed_query var1 op constant detrigger) = true

  is_mixed-set_query :
      (k : String) (v : Value N) (q : StateQuery N) {q' : StateQuery N}
      → set_query k v q ≡ ok q'
      → is_mixed q' ≡ is_mixed q
  unfolding set_query
  is_mixed-set_query k v (struct_query var1 op var2 detrigger) e = ground arith
  is_mixed-set_query k v (mixed_query var1 op constant detrigger) e = ground arith

  const_unknown :
      (k : String) (v : Value N) (q q' : StateQuery N)
      → is_mixed q ≡ true
      → k ≡ "Const"
      → set_query k v q ≢ ok q'
  unfolding set_query
  const_unknown k v (struct_query var1 op var2 detrigger) q' mixed e set = cc
  const_unknown k v (mixed_query var1 op constant detrigger) q' mixed e set =
      let shut : set_query "Const" v (mixed_query var1 op constant detrigger) ≡ ok q' =
        rw e at set in
      cc

  set_queries_const :
      (raw : Dict String (Value N)) (v : Value N) (q q' : StateQuery N)
      → lookup "Const" raw ≡ some v
      → is_mixed q ≡ true
      → set_queries raw q ≢ ok q'
  unfolding lookup set_queries
  set_queries_const [] v q q' found mixed got = cc
  set_queries_const ((k, w) ∷ raw) v q q' found mixed got =
      let (next, first, later) = bind_ok (set_query k w q) got in
      elim (Bool-cases (k == "Const")) [
        | inl same ↦ const_unknown k w q next mixed (ground (arith, eq_iff k "Const")) first
        | inr away ↦
            set_queries_const raw v next q' (rw away at found)
              (is_mixed-set_query k w q first ∙ mixed) later
      ]

  -- A query whose object has the key "Const" is never read: the key chooses the kind of query with a
  -- constant, which has no field of that name. It is refused, or the handler panics on another key.
  pub const_refused :
      (raw : Dict String (Value N)) (v : Value N)
      → lookup "Const" raw ≡ some v
      → (q : StateQuery N) → query_from_raw raw ≢ ok q
  unfolding query_from_raw
  const_refused raw v found q =
      set_queries_const raw v (blank_query raw) q found (ground (arith, found))

module _ {N : Type 0} ⦃ops : Numbers N⦄ where
  -- A nil command, or one with a type that fits a uint8 and with content.
  abbrev pub IsSent : Option (Command N) → Type 0
  IsSent none = Unit {0}
  IsSent (some c) = (c.kind < 256) × (c.content ≢ none)

  commands_from_lem :
      (commands : List (Option (Command N)))
      → All IsSent commands
      → commands_from (command_items commands) ≡ ok (commands, true)
  unfolding commands_from command_items names_field
  commands_from_lem [] s = refl
  commands_from_lem (none ∷ commands) (s, ss) = rw (commands_from_lem commands ss)
  commands_from_lem (some c ∷ commands) ((small, held), ss) =
      let ih = commands_from_lem commands ss in
      elim (Option-cases c.content) [
        | inl without ↦ absurd (held without)
        | inr (v, e) ↦ rw (e, ops.to_nat-of_nat c.kind, lt→ltb c.kind 256 small, ih)
      ]

  decode_fields_of :
      (id : String) (query : List (StateQuery N)) (commands : List (Option (Command N)))
      → decode_queries (arr (query_items query)) ≡ ok query
      → commands_from (command_items commands) ≡ ok (commands, true)
      → (let a : Action N = record { id = id; query = query; perform = commands } in
          decode_into set_action empty_action (action_value a) ≡ ok (a, true))
  unfolding decode_into set_action action_value names_field decode_commands
  decode_fields_of id [] [] read performed = refl
  decode_fields_of id (q ∷ qs) [] read performed = rw read
  decode_fields_of id [] (c ∷ cs) read performed = rw performed
  decode_fields_of id (q ∷ qs) (c ∷ cs) read performed = rw (read, performed)

  -- An action is read back as it was written, if its constants are not null and its commands are nil or
  -- have a type that fits a uint8 and content.
  pub decode-action_value :
      (a : Action N)
      → All IsStorable a.query
      → All IsSent a.perform
      → decode_into set_action empty_action (action_value a) ≡ ok (a, true)
  decode-action_value a storable sent =
      decode_fields_of a.id a.query a.perform (decode_queries-query_items a.query storable)
        (commands_from_lem a.perform sent)

module _ {N : Type 0} ⦃ops : Numbers N⦄
    (eval : String → Dict String (Value N) → Option (Operand N)) where
  queries_panic :
      (v : Value N) (vs : Items N)
      → ((fs : Fields N) → v ≢ obj fs)
      → decode_queries (arr (item v vs)) ≡ panic
  unfolding decode_queries
  queries_panic null vs other = refl
  queries_panic (bool b) vs other = refl
  queries_panic (num x) vs other = refl
  queries_panic (str t) vs other = refl
  queries_panic (arr ws) vs other = refl
  queries_panic (obj fs) vs other = absurd (other fs refl)

  request_panic :
      (v : Value N) (vs : Items N) (more_of_value more_of_request : Fields N)
      → ((fs : Fields N) → v ≢ obj fs)
      → decode_action_command (
          some (
            obj (
              field "value" (obj (field "query" (arr (item v vs)) more_of_value)) more_of_request)))
        ≡ panic
  unfolding decode_action_command names_field decode_into set_action
  request_panic v vs more_of_value more_of_request other = rw (queries_panic v vs other)

  -- An action request that begins with its value, which begins with its queries, makes the handler panic if the
  -- first of these queries is something else than an object: whatever comes after the queries and after the value,
  -- whoever sent it and whatever the state of the actor is.
  pub malformed_query_panics :
      (h : Actor N) (m : Message N) (v : Value N) (vs : Items N)
      (more_of_value more_of_request : Fields N) {c : Command N}
      → m.command ≡ some c
      → c.kind ≡ action_request_command_type
      → c.content
        ≡ some (
            obj
              (field "value" (obj (field "query" (arr (item v vs)) more_of_value)) more_of_request))
      → ((fs : Fields N) → v ≢ obj fs)
      → (handle_message eval h m).exit ≡ crashed
  unfolding handle_message
  malformed_query_panics h m v vs more_of_value more_of_request {c} carried kind content other =
      let stop = request_panic v vs more_of_value more_of_request other in ground (arith, stop)
