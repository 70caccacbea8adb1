-- ===== src/Actor/Decoding.antt =====
-- handlers/actor/query.go and actor.go: actions as JSON. encoding/json goes on after a value of a wrong
-- type and returns the error at the end (the Boolean is then false); an error of `UnmarshalJSON` stops
-- it at once. A decoded object is gone through in the order of its keys, Go's order being random.
use chik.Prelude.Outcome.{◌>>=◌}
use chik.Prelude.{
  Bool, List, Option, String, [], false, if◌then◌else◌, nat_eq, none, some, string_eq, true, ◌&&◌,
  ◌==◌, ◌||◌, ◌∷◌,
}
use chik.Actor.Query.{StateQuery, mixed_query, struct_query}
use chik.Json.{
  Fields, Items, Numbers, Value, arr, bool, end, field, item, nil, null, obj, str, to_map,
}
use chik.Json.Struct.{decode_string, decode_uint, names_field}
use chik.Prelude.Dict.{Dict, lookup}
use chik.Prelude.Outcome.{Outcome, err, ok, panic}
use chik.Types.Command.{Command, set}

pub record Action (N : Type 0) : Type 0 where
  pub id : String
  pub query : List (StateQuery N)
  pub perform : List (Option (Command N))

pub record ActionCommand (N : Type 0) : Type 0 where
  pub action : chik.Types.Command.Action
  pub value : Action N

-- A value, and whether no error was put aside.
abbrev pub Result : Type 0 → Type 0
Result A = Outcome (Unit {0}) (A × Bool)

abbrev kept : {A : Type 0} → A → Option A → Result A
kept old none = ok (old, false)
kept old (some new) = ok (new, true)

module _ {N : Type 0} where
  -- `reflect.Value.Set` panics on a value of another type, and on nil.
  as_string : Value N → Outcome (Unit {0}) String
  as_string (str s) = ok s
  as_string _ = panic

  as_bool : Value N → Outcome (Unit {0}) Bool
  as_bool (bool b) = ok b
  as_bool _ = panic

  unfoldable pub as_any : Value N → Outcome (Unit {0}) (Value N)
  as_any null = panic
  as_any v = ok v

  -- One key of the object: the field of exactly that JSON name, or an error.
  unfoldable pub set_query : String → Value N → StateQuery N → Outcome (Unit {0}) (StateQuery N)
  unfolding as_string as_bool as_any
  set_query k v (struct_query var1 op var2 detrigger) =
      if k == "var1"
      then (do s ← as_string v; ok (struct_query s op var2 detrigger))
      else if k == "op"
      then (do s ← as_string v; ok (struct_query var1 s var2 detrigger))
      else if k == "var2"
      then (do s ← as_string v; ok (struct_query var1 op s detrigger))
      else if k == "disable_trigger_on_change"
      then (do b ← as_bool v; ok (struct_query var1 op var2 b))
      else err tt
  set_query k v (mixed_query var1 op constant detrigger) =
      if k == "var1"
      then (do s ← as_string v; ok (mixed_query s op constant detrigger))
      else if k == "op"
      then (do s ← as_string v; ok (mixed_query var1 s constant detrigger))
      else if k == "const"
      then (do c ← as_any v; ok (mixed_query var1 op c detrigger))
      else if k == "disable_trigger_on_change"
      then (do b ← as_bool v; ok (mixed_query var1 op constant b))
      else err tt

  unfoldable pub set_queries :
      Dict String (Value N) → StateQuery N → Outcome (Unit {0}) (StateQuery N)
  unfolding set_query
  set_queries [] q = ok q
  set_queries ((k, v) ∷ raw) q = do q' ← set_query k v q; set_queries raw q'

  abbrev pub has_key : String → Dict String (Value N) → Bool
  has_key k raw = elim (lookup k raw) [ none ↦ false | some v ↦ true ]

  -- The empty query of the kind that the keys tell.
  abbrev pub blank_query : Dict String (Value N) → StateQuery N
  blank_query raw =
      if has_key "Const" raw || has_key "const" raw
      then mixed_query "" "" null false
      else struct_query "" "" "" false

  unfoldable pub query_from_raw : Dict String (Value N) → Outcome (Unit {0}) (StateQuery N)
  unfolding set_queries
  query_from_raw raw = set_queries raw (blank_query raw)

  queries_from : Items N → Outcome (Unit {0}) (List (StateQuery N))
  unfolding query_from_raw
  queries_from nil = ok []
  queries_from (item (obj fs) vs) = do
    q ← query_from_raw (to_map fs)
    qs ← queries_from vs
    ok (q ∷ qs)
  queries_from (item _ vs) = panic

  -- `StateQueries.UnmarshalJSON`.
  unfoldable pub decode_queries : Value N → Outcome (Unit {0}) (List (StateQuery N))
  unfolding queries_from
  decode_queries (arr vs) = queries_from vs
  decode_queries null = ok []
  decode_queries _ = err tt

module _ {N S : Type 0} (set_field : String → Value N → S → Result S) where
  pub set_fields : Fields N → S → Result S
  set_fields end s = ok (s, true)
  set_fields (field k v fs) s =
      set_field k v s >>= λ r. set_fields fs r.0 >>= λ r'. ok (r'.0, r.1 && r'.1)

  -- A struct inside of another, or at the top.
  unfoldable pub decode_into : S → Value N → Result S
  unfolding set_fields
  decode_into s (obj fs) = set_fields fs s
  decode_into s null = ok (s, true)
  decode_into s _ = ok (s, false)

module _ {N : Type 0} ⦃ops : Numbers N⦄ where
  unfoldable pub set_command : String → Value N → Command N → Result (Command N)
  set_command k v c =
      if names_field k "type"
      then (do r ← kept c.kind (decode_uint 256 c.kind v); ok (record c { kind = r.0 }, r.1))
      else if names_field k "data"
      then ok (record c { content = some v }, true)
      else ok (c, true)

  -- The list of pointers to commands; null is a nil pointer.
  unfoldable pub commands_from : Items N → Result (List (Option (Command N)))
  unfolding set_command decode_into
  commands_from nil = ok ([], true)
  commands_from (item v vs) =
      let rest = commands_from vs in
      let first : Result (Option (Command N)) = elim v as (λ w. Result (Option (Command N))) [
        | null ↦ ok (none, true)
        | _ ↦ decode_into set_command (record { kind = 0; content = none }) v >>= λ r.
            ok (some r.0, r.1)
      ] in
      first >>= λ r. rest >>= λ r'. ok (r.0 ∷ r'.0, r.1 && r'.1)

  unfoldable pub decode_commands :
      List (Option (Command N)) → Value N → Result (List (Option (Command N)))
  unfolding commands_from
  decode_commands old (arr vs) = commands_from vs
  decode_commands old null = ok ([], true)
  decode_commands old _ = ok (old, false)

  unfoldable pub set_action : String → Value N → Action N → Result (Action N)
  unfolding decode_queries decode_commands
  set_action k v a =
      if names_field k "id"
      then (do r ← kept a.id (decode_string a.id v); ok (record a { id = r.0 }, r.1))
      else if names_field k "query"
      then (do qs ← decode_queries v; ok (record a { query = qs }, true))
      else if names_field k "perform"
      then (do r ← decode_commands a.perform v; ok (record a { perform = r.0 }, r.1))
      else ok (a, true)

  abbrev pub empty_action : Action N
  empty_action = record { id = ""; query = []; perform = [] }

  set_action_command : String → Value N → ActionCommand N → Result (ActionCommand N)
  unfolding set_action decode_into
  set_action_command k v c =
      if names_field k "action"
      then (do
        r ← kept c.action (decode_uint 65536 c.action v)
        ok (record c { action = r.0 }, r.1))
      else if names_field k "value"
      then (do r ← decode_into set_action c.value v; ok (record c { value = r.0 }, r.1))
      else ok (c, true)

  -- json.Unmarshal of a request: an error put aside is returned in the end.
  unfoldable pub decode_action_command : Option (Value N) → Outcome (Unit {0}) (ActionCommand N)
  unfolding set_action_command decode_into
  decode_action_command none = err tt
  decode_action_command (some v) =
      decode_into set_action_command (record { action = set; value = empty_action }) v >>= λ r.
      if r.1 then ok r.0 else err tt
