-- ===== src/Actor/Query.antt =====
-- handlers/actor/query.go: queries over the previous and the current status. The expressions are those
-- of the gval library: `eval` gives the value of an expression in a status, or `none` for an error.
use chik.Prelude.{Bool, Option, String, false, none, not, some, ◌&&◌, ◌||◌}
use chik.Actor.Compare.{Operand, compare_by, deep_equal, json}
use chik.Json.{Numbers, Value, null}
use chik.Prelude.Dict.{Dict}

pub record QueryResult : Type 0 where
  pub match : Bool
  pub changed : Bool

-- The first compares two expressions, the second an expression with a constant. The last field says
-- that a change does not trigger.
pub data StateQuery (N : Type 0) : Type 0 where
  struct_query : (var1 op var2 : String) (detrigger : Bool) → StateQuery N
  mixed_query : (var1 op : String) (constant : Value N) (detrigger : Bool) → StateQuery N

pub record FieldDescriptor (N : Type 0) : Type 0 where
  pub value : Operand N
  pub changed : Bool

abbrev pub no_result : QueryResult
no_result = record { match = false; changed = false }

module _ {N : Type 0} ⦃ops : Numbers N⦄ (eval : String → Dict String (Value N) → Option (Operand N))
    (previous current : Dict String (Value N)) where
  -- `GetFieldDescriptor`: an expression that fails on the previous status counts as nil there.
  unfoldable pub field_descriptor : String → Option (FieldDescriptor N)
  field_descriptor key = elim (eval key current) [
    | none ↦ none
    | some value ↦
        let old : Operand N = elim (eval key previous) [ none ↦ json null | some v ↦ v ] in
        some (record { value = value; changed = not (deep_equal old value) })
  ]

  -- `Execute` of both kinds; an error is logged, and its result does not match.
  unfoldable pub execute : StateQuery N → QueryResult
  unfolding field_descriptor
  execute (struct_query var1 op var2 detrigger) = elim (field_descriptor var1) [
    | none ↦ no_result
    | some first ↦ elim (field_descriptor var2) [
      | none ↦ no_result
      | some second ↦ elim (compare_by op first.value second.value) [
        | none ↦ no_result
        | some match ↦ record {
          match = match;
          changed = not detrigger && (first.changed || second.changed);
        }
      ]
    ]
  ]
  execute (mixed_query var1 op constant detrigger) = elim (field_descriptor var1) [
    | none ↦ no_result
    | some first ↦ elim (compare_by op first.value (json constant)) [
      | none ↦ no_result
      | some match ↦ record { match = match; changed = not detrigger && first.changed }
    ]
  ]
