-- ===== src/Json.antt =====
-- JSON values as encoding/json decodes them into Go `interface{}` values. A `json.RawMessage` stands
-- here as the value that its text denotes. Number literals are abstract: `Numbers` has what the
-- source asks of them.
pub mod Struct
pub mod Equal
use chik.Prelude.{Bool, List, Option, String, [], nat_eq, none, some, string_eq, ℕ, ◌∷◌, ◌≡◌}
use chik.Prelude.Dict.{Dict, insert}

mutual
  pub data Value (N : Type 0) : Type 0 where
    null : Value N
    bool : Bool → Value N
    num : N → Value N
    str : String → Value N
    arr : Items N → Value N
    obj : Fields N → Value N

  pub data Items (N : Type 0) : Type 0 where
    nil : Items N
    item : Value N → Items N → Items N

  pub data Fields (N : Type 0) : Type 0 where
    end : Fields N
    field : String → Value N → Fields N → Fields N

-- Number literals: the unsigned integers among them, and their order and sums as float64.
pub record Numbers (N : Type 0) : Type 0 where
  pub of_nat : ℕ → N
  pub to_nat : N → Option ℕ
  pub to_nat-of_nat : (n : ℕ) → to_nat (of_nat n) ≡ some n
  pub eq : N → N → Bool
  pub lt : N → N → Bool
  pub add : N → N → N
  pub sub : N → N → N

module _ {N : Type 0} where
  abbrev pub items : Items N → List (Value N)
  items nil = []
  items (item v vs) = v ∷ items vs

  abbrev pub of_items : List (Value N) → Items N
  of_items [] = nil
  of_items (v ∷ vs) = item v (of_items vs)

  -- A decoded object: of a repeated key the last value stays.
  abbrev insert_all : Dict String (Value N) → Fields N → Dict String (Value N)
  insert_all m end = m
  insert_all m (field k v fs) = insert_all (insert k v m) fs

  unfoldable pub to_map : Fields N → Dict String (Value N)
  to_map fs = insert_all [] fs

  abbrev pub of_map : Dict String (Value N) → Fields N
  of_map [] = end
  of_map ((k, v) ∷ m) = field k v (of_map m)

  -- json.Unmarshal into a `map[string]interface{}`.
  unfoldable pub unmarshal_map : Option (Value N) → Option (Dict String (Value N))
  unmarshal_map (some (obj fs)) = some (to_map fs)
  unmarshal_map (some null) = some []
  unmarshal_map _ = none
