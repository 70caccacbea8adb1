-- ===== src/Actor/Compare.antt =====
-- handlers/actor/compare.go. An operand is a decoded JSON value, a time, or a duration in nanoseconds.
use Prim.Native.Char.{code}
use chik.Prelude.{
  Bool, Option, String, false, if◌then◌else◌, nat_eq, none, not, some, string_eq, true, ℕ, ◌&&◌,
  ◌==◌,
}
use chik.Json.{Numbers, Value, num}
use chik.Json.Equal.{value_equal}
use chik.Prelude.Int.{abs, negsuc, pos, ℤ, ◌-ℤ◌}
use chik.Types.Time.{TimeIndication, compare_time}

pub data Operand (N : Type 0) : Type 0 where
  json : Value N → Operand N
  time : TimeIndication → Operand N
  duration : ℤ → Operand N

-- `strings.Trim` of blanks, at the two ends of a text.
abbrev is_blank : ℕ → Bool
is_blank c = c == 32

abbrev is_empty : String → Bool
is_empty String.[] = true
is_empty (String.◌∷◌ c text) = false

trim_left : String → String
trim_left String.[] = ""
trim_left (String.◌∷◌ c text) =
    let shorter = trim_left text in if is_blank (code c) then shorter else String.◌∷◌ c text

trim_right : String → String
trim_right String.[] = ""
trim_right (String.◌∷◌ c text) =
    let kept = trim_right text in
    if is_blank (code c) && is_empty kept then "" else String.◌∷◌ c kept

unfoldable pub trim : String → String
unfolding trim_left trim_right
trim text = trim_right (trim_left text)

module _ {N : Type 0} ⦃ops : Numbers N⦄ where
  -- `reflect.DeepEqual` of two operands.
  unfoldable pub deep_equal : Operand N → Operand N → Bool
  deep_equal (json v) (json w) = value_equal v w
  deep_equal (time t) (time u) = abs (t -ℤ u) == 0
  deep_equal (duration d) (duration e) = abs (d -ℤ e) == 0
  deep_equal _ _ = false

  -- `equal`: two times that are less than ten seconds apart are equal.
  unfoldable pub equal : Operand N → Operand N → Bool
  unfolding deep_equal
  equal (time t) (time u) = abs (compare_time t u) == 0
  equal x y = deep_equal x y

  -- `greater`; `none` is the error.
  unfoldable pub greater : Operand N → Operand N → Option Bool
  greater (time t) (time u) = some (abs (compare_time t u -ℤ pos 1) == 0)
  greater (json (num a)) (json (num b)) = some (ops.lt b a)
  greater _ _ = none

  unfoldable pub less : Operand N → Operand N → Option Bool
  less (time t) (time u) = some (abs (compare_time t u -ℤ negsuc 0) == 0)
  less (json (num a)) (json (num b)) = some (ops.lt a b)
  less _ _ = none

  -- `Compare`; `none` is any error.
  unfoldable pub compare_by : String → Operand N → Operand N → Option Bool
  unfolding trim equal greater less
  compare_by operator x y =
      let op = trim operator in
      if op == "=="
      then some (equal x y)
      else if op == "!="
      then some (not (equal x y))
      else if op == ">"
      then greater x y
      else if op == "<"
      then less x y
      else none
