-- ===== src/Actor/Durations.antt =====
-- Go's time.ParseDuration (of Go 1.20), as handlers/actor/query.go uses it, on the code points of a text. What
-- its floats make of a fraction is an argument.
use chik.Prelude.{
  Bool, Bool-cases, List, Option, Option-cases, [], arith, false, if◌then◌else◌, inl, inr, length,
  ltb, nat_eq, none, not, some, string_eq, true, ℕ, ◌%◌, ◌&&◌, ◌*◌, ◌+◌, ◌-◌, ◌/◌, ◌==◌, ◌^◌, ◌||◌,
  ◌∷◌, ◌≡◌, ◌≤◌,
}
use chik.Decimal.{is_digit, opposite_of}
use chik.Prelude.Int.{int_eq, negsuc, pos, ℤ, ◌≤ℤ◌}
use chik.Types.Time.{second}

abbrev max_units : ℕ
max_units = 2 ^ 63

-- A number of a text with its unit; both are as long as they can be.
pub record Part : Type 0 where
  pub number : List ℕ
  pub unit : List ℕ

abbrev is_numeric : ℕ → Bool
is_numeric c = c == b'.' || is_digit c

abbrev add_numeric : ℕ → List Part → List Part
add_numeric c [] = record { number = c ∷ []; unit = [] } ∷ []
add_numeric c (p ∷ parts) = record p { number = c ∷ p.number } ∷ parts

abbrev add_letter : ℕ → List Part → List Part
add_letter c [] = record { number = []; unit = c ∷ [] } ∷ []
add_letter c (p ∷ parts) = elim p.number [
  | [] ↦ record p { unit = c ∷ p.unit } ∷ parts
  | d ∷ number ↦ record { number = []; unit = c ∷ [] } ∷ p ∷ parts
]

unfoldable pub parts_of : List ℕ → List Part
parts_of [] = []
parts_of (c ∷ text) =
    let parts = parts_of text in if is_numeric c then add_numeric c parts else add_letter c parts

-- `leadingInt`; `none` is an overflow.
unfoldable pub leading_int : ℕ → List ℕ → Option (ℕ × List ℕ)
leading_int x [] = some (x, [])
leading_int x (c ∷ text) =
    let x' = x * 10 + (c - b'0') in
    let rest = leading_int x' text in
    if not (is_digit c)
    then some (x, c ∷ text)
    else if ltb (max_units / 10) x || ltb max_units x'
    then none
    else rest

pub record Fraction : Type 0 where
  pub value : ℕ
  pub scale : ℕ
  pub full : Bool

-- `leadingFraction`: the digits that do not fit are skipped.
abbrev add_digit : ℕ → Fraction → Fraction
add_digit c f =
    let y = f.value * 10 + (c - b'0') in
    if f.full
    then f
    else if ltb ((max_units - 1) / 10) f.value || ltb max_units y
    then record f { full = true }
    else record { value = y; scale = f.scale * 10; full = false }

unfoldable pub leading_fraction : Fraction → List ℕ → Fraction × List ℕ
leading_fraction f [] = (f, [])
leading_fraction f (c ∷ text) =
    let rest = leading_fraction (add_digit c f) text in if is_digit c then rest else (f, c ∷ text)

abbrev pub no_fraction : Fraction
no_fraction = record { value = 0; scale = 1; full = false }

-- The number before a unit: it has a digit, and at most one point.
unfoldable pub read_number : List ℕ → Option (ℕ × Fraction)
unfolding leading_int leading_fraction
read_number [] = none
read_number (c ∷ text) = elim (leading_int 0 (c ∷ text)) [
  | none ↦ none
  | some (v, rest) ↦ elim rest [
    | [] ↦ some (v, no_fraction)
    | point ∷ more ↦
        let (f, left) = leading_fraction no_fraction more in
        if is_digit c || not (length more == 0)
        then elim left [ [] ↦ some (v, f) | d ∷ others ↦ none ]
        else none
  ]
]

abbrev same_codes : List ℕ → List ℕ → Bool
same_codes [] [] = true
same_codes (x ∷ xs) (y ∷ ys) = x == y && same_codes xs ys
same_codes _ _ = false

-- `unitMap`.
unfoldable pub unit_of : List ℕ → Option ℕ
unit_of u =
    if same_codes u (b'n' ∷ b's' ∷ [])
    then some 1
    else if same_codes u (b'u' ∷ b's' ∷ [])
        || same_codes u (181 ∷ b's' ∷ [])
        || same_codes u (956 ∷ b's' ∷ [])
    then some 1000
    else if same_codes u (b'm' ∷ b's' ∷ [])
    then some 1000000
    else if same_codes u (b's' ∷ [])
    then some second
    else if same_codes u (b'm' ∷ [])
    then some (60 * second)
    else if same_codes u (b'h' ∷ [])
    then some (3600 * second)
    else none

-- The durations of an int64.
abbrev pub IsInt64 : ℤ → Type 0
IsInt64 z = (negsuc (2 ^ 63 - 1) ≤ℤ z) × (z ≤ℤ pos (2 ^ 63 - 1))

module _ (scaled : (value unit scale : ℕ) → ℕ) where
  unfoldable pub amount : ℕ → ℕ × Fraction → Option ℕ
  amount unit (v, f) =
      let whole = v * unit in
      let sum = if ltb 0 f.value then whole + scaled f.value unit f.scale else whole in
      if ltb (max_units / unit) v || ltb max_units sum then none else some sum

  unfoldable pub part_amount : Part → Option ℕ
  unfolding read_number unit_of amount
  part_amount p = elim (read_number p.number) [
    | none ↦ none
    | some n ↦ elim (unit_of p.unit) [ none ↦ none | some unit ↦ amount unit n ]
  ]

  -- The loop, over a sum that is a uint64.
  unfoldable pub sum_parts : ℕ → List Part → Option ℕ
  unfolding part_amount
  sum_parts d [] = some d
  sum_parts d (p ∷ parts) = elim (part_amount p) [
    | none ↦ none
    | some v ↦
        let d' = (d + v) % 2 ^ 64 in
        let rest = sum_parts d' parts in if ltb max_units d' then none else rest
  ]

  unfoldable pub signed_duration : (negative : Bool) → List ℕ → Option ℤ
  unfolding sum_parts parts_of
  signed_duration negative text =
      if same_codes text (b'0' ∷ [])
      then some (pos 0)
      else if length text == 0
      then none
      else elim (sum_parts 0 (parts_of text)) [
        | none ↦ none
        | some d ↦
            if negative
            then some (opposite_of d)
            else if ltb d max_units
            then some (pos d)
            else none
      ]

  -- `time.ParseDuration`, in nanoseconds.
  unfoldable pub parse_duration : List ℕ → Option ℤ
  unfolding signed_duration
  parse_duration [] = none
  parse_duration (c ∷ text) =
      if c == b'-' || c == b'+'
      then signed_duration (c == b'-') text
      else signed_duration false (c ∷ text)

  sum_parts_le :
      (d : ℕ) (parts : List Part) {e : ℕ} → d ≤ 2 ^ 63 → sum_parts d parts ≡ some e → e ≤ 2 ^ 63
  unfolding sum_parts
  sum_parts_le d [] few got = ground arith
  sum_parts_le d (p ∷ parts) few got = elim (Option-cases (part_amount p)) [
    | inl wrong ↦ absurd (ground (arith, wrong))
    | inr (v, right) ↦ elim (Bool-cases (ltb max_units ((d + v) % 2 ^ 64))) [
      | inl large ↦ absurd (ground (arith, right))
      | inr small ↦
          sum_parts_le ((d + v) % 2 ^ 64) parts (ground arith) (rw (sum_parts, right, small) at got)
    ]
  ]

  signed_duration-IsInt64 :
      (negative : Bool) (text : List ℕ) {z : ℤ} → signed_duration negative text ≡ some z → IsInt64 z
  unfolding signed_duration
  signed_duration-IsInt64 negative text got = elim (Option-cases (sum_parts 0 (parts_of text))) [
    | inl wrong ↦ ground (arith, wrong)
    | inr (d, right) ↦
        let few = sum_parts_le 0 (parts_of text) (omega arith) right in ground (arith, right, few)
  ]

  -- Whatever the text is, a duration that is read fits an int64.
  pub parse_duration-IsInt64 : (text : List ℕ) {z : ℤ} → parse_duration text ≡ some z → IsInt64 z
  unfolding parse_duration
  parse_duration-IsInt64 [] got = absurd (ground arith)
  parse_duration-IsInt64 (c ∷ text) {z} got =
      let signed : signed_duration (c == b'-') text ≡ some z → IsInt64 z =
        signed_duration-IsInt64 (c == b'-') text in
      let plain : signed_duration false (c ∷ text) ≡ some z → IsInt64 z =
        signed_duration-IsInt64 false (c ∷ text) in
      elim (Bool-cases (c == b'-' || c == b'+')) [
        | inl sign ↦ signed (rw sign at got)
        | inr none' ↦ plain (rw none' at got)
      ]
