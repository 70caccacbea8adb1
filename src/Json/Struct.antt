-- ===== src/Json/Struct.antt =====
-- json.Unmarshal into a Go struct: the fields are taken in the order of the text, a key names a
-- struct field regardless of case, an unknown key is skipped, and a value of another type is an
-- error.
use Prim.Native.Char.{code}
use chik.Prelude.{
  Bool, List, Option, String, [], false, if◌then◌else◌, leb, ltb, nat_eq, none, some, string_eq,
  true, ℕ, ◌&&◌, ◌+◌, ◌==◌, ◌∷◌,
}
use chik.Json.{Fields, Numbers, Value, end, field, null, num, obj, str}

abbrev pub lower : ℕ → ℕ
lower c = if leb b'A' c && leb c b'Z' then c + 32 else c

-- The code points of a key, in lower case.
abbrev pub folded : String → List ℕ
folded String.[] = []
folded (String.◌∷◌ c text) = lower (code c) ∷ folded text

abbrev same : List ℕ → List ℕ → Bool
same [] [] = true
same (x ∷ xs) (y ∷ ys) = x == y && same xs ys
same _ _ = false

unfoldable pub names_field : String → String → Bool
names_field key name = same (folded key) (folded name)

infixl 5 ◌>>=◌
abbrev pub ◌>>=◌ {ℓ κ} : {A : Type ℓ} {B : Type κ} → Option A → (A → Option B) → Option B
none >>= f = none
some a >>= f = f a

module _ {N S : Type 0} (set_field : String → Value N → S → Option S) where
  pub decode_fields : Fields N → S → Option S
  decode_fields end s = some s
  decode_fields (field k v fs) s = do s' ← set_field k v s; decode_fields fs s'

  -- `initial` is the zero value of the struct; null leaves it, an empty text is an error.
  unfoldable pub unmarshal_struct : S → Option (Value N) → Option S
  unfolding decode_fields
  unmarshal_struct initial (some (obj fs)) = decode_fields fs initial
  unmarshal_struct initial (some null) = some initial
  unmarshal_struct initial _ = none

module _ {N : Type 0} where
  -- A uint of the given bound; null keeps the old value.
  abbrev pub decode_uint : ⦃ops : Numbers N⦄ → ℕ → ℕ → Value N → Option ℕ
  decode_uint bound old null = some old
  decode_uint ⦃ops⦄ bound old (num x) = do n ← ops.to_nat x; if ltb n bound then some n else none
  decode_uint bound old _ = none

  abbrev pub decode_string : String → Value N → Option String
  decode_string old null = some old
  decode_string old (str s) = some s
  decode_string old _ = none

  abbrev pub decode_number : N → Value N → Option N
  decode_number old null = some old
  decode_number old (num x) = some x
  decode_number old _ = none
