-- ===== src/Decimal.antt =====
-- Decimal numbers as bytes: strconv.Itoa, and strconv.ParseInt with base 10 and 32 bits, as the Unipi
-- bus uses them (handlers/io/bus/unipibus/unipibus.go).
pub mod Reading
use Prim.Native.Char.{code}
use chik.Json.Struct.{◌>>=◌}
use chik.Prelude.{
  Bool, List, Option, String, [], false, if◌then◌else◌, leb, ltb, nat_eq, none, some, string_eq,
  suc, true, zero, ℕ, ◌%◌, ◌&&◌, ◌*◌, ◌++◌, ◌+◌, ◌-◌, ◌/◌, ◌==◌, ◌^◌, ◌∷◌,
}
use chik.Prelude.Int.{int_eq, negsuc, pos, ℤ}

-- The last digit comes last; with as much fuel as the number plus one, no digit is lost.
unfoldable pub digits : ℕ → ℕ → List ℕ
digits zero n = []
digits (suc fuel) n =
    let more = digits fuel (n / 10) in
    if ltb n 10 then (b'0' + n) ∷ [] else more ++ (b'0' + n % 10) ∷ []

unfoldable pub itoa : ℤ → List ℕ
unfolding digits
itoa (pos n) = digits (suc n) n
itoa (negsuc n) = b'-' ∷ digits (suc (suc n)) (suc n)

abbrev pub is_digit : ℕ → Bool
is_digit c = leb b'0' c && leb c b'9'

unfoldable pub read_digits : ℕ → List ℕ → Option ℕ
read_digits acc [] = some acc
read_digits acc (c ∷ cs) = if is_digit c then read_digits (10 * acc + (c - b'0')) cs else none

abbrev pub opposite_of : ℕ → ℤ
opposite_of zero = pos 0
opposite_of (suc n) = negsuc n

-- The magnitude with its sign, if it fits 32 bits.
abbrev pub with_sign : Bool → ℕ → Option ℤ
with_sign true n = if leb n (2 ^ 31) then some (opposite_of n) else none
with_sign false n = if ltb n (2 ^ 31) then some (pos n) else none

abbrev pub magnitude : Bool → List ℕ → Option ℤ
magnitude negative [] = none
magnitude negative (c ∷ cs) = do n ← read_digits 0 (c ∷ cs); with_sign negative n

unfoldable pub parse_int32 : List ℕ → Option ℤ
unfolding read_digits
parse_int32 [] = none
parse_int32 (c ∷ cs) =
    if c == b'-'
    then magnitude true cs
    else if c == b'+'
    then magnitude false cs
    else magnitude false (c ∷ cs)

-- The code points of a text; they are its bytes if it is ASCII.
abbrev pub codes : String → List ℕ
codes String.[] = []
codes (String.◌∷◌ c text) = code c ∷ codes text
