-- ===== src/Decimal/Reading.antt =====
-- What is printed in decimal is read back.
use chik.Prelude.{
  Bool, Bool-cases, List, Option-cases, [], ap, arith, false, inl, inr, ltb, ltb→lt, nat_eq, some,
  string_eq, suc, true, zero, ℕ, ◌%◌, ◌*◌, ◌++◌, ◌+◌, ◌-◌, ◌/◌, ◌<◌, ◌==◌, ◌^◌, ◌∙◌, ◌∷◌, ◌≡◌, ◌≤◌,
}
use chik.Decimal.{digits, itoa, magnitude, parse_int32, read_digits, with_sign}
use chik.Prelude.Int.{int_eq, negsuc, pos, ℤ, ◌≤ℤ◌}

read_digits-append :
    (acc : ℕ) (xs ys : List ℕ) (n : ℕ)
    → read_digits acc xs ≡ some n
    → read_digits acc (xs ++ ys) ≡ read_digits n ys
unfolding read_digits
read_digits-append acc [] ys n got = ground arith
read_digits-append acc (c ∷ cs) ys n got =
    ground (arith, read_digits-append (10 * acc + (c - b'0')) cs ys n)

read_digits_last : (n m : ℕ) → m < 10 → read_digits n ((b'0' + m) ∷ []) ≡ some (10 * n + m)
unfolding read_digits
read_digits_last n m low = ground arith

pub read_digits-digits : (fuel n : ℕ) → n < fuel → read_digits 0 (digits fuel n) ≡ some n
unfolding digits
read_digits-digits zero n below = absurd (omega arith)
read_digits-digits (suc fuel) n below = elim (Bool-cases (ltb n 10)) [
  | inl small ↦ rw small (read_digits_last 0 n (ltb→lt n 10 small) ∙ ap some (omega arith))
  | inr large ↦
      let shown : read_digits 0 (digits fuel (n / 10)) ≡ some (n / 10) =
        read_digits-digits fuel (n / 10) (ground arith) in
      let joined =
        read_digits-append 0 (digits fuel (n / 10)) ((b'0' + n % 10) ∷ []) (n / 10) shown in
      let last = read_digits_last (n / 10) (n % 10) (omega arith) in
      rw large (joined ∙ last ∙ ap some (omega arith))
]

-- The first byte is a digit.
digits_head :
    (fuel n : ℕ)
    → n < fuel
    → (c : ℕ) × (cs : List ℕ) × (digits fuel n ≡ c ∷ cs) × (b'0' ≤ c) × (c ≤ b'9')
unfolding digits
digits_head zero n below = absurd (omega arith)
digits_head (suc fuel) n below = elim (Bool-cases (ltb n 10)) [
  | inl small ↦ (b'0' + n, [], rw small, ground arith, ground arith)
  | inr large ↦
      let (c, cs, shown, low, high) = digits_head fuel (n / 10) (ground arith) in
      (c, cs ++ (b'0' + n % 10) ∷ [], rw (large, shown), low, high)
]

-- The integers of 32 bits.
abbrev pub IsInt32 : ℤ → Type 0
IsInt32 z = (negsuc (2 ^ 31 - 1) ≤ℤ z) × (z ≤ℤ pos (2 ^ 31 - 1))

magnitude-digits :
    (negative : Bool) (n : ℕ) → magnitude negative (digits (suc n) n) ≡ with_sign negative n
magnitude-digits negative n =
    let (c, cs, shown, low, high) = digits_head (suc n) n (omega arith) in
    let value = read_digits-digits (suc n) n (omega arith) in
    rw shown (let value' = rw shown at value in rw value')

parse_unsigned :
    (c : ℕ) (cs : List ℕ) → b'0' ≤ c → c ≤ b'9' → parse_int32 (c ∷ cs) ≡ magnitude false (c ∷ cs)
unfolding parse_int32
parse_unsigned c cs low high = ground arith

-- A 32-bit integer is read back from its decimal text.
pub parse_int32-itoa : (z : ℤ) → IsInt32 z → parse_int32 (itoa z) ≡ some z
unfolding itoa
parse_int32-itoa (pos n) (least, most) =
    let (c, cs, shown, low, high) = digits_head (suc n) n (omega arith) in
    let value = magnitude-digits false n in
    rw shown
      (parse_unsigned c cs low high ∙ (let value' = rw shown at value in value') ∙ ground arith)
parse_int32-itoa (negsuc n) (least, most) =
    unfold parse_int32 in (magnitude-digits true (suc n) ∙ ground arith)

with_sign-IsInt32 : (negative : Bool) (n : ℕ) {z : ℤ} → with_sign negative n ≡ some z → IsInt32 z
with_sign-IsInt32 true zero got = ground arith
with_sign-IsInt32 true (suc n) got = ground arith
with_sign-IsInt32 false n got = ground arith

magnitude-IsInt32 :
    (negative : Bool) (cs : List ℕ) {z : ℤ} → magnitude negative cs ≡ some z → IsInt32 z
magnitude-IsInt32 negative [] got = absurd (ground arith)
magnitude-IsInt32 negative (c ∷ cs) got = elim (Option-cases (read_digits 0 (c ∷ cs))) [
  | inl wrong ↦ absurd (ground arith)
  | inr (n, value) ↦ with_sign-IsInt32 negative n (rw value at got)
]

-- Whatever is read fits 32 bits.
pub parse_int32-IsInt32 : (cs : List ℕ) {z : ℤ} → parse_int32 cs ≡ some z → IsInt32 z
unfolding parse_int32
parse_int32-IsInt32 [] got = absurd (ground arith)
parse_int32-IsInt32 (c ∷ cs) {z} got =
    let minus : magnitude true cs ≡ some z → IsInt32 z = magnitude-IsInt32 true cs in
    let plus : magnitude false cs ≡ some z → IsInt32 z = magnitude-IsInt32 false cs in
    let plain : magnitude false (c ∷ cs) ≡ some z → IsInt32 z = magnitude-IsInt32 false (c ∷ cs) in
    elim (Bool-cases (c == b'-')) [
      | inl yes' ↦ minus (rw yes' at got)
      | inr not_minus ↦ elim (Bool-cases (c == b'+')) [
        | inl yes' ↦ plus (rw (not_minus, yes') at got)
        | inr not_plus ↦ plain (rw (not_minus, not_plus) at got)
      ]
    ]
