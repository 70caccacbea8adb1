-- ===== src/Io/Unipi/Files.antt =====
-- What a device writes to its file, read back from it.
use native.Mathlib.Nat.{pow-suc}
use chik.Io.Unipi.{but_last}
use chik.Prelude.{
  Bool, Bool-cases, List, [], ap, arith, but_last-append, false, inl, inr, length, length-append,
  ltb, lt→ltb, not, refl, some, suc, take, true, zero, ℕ, ◌%◌, ◌++◌, ◌+◌, ◌/◌, ◌<◌, ◌^◌, ◌∷◌, ◌≡◌,
  ◌≢◌, ◌≤◌,
}
use chik.Decimal.{digits, itoa, parse_int32, read_digits}
use chik.Decimal.Reading.{IsInt32, parse_int32-itoa}
use chik.Io.Bus.{digital_input_device}
use chik.Io.Unipi.{
  UnipiDevice, Written, fetch_status, is_one, kind_of, line_of, put_level, through_file, toggle_pin,
  unipi_pwm_output, write_status,
}
use chik.Prelude.Int.{negsuc, pos, ℤ}

length-digits : (fuel n k : ℕ) → n < 10 ^ suc k → length (digits fuel n) ≤ suc k
unfolding digits
length-digits zero n k small = omega arith
length-digits (suc fuel) n zero small = rw (lt→ltb n 10 small) (omega arith)
length-digits (suc fuel) n (suc k) small = elim (Bool-cases (ltb n 10)) [
  | inl low ↦ rw low (omega arith)
  | inr high ↦
      let bound : n / 10 < 10 ^ suc k = omega (arith, pow-suc 10 (suc k)) in
      let ih = length-digits fuel (n / 10) k bound in
      rw (high, length-append (digits fuel (n / 10)) ((b'0' + n % 10) ∷ [])) (omega arith)
]

length-itoa : (z : ℤ) → IsInt32 z → length (itoa z) ≤ 11
unfolding itoa
length-itoa (pos n) (least, most) = omega (arith, length-digits (suc n) n 9 (omega arith))
length-itoa (negsuc n) (least, most) =
    omega (arith, length-digits (suc (suc n)) (suc n) 9 (omega arith))

take_all : (n : ℕ) (xs : List ℕ) → length xs ≤ n → take n xs ≡ xs
take_all zero [] short = refl
take_all zero (x ∷ xs) short = absurd (omega arith)
take_all (suc n) [] short = refl
take_all (suc n) (x ∷ xs) short = ap (λ (r : List ℕ). x ∷ r) (take_all n xs (omega arith))

-- A text of at most 126 bytes and a newline is read whole.
fetch_line :
    (text : List ℕ) (d : UnipiDevice) {z : ℤ}
    → length text ≤ 126
    → parse_int32 text ≡ some z
    → fetch_status (some (text ++ b'\n' ∷ [])) d ≡ some (record d { status = z })
unfolding fetch_status
fetch_line [] d short value = absurd (unfold parse_int32 in ground arith)
fetch_line (c ∷ cs) d {z} short value =
    let bound : length (cs ++ b'\n' ∷ []) ≤ 127 =
      rw (length-append cs (b'\n' ∷ [])) (omega arith) in
    let whole : take 127 (cs ++ b'\n' ∷ []) ≡ cs ++ b'\n' ∷ [] = take_all 127 _ bound in
    let read' : parse_int32 (but_last c (take 127 (cs ++ b'\n' ∷ []))) ≡ some z =
      rw (whole, but_last-append c b'\n' cs) value in
    ground (arith, read')

fetch_status-line_of :
    (z : ℤ) (d : UnipiDevice)
    → IsInt32 z
    → fetch_status (some (line_of z)) d ≡ some (record d { status = z })
fetch_status-line_of z d fits =
    fetch_line (itoa z) d (omega (arith, length-itoa z fits)) (parse_int32-itoa z fits)

-- The file of a device after a call: the text that the call wrote, read for a device `e`.
abbrev pub ReadsBack : UnipiDevice → Written → Type 0
ReadsBack e (d, texts) =
    (text : List ℕ) × (texts ≡ text ∷ [])
    × (fetch_status (some text) e ≡ some (record e { status = d.status }))

fetch_status-put :
    (on : Bool) (d e : UnipiDevice)
    → kind_of d ≢ digital_input_device
    → ReadsBack e (put_level on d)
unfolding put_level through_file
fetch_status-put true d e output =
    (b'1' ∷ b'\n' ∷ [], ground arith, unfold fetch_status parse_int32 read_digits in refl)
fetch_status-put false d e output =
    (b'0' ∷ b'\n' ∷ [], ground arith, unfold fetch_status parse_int32 read_digits in refl)

-- An output other than a pwm output writes one text for each call, and reading that text, for any device,
-- gives the status that the call left: after TurnOn, TurnOff and Toggle, and after SetValue and AddValue
-- where the new status fits 32 bits.
pub fetch_status-written :
    (on : Bool) (z : ℤ) (d e : UnipiDevice)
    → kind_of d ≢ digital_input_device
    → d.pin_type ≢ unipi_pwm_output
    → IsInt32 z
    → ReadsBack e (put_level on d) × ReadsBack e (toggle_pin d) × ReadsBack e (write_status z d)
unfolding toggle_pin write_status through_file
fetch_status-written on z d e output plain fits = (
  fetch_status-put on d e output,
  fetch_status-put (not (is_one d.status)) d e output,
  (line_of z, ground arith, fetch_status-line_of z e fits),
)
