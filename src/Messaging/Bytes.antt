-- ===== src/Messaging/Bytes.antt =====
-- Big-endian numbers, as encoding/binary writes and reads them.
use native.Mathlib.Nat.{pow-suc}
use chik.Prelude.{
  All, All-append, List, [], arith, length, length-append, refl, suc, zero, ℕ, ◌%◌, ◌*◌, ◌++◌, ◌+◌,
  ◌/◌, ◌<◌, ◌^◌, ◌∷◌, ◌≡◌,
}

-- The lowest `n` bytes of a number, the highest of them first.
unfoldable pub be_bytes : ℕ → ℕ → List ℕ
be_bytes zero x = []
be_bytes (suc n) x = be_bytes n (x / 256) ++ (x % 256) ∷ []

value_from : ℕ → List ℕ → ℕ
value_from acc [] = acc
value_from acc (b ∷ bs) = value_from (acc * 256 + b) bs

unfoldable pub of_be : List ℕ → ℕ
unfolding value_from
of_be bs = value_from 0 bs

value_from-append :
    (acc b : ℕ) (bs : List ℕ) → value_from acc (bs ++ b ∷ []) ≡ value_from acc bs * 256 + b
unfolding value_from
value_from-append acc b [] = refl
value_from-append acc b (c ∷ bs) = value_from-append (acc * 256 + c) b bs

pub length-be_bytes : (n x : ℕ) → length (be_bytes n x) ≡ n
unfolding be_bytes
length-be_bytes zero x = refl
length-be_bytes (suc n) x =
    omega
      (arith, length-append (be_bytes n (x / 256)) ((x % 256) ∷ []), length-be_bytes n (x / 256))

div-lt-pow : (n x : ℕ) → x < 256 ^ suc n → x / 256 < 256 ^ n
div-lt-pow n x h = omega (arith, pow-suc 256 n)

-- A number that fits its width is read back.
pub of_be-be_bytes : (n x : ℕ) → x < 256 ^ n → of_be (be_bytes n x) ≡ x
unfolding be_bytes of_be
of_be-be_bytes zero x h = omega arith
of_be-be_bytes (suc n) x h = omega (
  arith,
  value_from-append 0 (x % 256) (be_bytes n (x / 256)),
  of_be-be_bytes n (x / 256) (div-lt-pow n x h),
)

-- Each is a byte.
pub be_bytes-IsByte : (n x : ℕ) → All (λ b. b < 256) (be_bytes n x)
unfolding be_bytes
be_bytes-IsByte zero x = tt
be_bytes-IsByte (suc n) x =
    All-append (λ b. b < 256) (be_bytes n (x / 256)) _ (be_bytes-IsByte n (x / 256))
      (omega arith, tt)
