-- ===== src/Io/Unipi/Fading.antt =====
-- The values that the fade of a pwm output writes.
use native.Mathlib.Nat.{div_self}
use chik.Prelude.{
  Bool, Bool-cases, ap, arith, get_elem?, inl, inr, leb, length, ltb→lt, refl, some, suc, true,
  zero, ℕ, ◌*◌, ◌+◌, ◌-◌, ◌/◌, ◌<◌, ◌^◌, ◌∙◌, ◌≡◌, ◌≤◌,
}
use chik.Io.Unipi.{fade_from, float_abs, pwm_fade, rounded, rounded_from, step_to}
use chik.Prelude.Int.{+ℤ_parts, -ℤ_parts, abs, ltb_ℤ, neg_part, pos, pos_part, ℤ, ◌+ℤ◌, ◌-ℤ◌}

abs-sub :
    (a b : ℤ)
    → abs (a -ℤ b)
      ≡ (pos_part a + neg_part b - (neg_part a + pos_part b))
        + (neg_part a + pos_part b - (pos_part a + neg_part b))
unfolding ◌-ℤ◌
abs-sub a b = ground arith

get_elem-fade_from :
    (left i : ℕ) (up : Bool) (quotient : ℕ) (from : ℤ) (k : ℕ)
    → k < left
    → get_elem? (fade_from left i up quotient from) k ≡ some (step_to up from ((i + k) * quotient))
unfolding fade_from
get_elem-fade_from zero i up q from k low = absurd (omega arith)
get_elem-fade_from (suc left) i up q from zero low =
    ap some (ap (λ (j : ℕ). step_to up from (j * q)) (omega arith))
get_elem-fade_from (suc left) i up q from (suc k) low =
    get_elem-fade_from left (i + 1) up q from k (omega arith)
    ∙ ap some (ap (λ (j : ℕ). step_to up from (j * q)) (omega arith))

length-fade_from :
    (left i : ℕ) (up : Bool) (quotient : ℕ) (from : ℤ)
    → length (fade_from left i up quotient from) ≡ left
unfolding fade_from
length-fade_from zero i up q from = refl
length-fade_from (suc left) i up q from = ap suc (length-fade_from left (i + 1) up q from)

-- A float64 has every whole number up to 2 ^ 53.
rounded_zero : (n : ℕ) → rounded 0 n ≡ n
rounded_zero n = ground arith

rounded_from_lem : (left n : ℕ) → leb n (2 ^ 53) ≡ true → rounded_from (suc left) 0 n ≡ rounded 0 n
unfolding rounded_from
rounded_from_lem left n exact = rw exact refl

float_abs-abs : (n : ℤ) → abs n ≤ 2 ^ 53 → float_abs n ≡ abs n
unfolding float_abs
float_abs-abs n exact = rounded_from_lem 11 (abs n) (ground arith) ∙ rounded_zero (abs n)

-- The distance of a step from the start, and what is left to the end.
distances :
    (from to : ℤ) (i : ℕ)
    → i ≤ abs (to -ℤ from)
    → (let v = step_to (ltb_ℤ (pos 0) (to -ℤ from)) from i in
        (abs (v -ℤ from) ≡ i) × (abs (v -ℤ from) + abs (to -ℤ v) ≡ abs (to -ℤ from)))
distances from to i low = elim (Bool-cases (ltb_ℤ (pos 0) (to -ℤ from))) [
  | inl up ↦ rw up (
      omega (
        arith,
        +ℤ_parts from (pos i),
        -ℤ_parts to from,
        abs-sub (from +ℤ pos i) from,
        abs-sub to (from +ℤ pos i),
        abs-sub to from,
        ltb→lt _ _ up,
      ))
  | inr down ↦ rw down (
      ground (
        arith,
        -ℤ_parts from (pos i),
        -ℤ_parts to from,
        abs-sub (from -ℤ pos i) from,
        abs-sub to (from -ℤ pos i),
        abs-sub to from,
      ))
]

-- A fade over at most 2 ^ 53 writes as many values as its ends lie apart, the k-th of them one further from the
-- start than the one before it and between the ends, so that the last is the end itself and none leaves the range.
pub pwm_fade_bounds :
    (from to : ℤ) (k : ℕ)
    → abs (to -ℤ from) ≤ 2 ^ 53
    → k < abs (to -ℤ from)
    → (length (pwm_fade from to) ≡ abs (to -ℤ from))
      × ((v : ℤ) × (get_elem? (pwm_fade from to) k ≡ some v)
          × (abs (v -ℤ from) ≡ k + 1)
          × (abs (v -ℤ from) + abs (to -ℤ v) ≡ abs (to -ℤ from)))
unfolding pwm_fade
pwm_fade_bounds from to k exact low =
    let n = abs (to -ℤ from) in
    let up = ltb_ℤ (pos 0) (to -ℤ from) in
    let (one, both) = distances from to (k + 1) (omega arith) in
    let same : float_abs (to -ℤ from) ≡ n = float_abs-abs (to -ℤ from) exact in
    let whole : n / n ≡ 1 = div_self (omega arith) in
    rw (same, whole)
      (
        length-fade_from n 1 up 1 from,
        (
          step_to up from (k + 1),
          get_elem-fade_from n 1 up 1 from k low ∙ ap some (ap (step_to up from) (omega arith)),
          one,
          both,
        ),
      )
