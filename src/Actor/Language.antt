-- ===== src/Actor/Language.antt =====
-- handlers/actor/query.go, `CreateState`: the functions that expressions have besides those of the gval
-- library. Numbers of an expression are float64, so an argument is never an int64.
use chik.Prelude.{
  List, [], arith, leb, ltb, none, refl, some, true, ℕ, ◌*◌, ◌-◌, ◌/◌, ◌↔◌, ◌∷◌, ◌≡◌,
}
use chik.Actor.Compare.{Operand, compare_by, duration, json, time}
use chik.Actor.Comparing.{compare_by-times}
use chik.Actor.Durations.{parse_duration}
use chik.Decimal.{codes}
use chik.Json.{Numbers, str}
use chik.Prelude.Int.{abs, int_laws, neg_part, negsuc, pos, pos_part, ℤ, ◌+ℤ◌, ◌-ℤ◌, ◌≤ℤ◌}
use chik.Prelude.Outcome.{Outcome, err, ok, panic}
use chik.Types.Time.{TimeIndication, second}
use chik.Types.Time.Parsing.{Location, parse_time_indication}

-- The whole seconds of a duration, down to the next one.
abbrev pub whole_seconds : ℤ → ℤ
whole_seconds (pos n) = pos (n / second)
whole_seconds (negsuc n) = negsuc (n / second)

module _ {N : Type 0} where
  -- `time`; it takes its first argument without a look at their number.
  unfoldable pub time_function :
      Location → (now : TimeIndication) → List (Operand N) → Outcome (Unit {0}) (Operand N)
  time_function local now [] = panic
  time_function local now (json (str text) ∷ rest) =
      elim (parse_time_indication local now (codes text)) [ none ↦ err tt | some t ↦ ok (time t) ]
  time_function local now (other ∷ rest) = err tt

  -- `duration`.
  unfoldable pub duration_function :
      (scaled : (value unit scale : ℕ) → ℕ) → List (Operand N) → Outcome (Unit {0}) (Operand N)
  duration_function scaled [] = panic
  duration_function scaled (json (str text) ∷ rest) = elim (parse_duration scaled (codes text)) [
    | none ↦ err tt
    | some d ↦ ok (duration d)
  ]
  duration_function scaled (other ∷ rest) = err tt

  -- `after`, for instants whose seconds since the year 1 stay within an int64.
  unfoldable pub after_operator : Operand N → Operand N → Outcome (Unit {0}) (Operand N)
  after_operator (time t) (duration d) = ok (time (t +ℤ whole_seconds d))
  after_operator a b = err tt

forth : (a b : ℤ) → a +ℤ b -ℤ a ≡ b
forth a b = omega int_laws

ten_seconds :
    (d : ℤ)
    → ((some (leb 10 (pos_part (whole_seconds d))) ≡ some true) ↔ (pos (10 * second) ≤ℤ d))
      × ((some (leb 10 (neg_part (whole_seconds d))) ≡ some true) ↔ (d ≤ℤ negsuc (9 * second)))
      × ((some (ltb (abs (whole_seconds d)) 10) ≡ some true)
          ↔ ((negsuc (9 * second - 1) ≤ℤ d) × (d ≤ℤ pos (10 * second - 1))))
ten_seconds (pos n) = (ground arith, ground arith, ground arith)
ten_seconds (negsuc n) = (ground arith, ground arith, ground arith)

-- The time that is a duration after another is compared with it as ">" if the duration has ten seconds or
-- more, as "<" if it lies below minus nine seconds, and as "==" in all other cases.
pub after_compares :
    (N : Type 0) ⦃ops : Numbers N⦄ (t d : ℤ)
    → (u : ℤ) × (after_operator {N = N} (time t) (duration d) ≡ ok (time u))
      × ((compare_by {N = N} ">" (time u) (time t) ≡ some true) ↔ (pos (10 * second) ≤ℤ d))
      × ((compare_by {N = N} "<" (time u) (time t) ≡ some true) ↔ (d ≤ℤ negsuc (9 * second)))
      × ((compare_by {N = N} "==" (time u) (time t) ≡ some true)
          ↔ ((negsuc (9 * second - 1) ≤ℤ d) × (d ≤ℤ pos (10 * second - 1))))
unfolding after_operator
after_compares N t d =
    let u = t +ℤ whole_seconds d in
    let (same, (differs, (later, earlier))) = compare_by-times N u t in
    let far = forth t (whole_seconds d) in
    let cases = ten_seconds d in
    (u, refl, rw (later, far) cases.0, rw (earlier, far) cases.1, rw (same, far) cases.2)
