-- ===== src/Messaging/Progress.antt =====
-- Reading a message uses up input, so a receiver cannot go round for ever on what it was sent.
use mathlib.Core.Path.{subst}
use chik.Prelude.Outcome.{◌>>=◌}
use chik.Prelude.{
  Bool, Bool-cases, List, Option, [], arith, drop, false, if◌then◌else◌, inl, inr, length, ltb,
  none, some, suc, true, zero, ℕ, ◌+◌, ◌-◌, ◌∷◌, ◌≡◌, ◌≤◌,
}
use chik.Messaging.{Codec, Message, ParseError, bad_json, parse_message, read, read_command}
use chik.Messaging.Bytes.{of_be}
use chik.Prelude.Outcome.{Outcome, err, ok, or_error, panic}

length-drop-le : (n : ℕ) (xs : List ℕ) → n ≤ length xs → length (drop n xs) + n ≡ length xs
length-drop-le zero xs h = omega arith
length-drop-le (suc n) [] h = absurd (omega arith)
length-drop-le (suc n) (x ∷ xs) h = omega (arith, length-drop-le n xs (omega arith))

-- A reader that returns has used at least `n` of its input.
abbrev pub Consumes : {A : Type 0} → ℕ → List ℕ → Outcome ParseError (A × List ℕ) → Type 0
Consumes n input (ok (a, rest)) = length rest + n ≤ length input
Consumes n input (err e) = Unit
Consumes n input panic = Unit

Consumes-bind :
    {A B : Type 0} (n k : ℕ) (input : List ℕ) (r : Outcome ParseError (A × List ℕ))
    (f : A × List ℕ → Outcome ParseError (B × List ℕ))
    → Consumes n input r
    → ((a : A) (rest : List ℕ) → Consumes k rest (f (a, rest)))
    → Consumes (n + k) input (r >>= f)
Consumes-bind {B = B} n k input (ok (a, rest)) f h g = after (f (a, rest)) (g a rest)
  where
    after : (q : Outcome ParseError (B × List ℕ)) → Consumes k rest q → Consumes (n + k) input q
    after (ok (b, left)) used = omega arith
    after (err e) used = tt
    after panic used = tt
Consumes-bind n k input (err e) f h g = tt
Consumes-bind n k input panic f h g = tt

read-Consumes : (n : ℕ) (input : List ℕ) → Consumes n input (read n input)
unfolding read
read-Consumes n input = elim (Bool-cases (ltb (length input) n)) [
  | inl short ↦ rw short tt
  | inr long ↦ rw long (omega (arith, length-drop-le n input (ground arith)))
]

Consumes-if :
    {A : Type 0} (b : Bool) (n : ℕ) (input : List ℕ) (p q : Outcome ParseError (A × List ℕ))
    → Consumes n input p
    → Consumes n input q
    → Consumes n input (if b then p else q)
Consumes-if true n input p q hp hq = hp
Consumes-if false n input p q hp hq = hq

Consumes-le :
    {A : Type 0} (n k : ℕ) (input : List ℕ) (r : Outcome ParseError (A × List ℕ))
    → k ≤ n
    → Consumes n input r
    → Consumes k input r
Consumes-le n k input (ok (a, rest)) h used = omega arith
Consumes-le n k input (err e) h used = tt
Consumes-le n k input panic h used = tt

or_error-Consumes :
    {C : Type 0} (o : Option C) (rest : List ℕ)
    → Consumes 0 rest (or_error bad_json o >>= λ c. ok (c, rest))
or_error-Consumes none rest = tt
or_error-Consumes (some c) rest = omega arith

module _ {N : Type 0} (codec : Codec N) where
  read_command-Consumes : (n : ℕ) (input : List ℕ) → Consumes 0 input (read_command codec n input)
  unfolding read_command
  read_command-Consumes n input =
      Consumes-if (ltb 0 n) 0 input _ _
        (Consumes-le (n + 0) 0 input _ (omega arith) (
          Consumes-bind n 0 input (read n input) _ (read-Consumes n input)
            (λ text rest. or_error-Consumes (codec.unmarshal text) rest)))
        (omega arith)

  parse_message-Consumes : (input : List ℕ) → Consumes 36 input (parse_message codec input)
  unfolding parse_message
  parse_message-Consumes input =
      Consumes-bind 4 32 input (read 4 input) _ (read-Consumes 4 input) (λ size input₁.
        Consumes-if (ltb (of_be size) 32) 32 input₁ _ _ tt (
          Consumes-bind 16 16 input₁ (read 16 input₁) _ (read-Consumes 16 input₁) (λ from input₂.
            Consumes-bind 16 0 input₂ (read 16 input₂) _ (read-Consumes 16 input₂) (λ to input₃.
              Consumes-bind 0 0 input₃ (read_command codec (of_be size - 32) input₃) _
                (read_command-Consumes (of_be size - 32) input₃) (λ command rest. omega arith)))))

  -- A message that is read has taken its 36 bytes of header, at least, from the input.
  pub parse_message-progress :
      (input : List ℕ) (m : Message N) (rest : List ℕ)
      → parse_message codec input ≡ ok (m, rest)
      → length rest + 36 ≤ length input
  parse_message-progress input m rest e = subst (Consumes 36 input) e (parse_message-Consumes input)
