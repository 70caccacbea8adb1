-- ===== src/Tests/Samples.antt =====
-- Data that the tests share: numbers as their own literals, and a codec of commands without content.
use chik.Prelude.{
  Bool, Bool-cases, Eq, List, Option, String, [], arith, false, if◌then◌else◌, inl, inr, length,
  ltb, nat_beq, nat_eq, none, refl, some, string_eq, true, ℕ, ◌+◌, ◌-◌, ◌<◌, ◌==◌, ◌↔◌, ◌∷◌, ◌≡◌,
}
use chik.Json.{Numbers, Value, bool, null, num}
use chik.Messaging.{Codec, Message, reread}
use chik.Prelude.Int.{int_eq, ℤ}
use chik.Types.Command.{Command}

instance abbrev pub nat_numbers : Numbers ℕ
nat_numbers = record {
  of_nat = λ n. n;
  to_nat = λ n. some n;
  to_nat-of_nat = λ n. refl;
  eq = nat_beq;
  lt = ltb;
  add = λ a b. a + b;
  sub = λ a b. a - b;
}

-- It writes the type of a command and its content as numbers, and refuses a content that is not null, a bool or a
-- number.
abbrev pub content_text : Option (Value ℕ) → Option (List ℕ)
content_text none = some (0 ∷ 0 ∷ [])
content_text (some v) = elim v [
  | null ↦ some (0 ∷ 0 ∷ [])
  | bool b ↦ some (1 ∷ (if b then 1 else 0) ∷ [])
  | num n ↦ some (2 ∷ n ∷ [])
  | _ ↦ none
]

abbrev pub marshal_kind : Option (Command ℕ) → Option (List ℕ)
marshal_kind none = some (0 ∷ [])
marshal_kind (some c) = elim (content_text c.content) [
  | none ↦ none
  | some text ↦ some (c.kind ∷ text)
]

abbrev pub unmarshal_kind : List ℕ → Option (Option (Command ℕ))
unmarshal_kind (a ∷ []) = some none
unmarshal_kind (k ∷ t ∷ n ∷ []) = some (
    some (record {
      kind = k;
      content = some (if t == 0 then null else if t == 1 then bool (n == 1) else num n);
    }))
unmarshal_kind _ = none

pub unmarshal_kind-marshal_kind :
    (c : Option (Command ℕ)) (text : List ℕ)
    → marshal_kind c ≡ some text
    → unmarshal_kind text ≡ some (reread c)
unmarshal_kind-marshal_kind none text e = ground arith
unmarshal_kind-marshal_kind (some c) text e = ground arith

pub marshal_kind_pos :
    (c : Option (Command ℕ)) (text : List ℕ) → marshal_kind c ≡ some text → 0 < length text
marshal_kind_pos none text e = ground arith
marshal_kind_pos (some c) text e = ground arith

abbrev pub kind_codec : Codec ℕ
kind_codec = record {
  marshal = marshal_kind;
  unmarshal = unmarshal_kind;
  unmarshal-marshal = unmarshal_kind-marshal_kind;
  marshal_pos = marshal_kind_pos;
}

abbrev pub bare : ℕ → Command ℕ
bare k = record { kind = k; content = none }

-- A message of `from` to `to` with a command of the given type.
abbrev pub message_of : ℕ → ℕ → ℕ → Message ℕ
message_of from to k = record { sender = from; receiver = to; command = some (bare k) }

-- An equality test and a decision give each other.
pub to_discrete : {A : Type 0} ⦃keys : Eq A⦄ → Discrete A
to_discrete ⦃keys⦄ a b = elim (Bool-cases (a == b)) [
  | inl same ↦ yes ((keys.same_iff a b).0 same)
  | inr other ↦ no (λ e. absurd (let same = (keys.same_iff a b).1 e in cc))
]

abbrev pub holds : {A : Type 0} {a b : A} → Dec (a ≡ b) → Bool
holds (yes e) = true
holds (no ne) = false

pub holds_iff : {A : Type 0} {a b : A} (d : Dec (a ≡ b)) → (holds d ≡ true) ↔ (a ≡ b)
holds_iff (yes e) = (λ h. e, λ h. refl)
holds_iff (no ne) = (λ h. cc, λ h. absurd (ne h))

pub string_discrete : Discrete String
string_discrete = to_discrete ⦃keys = string_eq⦄

pub int_discrete : Discrete ℤ
int_discrete = to_discrete ⦃keys = int_eq⦄

pub nat_discrete : Discrete ℕ
nat_discrete = to_discrete ⦃keys = nat_eq⦄

abbrev pub of_decision : {A : Type 0} → Discrete A → Eq A
of_decision d = record { same = λ a b. holds (d a b); same_iff = λ a b. holds_iff (d a b) }
