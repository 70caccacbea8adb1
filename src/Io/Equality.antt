-- ===== src/Io/Equality.antt =====
-- handlers/io/io.go, `CurrentStatus` and `Status`, with `reflect.DeepEqual` on them.
use chik.Prelude.{
  Bool, Eq, String, [], arith, eq_iff, false, if◌then◌else◌, nat_eq, not, string_eq, true, ◌&&◌,
  ◌==◌, ◌↔◌, ◌∷◌, ◌≡◌,
}
use chik.Io.Bus.{DeviceDescription, DeviceState, analog, digital}
use chik.Prelude.Dict.{Dict}
use chik.Prelude.Int.{abs, ◌-ℤ◌}
use chik.Types.Time.{TimeIndication}

pub record CurrentStatus (N : Type 0) : Type 0 where
  pub description : DeviceDescription N
  pub last_state_change : TimeIndication

-- `io.Status`; the devices stand in the order in which they came.
abbrev pub IoStatus : Type 0 → Type 0
IoStatus N = Dict String (CurrentStatus N)

module _ {N : Type 0} ⦃keys : Eq N⦄ where
  abbrev state_equal : DeviceState N → DeviceState N → Bool
  state_equal (digital a) (digital b) = if a then b else not b
  state_equal (analog x) (analog y) = x == y
  state_equal _ _ = false

  state_equal_iff : (s t : DeviceState N) → (state_equal s t ≡ true) ↔ (s ≡ t)
  state_equal_iff (digital a) (digital b) = ground arith
  state_equal_iff (analog x) (analog y) = ground (arith, keys.same_iff x y)
  state_equal_iff (digital a) (analog y) = ground arith
  state_equal_iff (analog x) (digital b) = ground arith

  abbrev entry_equal : CurrentStatus N → CurrentStatus N → Bool
  entry_equal a b =
      a.description.id == b.description.id
      && (a.description.kind == b.description.kind
          && (state_equal a.description.state b.description.state
              && (abs (a.last_state_change -ℤ b.last_state_change) == 0)))

  entry_equal_iff : (a b : CurrentStatus N) → (entry_equal a b ≡ true) ↔ (a ≡ b)
  unfolding ◌-ℤ◌
  entry_equal_iff a b = ground (
    arith,
    eq_iff a.description.id b.description.id,
    state_equal_iff a.description.state b.description.state,
  )

  unfoldable status_equal : IoStatus N → IoStatus N → Bool
  status_equal [] [] = true
  status_equal ((j, a) ∷ s) ((k, b) ∷ t) = j == k && (entry_equal a b && status_equal s t)
  status_equal _ _ = false

  status_equal_iff : (s t : IoStatus N) → (status_equal s t ≡ true) ↔ (s ≡ t)
  unfolding status_equal
  status_equal_iff [] [] = ground arith
  status_equal_iff [] (e ∷ t) = ground arith
  status_equal_iff (e ∷ s) [] = ground arith
  status_equal_iff ((j, a) ∷ s) ((k, b) ∷ t) =
      ground (arith, eq_iff j k, entry_equal_iff a b, status_equal_iff s t)

  instance pub status_eq : Eq (IoStatus N)
  unfolding status_equal
  status_eq = record { same = status_equal; same_iff = status_equal_iff }
