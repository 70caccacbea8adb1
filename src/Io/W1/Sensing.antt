-- ===== src/Io/W1/Sensing.antt =====
-- What is read from the text of a thermometer.
use chik.Prelude.{
  List, Option, [], ap, arith, but_last-append, drop, false, if◌then◌else◌, length, ltb, none, refl,
  some, take, true, ℕ, ◌++◌, ◌-◌, ◌∙◌, ◌∷◌, ◌≡◌,
}
use chik.Io.W1.{
  W1Device, after_mark, all_digits, find_temperature, from_match, get_current_value, is_empty,
  without_last,
}

abbrev pub mark : List ℕ
mark = b' ' ∷ b't' ∷ b'=' ∷ []

all_digits_space : (xs ys : List ℕ) → all_digits (xs ++ b' ' ∷ ys) ≡ false
all_digits_space [] ys = refl
all_digits_space (x ∷ xs) ys = ground (arith, all_digits_space xs ys)

-- A mark further on keeps an earlier one from being a match.
after_mark_early : (x : ℕ) (xs ds : List ℕ) → after_mark (x ∷ (xs ++ (mark ++ ds))) ≡ none
unfolding after_mark
after_mark_early x [] ds = ground arith
after_mark_early x (y ∷ []) ds = ground arith
after_mark_early x (y ∷ z ∷ xs) ds = ground (arith, all_digits_space xs (b't' ∷ b'=' ∷ ds))

find_temperature_marked :
    (noise ds : List ℕ)
    → is_empty ds ≡ false
    → all_digits ds ≡ true
    → find_temperature (noise ++ (mark ++ ds)) ≡ some ds
unfolding find_temperature
find_temperature_marked [] ds full numeric = unfold after_mark in ground arith
find_temperature_marked (x ∷ noise) ds full numeric =
    ground (arith, after_mark_early x noise ds, find_temperature_marked noise ds full numeric)

after_mark_digits : (ds : List ℕ) → all_digits ds ≡ true → after_mark ds ≡ none
unfolding after_mark
after_mark_digits [] numeric = refl
after_mark_digits (a ∷ []) numeric = refl
after_mark_digits (a ∷ b ∷ []) numeric = refl
after_mark_digits (a ∷ b ∷ c ∷ ds) numeric = ground arith

find_temperature_digits : (ds : List ℕ) → all_digits ds ≡ true → find_temperature ds ≡ none
unfolding find_temperature
find_temperature_digits [] numeric = refl
find_temperature_digits (x ∷ ds) numeric =
    ground (arith, after_mark_digits (x ∷ ds) numeric, find_temperature_digits ds)

all_digits_minus : (xs ys : List ℕ) → all_digits (xs ++ b'-' ∷ ys) ≡ false
all_digits_minus [] ys = refl
all_digits_minus (x ∷ xs) ys = ground (arith, all_digits_minus xs ys)

after_mark_minus : (xs ds : List ℕ) → after_mark (xs ++ b'-' ∷ ds) ≡ none
unfolding after_mark
after_mark_minus [] [] = refl
after_mark_minus [] (a ∷ []) = refl
after_mark_minus [] (a ∷ b ∷ ds) = ground arith
after_mark_minus (x ∷ []) [] = refl
after_mark_minus (x ∷ []) (a ∷ ds) = ground arith
after_mark_minus (x ∷ y ∷ []) ds = ground arith
after_mark_minus (x ∷ y ∷ z ∷ xs) ds = ground (arith, all_digits_minus xs ds)

find_temperature_minus :
    (noise ds : List ℕ) → all_digits ds ≡ true → find_temperature (noise ++ b'-' ∷ ds) ≡ none
unfolding find_temperature
find_temperature_minus [] ds numeric =
    ground (arith, after_mark_minus [] ds, find_temperature_digits ds)
find_temperature_minus (x ∷ noise) ds numeric =
    ground (arith, after_mark_minus (x ∷ noise) ds, find_temperature_minus noise ds)

without_last-append : (text : List ℕ) → without_last (text ++ b'\n' ∷ []) ≡ text
without_last-append [] = refl
without_last-append (c ∷ cs) = but_last-append c b'\n' cs

module _ {N : Type 0} (parse_float : List ℕ → Option N) where
  -- The device of a reading of thousandths, whose point stands before the last three digits.
  abbrev pub with_reading : List ℕ → W1Device N → W1Device N
  with_reading ds d =
      let whole = length ds - 3 in
      elim (parse_float (take whole ds ++ b'.' ∷ drop whole ds)) [
        | none ↦ d
        | some x ↦ record d { value = x }
      ]

  from_match_lem :
      (ds : List ℕ) (d : W1Device N)
      → from_match parse_float (some ds) d
        ≡ (if ltb (length ds) 3 then none else some (with_reading ds d))
  unfolding from_match
  from_match_lem ds d = ground arith

  get_current_value_lem :
      (text : List ℕ) (d : W1Device N)
      → get_current_value parse_float (some (text ++ b'\n' ∷ [])) d
        ≡ from_match parse_float (find_temperature text) d
  get_current_value_lem [] d = unfold get_current_value in refl
  get_current_value_lem (c ∷ cs) d =
      let shown : without_last (c ∷ (cs ++ b'\n' ∷ [])) ≡ c ∷ cs = without_last-append (c ∷ cs) in
      let opened : get_current_value parse_float (some (c ∷ (cs ++ b'\n' ∷ []))) d
          ≡ from_match parse_float (find_temperature (without_last (c ∷ (cs ++ b'\n' ∷ [])))) d =
        unfold get_current_value in refl in
      opened ∙ ap (λ (t : List ℕ). from_match parse_float (find_temperature t) d) shown

  -- A text that ends in ` t=` and at least three digits gives the device their number of thousandths, or
  -- leaves it where that is no float32; with one or two digits, a temperature close above zero, the reading
  -- panics; and a text that ends in a minus sign and digits, a temperature below zero, is never read.
  pub get_current_value_marked :
      (noise ds : List ℕ) (d : W1Device N)
      → is_empty ds ≡ false
      → all_digits ds ≡ true
      → (get_current_value parse_float (some ((noise ++ (mark ++ ds)) ++ b'\n' ∷ [])) d
          ≡ (if ltb (length ds) 3 then none else some (with_reading ds d)))
        × (get_current_value parse_float (some ((noise ++ b'-' ∷ ds) ++ b'\n' ∷ [])) d ≡ some d)
  get_current_value_marked noise ds d full numeric = (
    get_current_value_lem (noise ++ (mark ++ ds)) d
        ∙ rw (find_temperature_marked noise ds full numeric) (from_match_lem ds d),
    get_current_value_lem (noise ++ b'-' ∷ ds) d
        ∙ rw (find_temperature_minus noise ds numeric) (unfold from_match in refl),
  )
