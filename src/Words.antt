-- ===== src/Words.antt =====
-- strings.Split and strings.Join with a separator of one ASCII character, as the snapcast bus
-- (handlers/io/bus/snapcast/snapcast.go) and the telegram handler (handlers/telegram/telegram.go) use them.
use Prim.Native.Char.{Char}
use Prim.Native.String.{◌++◌ as append}
use Prim.Native.Char.{code}
use text.Mathlib.TextEquality.{Char-path}
use text.Mathlib.TextLemmas.{cons-append, nil-append}
use chik.Prelude.{
  Bool-cases, List, String, [], ap, beq_self, false, if◌then◌else◌, inl, inr, nat_beq_iff, nat_eq,
  refl, string_eq, sym, true, ◌++◌, ◌==◌, ◌∙◌, ◌∷◌, ◌≡◌,
}

abbrev pub with_first : Char → List String → List String
with_first c [] = String.◌∷◌ c "" ∷ []
with_first c (word ∷ words) = String.◌∷◌ c word ∷ words

unfoldable pub split : Char → String → List String
split sep String.[] = "" ∷ []
split sep (String.◌∷◌ c text) =
    let words = split sep text in if code c == code sep then "" ∷ words else with_first c words

unfoldable pub join : Char → List String → String
join sep [] = ""
join sep (word ∷ []) = word
join sep (word ∷ next ∷ words) = append word (String.◌∷◌ sep (join sep (next ∷ words)))

split_some :
    (sep : Char) (text : String) → (w : String) × (ws : List String) × (split sep text ≡ w ∷ ws)
unfolding split
split_some sep String.[] = ("", [], refl)
split_some sep (String.◌∷◌ c text) =
    let (w, ws, words) = split_some sep text in
    elim (Bool-cases (code c == code sep)) [
      | inl here' ↦ ("", split sep text, rw here')
      | inr other ↦ (String.◌∷◌ c w, ws, rw (other, words))
    ]

join_first :
    (sep c : Char) (w : String) (ws : List String)
    → join sep (with_first c (w ∷ ws)) ≡ String.◌∷◌ c (join sep (w ∷ ws))
unfolding join
join_first sep c w [] = refl
join_first sep c w (next ∷ ws) = cons-append c w (String.◌∷◌ sep (join sep (next ∷ ws)))

-- Joining what was split gives the text back.
pub join-split : (sep : Char) (text : String) → join sep (split sep text) ≡ text
unfolding split join
join-split sep String.[] = refl
join-split sep (String.◌∷◌ c text) =
    let (w, ws, words) = split_some sep text in
    let ih : join sep (w ∷ ws) ≡ text = rw (← words) (join-split sep text) in
    let glue : String → String = String.◌∷◌ c in
    elim (Bool-cases (code c == code sep)) [
      | inl here' ↦
          rw (here', words)
            (nil-append (String.◌∷◌ sep (join sep (w ∷ ws)))
              ∙ ap (λ (t : String). String.◌∷◌ sep t) ih
              ∙ ap (λ (d : Char). String.◌∷◌ d text)
                  (sym (Char-path c sep ((nat_beq_iff (code c) (code sep)).0 here'))))
      | inr other ↦ rw (other, words) (join_first sep c w ws ∙ ap glue ih)
    ]

with_first-append :
    (c : Char) (words more : List String) (w : String) (ws : List String)
    → words ≡ w ∷ ws
    → with_first c words ++ more ≡ with_first c (words ++ more)
with_first-append c words more w ws shown = rw shown refl

split_at :
    (sep c : Char) (text : String)
    → (code c == code sep) ≡ true
    → split sep (String.◌∷◌ c text) ≡ "" ∷ split sep text
unfolding split
split_at sep c text same = rw same

split_on :
    (sep c : Char) (text : String)
    → (code c == code sep) ≡ false
    → split sep (String.◌∷◌ c text) ≡ with_first c (split sep text)
unfolding split
split_on sep c text other = rw other

-- A separator between two texts splits them apart.
pub split-append :
    (sep : Char) (front back : String)
    → split sep (append front (String.◌∷◌ sep back)) ≡ split sep front ++ split sep back
split-append sep String.[] back =
    ap (split sep) (nil-append (String.◌∷◌ sep back))
    ∙ split_at sep sep back (beq_self (code sep))
    ∙ (unfold split in refl)
split-append sep (String.◌∷◌ c front) back =
    let ih = split-append sep front back in
    let (w, ws, words) = split_some sep front in
    ap (split sep) (cons-append c front (String.◌∷◌ sep back))
    ∙ elim (Bool-cases (code c == code sep)) [
      | inl same ↦
          rw (
            split_at sep c (append front (String.◌∷◌ sep back)) same,
            split_at sep c front same,
            ih,
          )
      | inr other ↦
          rw
            (
              split_on sep c (append front (String.◌∷◌ sep back)) other,
              split_on sep c front other,
              ih,
            )
            (sym (with_first-append c (split sep front) (split sep back) w ws words))
    ]
