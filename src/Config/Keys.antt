-- ===== src/Config/Keys.antt =====
-- What `Set` stores, `Get` gives back.
use Prim.Native.Char.{code}
use chik.Config.{bare, nil}
use chik.Prelude.{
  Bool, Bool-cases, List, Option-cases, String, [], arith, beq_self, eq_iff, false, if◌then◌else◌,
  inl, inr, nat_eq, none, refl, some, string_eq, true, ◌==◌, ◌∙◌, ◌∷◌, ◌≡◌, ◌⊎◌,
}
use chik.Config.{
  Branches, Config, Tree, branch, entry, find, foreign, get_at, get_key, leaf, put, set_at, set_key,
  split_dots,
}
use chik.Prelude.Outcome.{ok}

-- Keys that part at some word: none of the two goes on from the other.
abbrev pub parted : List String → List String → Bool
parted [] keys = false
parted (j ∷ others) [] = false
parted (j ∷ others) (k ∷ keys) = if j == k then parted others keys else true

parted_nil : (others : List String) → parted others [] ≡ false
parted_nil [] = refl
parted_nil (j ∷ others) = refl

module _ {V : Type 0} where
  pub find-put :
      (k asked : String) (new : Tree V) (sector : Branches V)
      → find asked (put k new sector) ≡ (if k == asked then new else find asked sector)
  unfolding find put
  find-put k asked new bare = refl
  find-put k asked new (entry j t rest) =
      ground (arith, find-put k asked new rest, eq_iff k asked, eq_iff j asked, eq_iff j k)

  get_at-bare : (keys : List String) → get_at {V = V} keys bare ≡ ok nil
  unfolding get_at find
  get_at-bare [] = refl
  get_at-bare (k ∷ []) = refl
  get_at-bare (k ∷ j ∷ keys) = refl

  -- A longer key goes on in a branch that is there, or in a new one.
  record Deeper (k : String) (keys : List String) (new : Tree V) (sector sector' : Branches V)
      : Type 0 where
    inner : Branches V
    inner' : Branches V
    before : (find k sector ≡ branch inner) ⊎ ((find k sector ≡ nil) × (inner ≡ bare))
    stored : set_at keys new inner ≡ some inner'
    after : sector' ≡ put k (branch inner') sector

  set_at-Deeper :
      (k j : String) (keys : List String) (new : Tree V) (sector : Branches V)
      {sector' : Branches V}
      → set_at (k ∷ j ∷ keys) new sector ≡ some sector'
      → Deeper k (j ∷ keys) new sector sector'
  set_at-Deeper k j keys new sector {sector'} got = go (find k sector) refl
    where
      step :
          (t : Tree V)
          → find k sector ≡ t
          → (elim t [
            | nil ↦ elim (set_at (j ∷ keys) new bare) [
              | none ↦ none
              | some b' ↦ some (put k (branch b') sector)
            ]
            | branch b ↦ elim (set_at (j ∷ keys) new b) [
              | none ↦ none
              | some b' ↦ some (put k (branch b') sector)
            ]
            | foreign v ↦ none
            | leaf v ↦ none
          ])
            ≡ some sector'
      step t e = unfold set_at in rw (← e) got

      go : (t : Tree V) → find k sector ≡ t → Deeper k (j ∷ keys) new sector sector'
      go nil e = elim (Option-cases (set_at (j ∷ keys) new bare)) [
        | inl halted ↦ absurd (ground (arith, step nil e))
        | inr (b', s) ↦ record {
          inner = bare;
          inner' = b';
          before = inr (e, refl);
          stored = s;
          after = ground (arith, step nil e, s);
        }
      ]
      go (branch b) e = elim (Option-cases (set_at (j ∷ keys) new b)) [
        | inl halted ↦ absurd (ground (arith, step (branch b) e))
        | inr (b', s) ↦ record {
          inner = b;
          inner' = b';
          before = inl e;
          stored = s;
          after = ground (arith, step (branch b) e, s);
        }
      ]
      go (foreign v) e = let no = step (foreign v) e in cc
      go (leaf v) e = let no = step (leaf v) e in cc

  -- The branch stands where it was put.
  find-Deeper :
      (k : String) (keys : List String) (new : Tree V) (sector sector' : Branches V)
      (d : Deeper k keys new sector sector')
      → find k sector' ≡ branch d.inner'
  find-Deeper k keys new sector sector' d =
      rw d.after (find-put k k (branch d.inner') sector ∙ rw beq_self)

  get_at-set_at :
      (k : String) (keys : List String) (new : Tree V) (sector : Branches V) {sector' : Branches V}
      → set_at (k ∷ keys) new sector ≡ some sector'
      → get_at (k ∷ keys) sector' ≡ ok new
  unfolding get_at
  get_at-set_at k [] new sector stored =
      unfold set_at in ground (arith, find-put k k new sector, beq_self k)
  get_at-set_at k (j ∷ keys) new sector {sector'} stored =
      let d = set_at-Deeper k j keys new sector stored in
      rw (get_at, find-Deeper k (j ∷ keys) new sector sector' d)
        (get_at-set_at j keys new d.inner d.stored)

  get_at_same :
      (i : String) (others : List String) (sector sector' : Branches V)
      → find i sector' ≡ find i sector
      → get_at (i ∷ others) sector' ≡ get_at (i ∷ others) sector
  unfolding get_at
  get_at_same i [] sector sector' same = rw same
  get_at_same i (j ∷ others) sector sector' same = rw (get_at, same)

  get_at-Deeper :
      (k j : String) (others keys : List String) (new : Tree V) (sector sector' : Branches V)
      (d : Deeper k keys new sector sector')
      → get_at (j ∷ others) d.inner' ≡ get_at (j ∷ others) d.inner
      → get_at (k ∷ j ∷ others) sector' ≡ get_at (k ∷ j ∷ others) sector
  unfolding get_at
  get_at-Deeper k j others keys new sector sector' d inside =
      let now = find-Deeper k keys new sector sector' d in
      elim d.before [
        | inl there ↦ rw (get_at, now, there) inside
        | inr (missing, fresh) ↦
            rw (get_at, now, missing) (inside ∙ (rw fresh (get_at-bare (j ∷ others))))
      ]

  find-other :
      (i k : String) (new : Tree V) (sector : Branches V)
      → (i == k) ≡ false
      → find i (put k new sector) ≡ find i sector
  find-other i k new sector other = ground (arith, find-put k i new sector, eq_iff i k, eq_iff k i)

  get_at-set_at_other :
      (others keys : List String) (new : Tree V) (sector sector' : Branches V)
      → parted others keys ≡ true
      → set_at keys new sector ≡ some sector'
      → get_at others sector' ≡ get_at others sector
  get_at-set_at_other [] keys new sector sector' apart stored = cc
  get_at-set_at_other (i ∷ others) [] new sector sector' apart stored = cc
  get_at-set_at_other (i ∷ others) (k ∷ []) new sector sector' apart stored =
      let other : (i == k) ≡ false = ground (arith, parted_nil others) in
      let put_so : sector' ≡ put k new sector = unfold set_at in ground arith in
      get_at_same i others sector sector' (rw put_so (find-other i k new sector other))
  get_at-set_at_other (i ∷ []) (k ∷ j ∷ keys) new sector sector' apart stored =
      let d = set_at-Deeper k j keys new sector stored in
      let other : (i == k) ≡ false = ground arith in
      get_at_same i [] sector sector' (rw d.after (find-other i k (branch d.inner') sector other))
  get_at-set_at_other (i ∷ g ∷ others) (k ∷ j ∷ keys) new sector sector' apart stored =
      let d = set_at-Deeper k j keys new sector stored in
      elim (Bool-cases (i == k)) [
        | inl same ↦
            let e : i ≡ k = ground (arith, eq_iff i k) in
            let inside =
              get_at-set_at_other (g ∷ others) (j ∷ keys) new d.inner d.inner' (rw same at apart)
                d.stored in
            rw e (get_at-Deeper k g others (j ∷ keys) new sector sector' d inside)
        | inr other ↦
            get_at_same i (g ∷ others) sector sector'
              (rw d.after (find-other i k (branch d.inner') sector other))
      ]

split_dots_cons : (key : String) → (k : String) × (keys : List String) × (split_dots key ≡ k ∷ keys)
unfolding split_dots
split_dots_cons String.[] = ("", [], refl)
split_dots_cons (String.◌∷◌ c text) =
    let (k, keys, e) = split_dots_cons text in
    elim (Bool-cases (code c == b'.')) [
      | inl dot ↦ ("", split_dots text, rw dot)
      | inr letter ↦ (String.◌∷◌ c k, keys, rw (letter, e))
    ]

module _ {V : Type 0} where
  -- What `Set` stores under a key `Get` gives back under that key, and under every other key, unless one
  -- of the two goes on from the other, `Get` gives what it gave before.
  pub get_key-set_key :
      (key : String) (new : Tree V) (conf conf' : Config V)
      → set_key key new conf ≡ some conf'
      → (get_key key conf' ≡ ok new)
        × ((asked : String)
            → parted (split_dots asked) (split_dots key) ≡ true
            → get_key asked conf' ≡ get_key asked conf)
  unfolding set_key get_key
  get_key-set_key key new conf conf' stored =
      let (k, keys, e) = split_dots_cons key in
      let set_so : set_at (split_dots key) new conf.entries ≡ some conf'.entries =
        elim (Option-cases (set_at (split_dots key) new conf.entries)) [
          | inl halted ↦ absurd (ground (arith, halted))
          | inr (entries, s) ↦ ground (arith, s)
        ] in
      (
        rw e (get_at-set_at k keys new conf.entries (rw e at set_so)),
        λ asked apart.
            get_at-set_at_other (split_dots asked) (split_dots key) new conf.entries conf'.entries
              apart set_so,
      )
