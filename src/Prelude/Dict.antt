-- ===== src/Prelude/Dict.antt =====
-- Go maps as association lists: `insert` replaces in place, so a key occurs at most once.
use mathlib.Core.Path.{◌≡◌, refl}
use mathlib.Core.Option.{Option, none, some}
use mathlib.Core.List.{List, [], ◌∷◌}
use native.Mathlib.Omega.{arith}
use chik.Prelude.Tests.{if◌then◌else◌, Eq, ◌==◌, beq_self}

abbrev pub Dict : Type 0 → Type 0 → Type 0
Dict K V = List (K × V)

module _ {K V : Type 0} ⦃keys : Eq K⦄ where
  unfoldable pub lookup : K → Dict K V → Option V
  lookup key [] = none
  lookup key ((k, v) ∷ rest) = if k == key then some v else lookup key rest

  unfoldable pub insert : K → V → Dict K V → Dict K V
  insert key new [] = (key, new) ∷ []
  insert key new ((k, v) ∷ rest) =
      if k == key then (k, new) ∷ rest else (k, v) ∷ insert key new rest

  unfoldable pub delete : K → Dict K V → Dict K V
  delete key [] = []
  delete key ((k, v) ∷ rest) =
      let others = delete key rest in if k == key then others else (k, v) ∷ others

  pub lookup-insert :
      (key asked : K) (new : V) (entries : Dict K V)
      → lookup asked (insert key new entries)
        ≡ (if key == asked then some new else lookup asked entries)
  unfolding lookup insert
  lookup-insert key asked new [] = refl
  lookup-insert key asked new ((k, v) ∷ rest) =
      let same = keys.same_iff in
      ground (arith, lookup-insert key asked new rest, same k asked, same k key, same key asked)

  pub lookup-delete :
      (key asked : K) (entries : Dict K V)
      → lookup asked (delete key entries) ≡ (if key == asked then none else lookup asked entries)
  unfolding lookup delete
  lookup-delete key asked [] = ground arith
  lookup-delete key asked ((k, v) ∷ rest) =
      let same = keys.same_iff in
      ground (arith, lookup-delete key asked rest, same k asked, same k key, same key asked)

  pub lookup-insert_self :
      (key : K) (new : V) (entries : Dict K V) → lookup key (insert key new entries) ≡ some new
  lookup-insert_self key new entries = simp (lookup-insert, beq_self)

  pub lookup-delete_self : (key : K) (entries : Dict K V) → lookup key (delete key entries) ≡ none
  lookup-delete_self key entries = simp (lookup-delete, beq_self)

pub ruleset dict_laws = (lookup-insert, lookup-delete)
