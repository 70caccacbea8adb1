-- ===== src/Actor/Editing.antt =====
-- What requests do to the list of actions.
use chik.Actor.Decoding.{Action}
use chik.Prelude.{
  Bool-cases, List, Option, String, [], any_of, arith, eq_iff, false, if◌then◌else◌, inl, inr,
  nat_eq, none, refl, some, string_eq, true, ◌&&◌, ◌++◌, ◌==◌, ◌∷◌, ◌≡◌, ◌⊎◌,
}
use chik.Actor.Decoding.{ActionCommand}
use chik.Actor.Handler.{edited, remove_action, replace_action, store_action}
use chik.Types.Command.{reset, set}

module _ {N : Type 0} where
  -- The first action of an ID.
  unfoldable pub find_action : String → List (Action N) → Option (Action N)
  find_action id [] = none
  find_action id (a ∷ actions) =
      let later = find_action id actions in if a.id == id then some a else later

  -- No ID twice.
  abbrev pub Distinct : List (Action N) → Type 0
  Distinct [] = Unit {0}
  Distinct (a ∷ actions) = (find_action a.id actions ≡ none) × Distinct actions

  find-append :
      (id : String) (actions : List (Action N)) (new : Action N)
      → find_action id (actions ++ new ∷ []) ≡ elim (find_action id actions) [
        | none ↦ if new.id == id then some new else none
        | some a ↦ some a
      ]
  unfolding find_action
  find-append id [] new = refl
  find-append id (a ∷ actions) new = ground (arith, find-append id actions new)

  find-replace :
      (id : String) (new : Action N) (actions : List (Action N))
      → find_action id (replace_action new actions) ≡ (
          if new.id == id && any_of (λ a. a.id == id) actions
          then some new
          else find_action id actions)
  unfolding find_action replace_action
  find-replace id new [] = ground arith
  find-replace id new (a ∷ actions) =
      let ih = find-replace id new actions in
      ground (arith, eq_iff a.id new.id, eq_iff a.id id, eq_iff new.id id, ih)

  any_of-find :
      (id : String) (actions : List (Action N))
      → any_of (λ a. a.id == id) actions
        ≡ elim (find_action id actions) [ none ↦ false | some a ↦ true ]
  unfolding find_action
  any_of-find id [] = refl
  any_of-find id (a ∷ actions) = ground (arith, any_of-find id actions)

  find-remove :
      (id gone : String) (actions : List (Action N))
      → find_action id (remove_action gone actions)
        ≡ (if gone == id then none else find_action id actions)
  unfolding find_action remove_action
  find-remove id gone [] = ground arith
  find-remove id gone (a ∷ actions) =
      ground (arith, eq_iff a.id gone, eq_iff a.id id, eq_iff gone id, find-remove id gone actions)

  find-store :
      (id : String) (new : Action N) (actions : List (Action N))
      → find_action id (store_action new actions)
        ≡ (if new.id == id then some new else find_action id actions)
  unfolding store_action
  find-store id new actions = elim (Bool-cases (any_of (λ a. a.id == new.id) actions)) [
    | inl known ↦ rw known (
        ground (
          arith,
          find-replace id new actions,
          any_of-find new.id actions,
          any_of-find id actions,
          eq_iff new.id id,
        ))
    | inr fresh ↦
        rw fresh
          (ground (arith, find-append id actions new, any_of-find new.id actions, eq_iff new.id id))
  ]

  Distinct-replace :
      (new : Action N) (actions : List (Action N))
      → Distinct actions
      → Distinct (replace_action new actions)
  unfolding replace_action
  Distinct-replace new [] d = tt
  Distinct-replace new (a ∷ actions) (fresh, d) =
      let none_there = any_of-find a.id actions in
      let found = find-replace a.id new actions in
      elim (Bool-cases (a.id == new.id)) [
        | inl same ↦
            rw same (
              ground (arith, none_there, found, eq_iff a.id new.id),
              Distinct-replace new actions d,
            )
        | inr other ↦ rw other (ground (arith, none_there, found), Distinct-replace new actions d)
      ]

  Distinct-remove :
      (gone : String) (actions : List (Action N))
      → Distinct actions
      → Distinct (remove_action gone actions)
  unfolding remove_action
  Distinct-remove gone [] d = tt
  Distinct-remove gone (a ∷ actions) (fresh, d) = elim (Bool-cases (a.id == gone)) [
    | inl same ↦ rw same (Distinct-remove gone actions d)
    | inr other ↦ rw other (
      let found = find-remove a.id gone actions in ground (arith, found),
      Distinct-remove gone actions d,
    )
  ]

  Distinct-append :
      (new : Action N) (actions : List (Action N))
      → any_of (λ a. a.id == new.id) actions ≡ false
      → Distinct actions
      → Distinct (actions ++ new ∷ [])
  Distinct-append new [] unknown d = (unfold find_action in refl, tt)
  Distinct-append new (a ∷ actions) unknown (fresh, d) =
      let added = find-append a.id actions new in
      (
        ground (arith, added, eq_iff a.id new.id, eq_iff new.id a.id),
        Distinct-append new actions (ground arith) d,
      )

  -- The action of an ID after a request.
  abbrev pub found_after : ActionCommand N → String → Option (Action N) → Option (Action N)
  found_after request id old =
      if request.action == set
      then if request.value.id == id then some request.value else old
      else if request.action == reset
      then if request.value.id == id then none else old
      else old

  -- After a request the actor has the action of the request under its ID if it was a SET, none if it was
  -- a RESET, and under every other ID what it had.
  pub find-edited :
      (request : ActionCommand N) (id : String) (actions : List (Action N))
      {actions' : List (Action N)}
      → edited request actions ≡ some actions'
      → find_action id actions' ≡ found_after request id (find_action id actions)
  unfolding edited
  find-edited request id actions got =
      ground (arith, find-store id request.value actions, find-remove id request.value.id actions)

  Distinct-store :
      (new : Action N) (actions : List (Action N))
      → Distinct actions
      → Distinct (store_action new actions)
  unfolding store_action
  Distinct-store new actions d = elim (Bool-cases (any_of (λ a. a.id == new.id) actions)) [
    | inl known ↦ rw known (Distinct-replace new actions d)
    | inr fresh ↦ rw fresh (Distinct-append new actions fresh d)
  ]

  edited_cases :
      (request : ActionCommand N) (actions : List (Action N)) {actions' : List (Action N)}
      → edited request actions ≡ some actions'
      → (actions' ≡ actions)
        ⊎ ((actions' ≡ store_action request.value actions)
            ⊎ (actions' ≡ remove_action request.value.id actions))
  unfolding edited
  edited_cases request actions got = ground arith

  -- No request makes two actions of the same ID.
  pub edited-Distinct :
      (request : ActionCommand N) (actions : List (Action N)) {actions' : List (Action N)}
      → edited request actions ≡ some actions'
      → Distinct actions
      → Distinct actions'
  edited-Distinct request actions got d = elim (edited_cases request actions got) [
    | inl same ↦ rw same d
    | inr (inl stored) ↦ rw stored (Distinct-store request.value actions d)
    | inr (inr removed) ↦ rw removed (Distinct-remove request.value.id actions d)
  ]
