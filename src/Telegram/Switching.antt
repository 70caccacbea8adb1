-- ===== src/Telegram/Switching.antt =====
-- Who switches which appliances.
use chik.Types.Command.{Action}
use chik.Prelude.{
  List, Option-cases, String, [], any_of, arith, contains, if◌then◌else◌, inl, inr, length, map,
  nat_eq, none, refl, some, string_eq, ◌==◌, ◌∷◌, ◌≡◌,
}
use chik.Prelude.Dict.{lookup}
use chik.Telegram.{
  Telegram, apply_action, find_word, handle_update, off_button, on_button, on_text, text_message,
}
use chik.Types.Command.{DigitalCommand, reset, set}
use chik.Words.{split}

contains-any_of :
    (sender : String) (users : List String)
    → any_of (λ user. user == sender) users ≡ contains sender users
contains-any_of sender [] = refl
contains-any_of sender (user ∷ users) = ground (arith, contains-any_of sender users)

module _ (lower : String → String) (sprintf : String → String → String) where
  -- The appliances that the words of a text name, in the order of the words.
  abbrev pub named : Telegram → List String → List String
  named h [] = []
  named h (token ∷ tokens) = elim (lookup (lower token) h.appliances_by_name) [
    | none ↦ named h tokens
    | some id ↦ id ∷ named h tokens
  ]

  -- One command for each appliance.
  abbrev pub commands_for : Action → List String → List DigitalCommand
  commands_for action ids = map (λ id. record { action = action; appliance_id = id }) ids

  apply_action_events :
      (h : Telegram) (action : Action) (tokens : List String)
      → ((apply_action lower sprintf h action tokens).events ≡ commands_for action (named h tokens))
        × (length (apply_action lower sprintf h action tokens).answers
            ≡ length (apply_action lower sprintf h action tokens).events)
  unfolding apply_action
  apply_action_events h action [] = (refl, refl)
  apply_action_events h action (token ∷ tokens) =
      let (events, answers) = apply_action_events h action tokens in
      elim (Option-cases (lookup (lower token) h.appliances_by_name)) [
        | inl missing ↦ (ground (arith, events), ground (arith, answers))
        | inr (id, found) ↦ (ground (arith, events), ground (arith, answers))
      ]

  on_text_events :
      (h : Telegram) (text : String)
      → ((on_text lower sprintf h text).events ≡ (
          if find_word lower sprintf text h.set_strings
          then commands_for set (named h (split " " text))
          else if find_word lower sprintf text h.reset_strings
          then commands_for reset (named h (split " " text))
          else []))
        × (length (on_text lower sprintf h text).answers
            ≡ length (on_text lower sprintf h text).events)
  unfolding on_text
  on_text_events h text =
      let (on, on_answers) = apply_action_events h set (split " " text) in
      let (off, off_answers) = apply_action_events h reset (split " " text) in
      (ground (arith, on, off), ground (arith, on_answers, off_answers))

  -- A message switches appliances only if its sender is an allowed user: then, if one of its words is a
  -- set word, each word that names an appliance gives one SET, in the order of the words; otherwise, if one
  -- is a reset word, one RESET; and each is answered. A message of anybody else has no effect and no
  -- answer. But a press of a button switches the appliance of its data for every user.
  pub handle_update-switches :
      (h : Telegram) (sender text content : String) (id : String)
      → lookup content h.appliances_by_name ≡ some id
      → (let r = handle_update lower sprintf h (text_message sender text) in
          let words = split " " text in
          (r.events ≡ (
            if contains sender h.allowed_users
            then (if find_word lower sprintf text h.set_strings
                then commands_for set (named h words)
                else if find_word lower sprintf text h.reset_strings
                then commands_for reset (named h words)
                else [])
            else []))
          × (length r.answers ≡ length r.events)
          × ((handle_update lower sprintf h (on_button sender content)).events
              ≡ commands_for set (id ∷ []))
          × ((handle_update lower sprintf h (off_button sender content)).events
              ≡ commands_for reset (id ∷ [])))
  unfolding handle_update
  handle_update-switches h sender text content id found =
      let (events, answers) = on_text_events h text in
      let allowed = contains-any_of sender h.allowed_users in
      (
        ground (arith, events, allowed),
        ground (arith, answers, allowed),
        ground (arith, found),
        ground (arith, found),
      )
