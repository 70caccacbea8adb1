-- ===== src/Telegram.antt =====
-- handlers/telegram/telegram.go: a bot that switches appliances by their names. The bot library and the
-- texts of the Go library are arguments: `lower` is strings.ToLower, `sprintf` fills the name of a device
-- into a configured message, and `user_id` is the decimal text of the number of a user.
pub mod Switching
use chik.Types.Command.{Action}
use chik.Prelude.{
  Bool, List, Option, String, [], any_of, if◌then◌else◌, nat_eq, none, some, string_eq, true, ◌==◌,
  ◌∷◌,
}
use chik.Controller.{Exit, Step, crashed, done, failed, loopback_id, publish}
use chik.Json.{Numbers, Value}
use chik.Json.Struct.{decode_string, names_field, unmarshal_struct}
use chik.Messaging.{Message}
use chik.Prelude.Dict.{Dict, lookup}
use chik.Types.Command.{DigitalCommand, digital_command_type, new_command, reset, set}
use chik.Types.Command.Decoding.{digital_value}
use chik.Words.{split}

pub record Telegram : Type 0 where
  pub allowed_users : List String
  pub appliances_by_name : Dict String String
  pub set_strings : List String
  pub reset_strings : List String
  pub set_done_message : String
  pub reset_done_message : String
  pub has_bot : Bool

-- What the bot receives: a message of a user, a press of one of the two buttons with its data by a user,
-- or anything else.
pub data Update : Type 0 where
  text_message : (sender text : String) → Update
  on_button : (sender content : String) → Update
  off_button : (sender content : String) → Update
  other_update : Update

-- An answer of the bot, with the word that its two buttons stand for (none for an answer to a button).
pub record Answer : Type 0 where
  pub text : String
  pub buttons : Option String

-- What a handler of the bot does: the events for the controller, in order, and the answers.
pub record Handled : Type 0 where
  pub events : List DigitalCommand
  pub answers : List Answer

abbrev pub nothing : Handled
nothing = record { events = []; answers = [] }

module _ (lower : String → String) (sprintf : String → String → String) where
  unfoldable pub find_word : String → List String → Bool
  unfolding split
  find_word text candidates =
      any_of (λ token. any_of (λ candidate. lower token == lower candidate) candidates)
        (split " " text)

  -- `execAction`: the event and the reply, or an error for a device that is not found.
  unfoldable pub exec_action : Telegram → String → Action → Option (DigitalCommand × String)
  unfolding lookup
  exec_action h device action = elim (lookup device h.appliances_by_name) [
    | none ↦ none
    | some val ↦ some (
      record { action = action; appliance_id = val },
      sprintf (if action == reset then h.reset_done_message else h.set_done_message) device,
    )
  ]

  -- `applyAction`, over the words of a text.
  unfoldable pub apply_action : Telegram → Action → List String → Handled
  unfolding exec_action
  apply_action h action [] = nothing
  apply_action h action (token ∷ tokens) =
      let rest = apply_action h action tokens in
      elim (exec_action h (lower token) action) [
        | none ↦ rest
        | some (command, text) ↦ record {
          events = command ∷ rest.events;
          answers = record { text = text; buttons = some (lower token) } ∷ rest.answers;
        }
      ]

  -- The handler of a text.
  unfoldable pub on_text : Telegram → String → Handled
  unfolding find_word apply_action split
  on_text h text =
      if find_word text h.set_strings
      then apply_action h set (split " " text)
      else if find_word text h.reset_strings
      then apply_action h reset (split " " text)
      else nothing

  -- The handler of a button; the reply to a device that is not found says so.
  unfoldable pub on_press : Telegram → String → Action → Handled
  unfolding exec_action
  on_press h content action = elim (exec_action h content action) [
    | none ↦ record {
      events = [];
      answers = record { text = "Device not found!"; buttons = none } ∷ [];
    }
    | some (command, text) ↦ record {
      events = command ∷ [];
      answers = record { text = text; buttons = none } ∷ [];
    }
  ]

  -- The filter of the poller: only an update that carries a message is looked at.
  unfoldable pub passes : Telegram → Update → Bool
  passes h (text_message sender text) = any_of (λ user. user == sender) h.allowed_users
  passes h _ = true

  unfoldable pub handle_update : Telegram → Update → Handled
  unfolding passes on_text on_press
  handle_update h (text_message sender text) =
      if passes h (text_message sender text) then on_text h text else nothing
  handle_update h (on_button sender content) = on_press h content set
  handle_update h (off_button sender content) = on_press h content reset
  handle_update h other_update = nothing

-- `sendMessage`: the users that a message is sent to, up to the first failure; `deliver` says which sends
-- succeed. Without a bot a send panics.
pub record Sending : Type 0 where
  pub receivers : List String
  pub exit : Exit

unfoldable pub send_to : (deliver : String → Bool) → List String → Sending
send_to deliver [] = record { receivers = []; exit = done }
send_to deliver (user ∷ users) =
    let rest = send_to deliver users in
    if deliver user
    then record rest { receivers = user ∷ rest.receivers }
    else record { receivers = user ∷ []; exit = failed }

unfoldable pub send_message : (deliver : String → Bool) → Telegram → Sending
unfolding send_to
send_message deliver h =
    if h.has_bot then send_to deliver h.allowed_users else elim h.allowed_users [
      | [] ↦ record { receivers = []; exit = done }
      | user ∷ users ↦ record { receivers = []; exit = crashed }
    ]

module _ {N : Type 0} where
  set_notification : String → Value N → String → Option String
  set_notification k v old = if names_field k "message" then decode_string old v else some old

  unfoldable pub decode_notification : Option (Value N) → Option String
  unfolding set_notification unmarshal_struct
  decode_notification = unmarshal_struct set_notification ""

  -- `HandleMessage`: the text that is sent, and to whom.
  unfoldable pub handle_message :
      (deliver : String → Bool) → Telegram → Message N → Option String × Sending
  unfolding decode_notification send_message
  handle_message deliver h m = elim m.command [
    | none ↦ (none, record { receivers = []; exit = crashed })
    | some c ↦ elim (decode_notification c.content) [
      | none ↦ (none, record { receivers = []; exit = failed })
      | some text ↦ (some text, send_message deliver h)
    ]
  ]

  -- `HandleTimerEvent` starts the bot.
  unfoldable pub handle_timer_event : (starts : Bool) → Telegram → Step N Telegram
  handle_timer_event starts h = record {
    state = record h { has_bot = starts };
    sent = [];
    exit = if starts then done else failed;
  }

module _ {N : Type 0} ⦃ops : Numbers N⦄ where
  -- `HandleChannelEvent`; `none` is an event of another type.
  unfoldable pub handle_channel_event : Option DigitalCommand → Telegram → Step N Telegram
  unfolding publish digital_value
  handle_channel_event none h = record { state = h; sent = []; exit = failed }
  handle_channel_event (some command) h = record {
    state = h;
    sent = publish (new_command digital_command_type (digital_value command)) loopback_id ∷ [];
    exit = done;
  }
