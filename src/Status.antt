-- ===== src/Status.antt =====
-- handlers/status/status.go: the status of all handlers, and the devices that listen for its changes.
-- Instants are in nanoseconds; a set of listeners is a list.
pub mod Subscribing
pub mod Updating
use chik.Json.Struct.{◌>>=◌}
use chik.Prelude.{
  Bool, List, Option, String, [], contains, if◌then◌else◌, ltb, nat_eq, none, not, some, string_eq,
  ℕ, ◌&&◌, ◌*◌, ◌++◌, ◌-◌, ◌==◌, ◌^◌, ◌∷◌,
}
use chik.Controller.{Publication, Step, crashed, done, loopback_id, publish, reply}
use chik.Json.{Numbers, Value, obj, of_map, unmarshal_map}
use chik.Json.Struct.{decode_string, decode_uint, names_field, unmarshal_struct}
use chik.Messaging.{Message, Uuid}
use chik.Prelude.Dict.{Dict, insert, lookup}
use chik.Types.Command.{
  Action, new_command, set, status_command_type, status_notification_command_type,
  status_update_command_type,
}

pub record Subscriber : Type 0 where
  pub listeners : List String
  pub last_contact : ℕ

-- `types.Status`.
abbrev pub StatusMap : Type 0 → Type 0
StatusMap N = Dict String (Value N)

pub record StatusState (N : Type 0) : Type 0 where
  pub subscribers : Dict Uuid Subscriber
  pub current_status : StatusMap N

abbrev pub inactivity : ℕ
inactivity = 10 * 60 * 10 ^ 9

pub record StatusCommand : Type 0 where
  pub action : Action
  pub query : String

module _ {N : Type 0} where
  unfoldable pub new_status : StatusState N
  new_status = record { subscribers = []; current_status = [] }

  -- The field `Value` takes any value and is not looked at.
  set_status_command : ⦃ops : Numbers N⦄ → String → Value N → StatusCommand → Option StatusCommand
  set_status_command k v c =
      if names_field k "Action"
      then (do a ← decode_uint 65536 c.action v; some (record c { action = a }))
      else if names_field k "Query"
      then (do q ← decode_string c.query v; some (record c { query = q }))
      else some c

  unfoldable pub decode_status_command : ⦃ops : Numbers N⦄ → Option (Value N) → Option StatusCommand
  unfolding set_status_command unmarshal_struct
  decode_status_command = unmarshal_struct set_status_command (record { action = set; query = "" })

  -- `getStatus`: everything for the empty query, one module, or nothing.
  unfoldable pub get_status : String → StatusState N → StatusMap N
  get_status query h =
      if query == ""
      then h.current_status
      else elim (lookup query h.current_status) [ none ↦ [] | some v ↦ (query, v) ∷ [] ]

  -- A notification with the given part of the status.
  unfoldable pub notification : StatusMap N → Uuid → Publication N
  notification part to =
      publish (new_command status_notification_command_type (obj (of_map part))) to

-- The entry of a subscriber after it asked for `query` at `now`.
unfoldable pub subscribed : String → ℕ → Option Subscriber → Subscriber
subscribed query now none = record { listeners = query ∷ []; last_contact = now }
subscribed query now (some old) = record {
  listeners = (if contains query old.listeners then old.listeners else query ∷ old.listeners);
  last_contact = now;
}

-- Whether more than ten minutes have passed since the last contact.
abbrev pub is_inactive : ℕ → Subscriber → Bool
is_inactive now s = ltb inactivity (now - s.last_contact)

abbrev pub active_only : ℕ → Dict Uuid Subscriber → Dict Uuid Subscriber
active_only now [] = []
active_only now ((id, s) ∷ rest) =
    let more = active_only now rest in if is_inactive now s then more else (id, s) ∷ more

module _ {N : Type 0} where
  -- The test for a subscription: a SET that came from another device.
  abbrev pub subscribes : Uuid → Message N → StatusCommand → Bool
  subscribes own m content =
      content.action == set && (not (m.sender == loopback_id) && not (m.sender == own))

  -- A device other than this one can subscribe; every status command is answered.
  unfoldable pub handle_status_command :
      Uuid → ℕ → Message N → StatusCommand → StatusState N → Step N (StatusState N)
  handle_status_command own now m content h =
      let entry = subscribed content.query now (lookup m.sender h.subscribers) in
      let h' : StatusState N =
        if subscribes own m content
        then record h { subscribers = insert m.sender entry h.subscribers }
        else h in
      record {
        state = h';
        sent =
            reply m status_notification_command_type (obj (of_map (get_status content.query h')))
            ∷ [];
        exit = done;
      }

  -- The notifications of one changed module, to the subscribers that listen for it.
  unfoldable pub notify_all : String → Value N → Dict Uuid Subscriber → List (Publication N)
  unfolding notification
  notify_all k v [] = []
  notify_all k v ((id, s) ∷ rest) =
      let more = notify_all k v rest in
      if contains k s.listeners then notification ((k, v) ∷ []) id ∷ more else more

  -- The loop over an update: its entries are stored, and their listeners notified.
  unfoldable pub apply_update : StatusMap N → StatusState N → StatusState N × List (Publication N)
  unfolding notify_all
  apply_update [] h = (h, [])
  apply_update ((k, v) ∷ rest) h =
      let (h', more) =
        apply_update rest (record h { current_status = insert k v h.current_status }) in
      (h', notify_all k v h.subscribers ++ more)

  -- A status update. Subscribers are found inactive inside the loop, so an empty update drops none.
  unfoldable pub handle_status_update : ℕ → StatusMap N → StatusState N → Step N (StatusState N)
  unfolding apply_update notification
  handle_status_update now update h =
      let (h', sent) = apply_update update h in
      let kept : Dict Uuid Subscriber = elim update [
        | [] ↦ h'.subscribers
        | e ∷ rest ↦ active_only now h'.subscribers
      ] in
      record {
        state = record h' { subscribers = kept };
        sent = sent ++ notification h'.current_status loopback_id ∷ [];
        exit = done;
      }

  -- `handler.HandleMessage`, with the identity of the controller and the time.
  unfoldable pub handle_message :
      ⦃ops : Numbers N⦄ → Uuid → ℕ → StatusState N → Message N → Step N (StatusState N)
  handle_message own now h m =
      let quiet : Step N (StatusState N) = record { state = h; sent = []; exit = done } in
      elim m.command [
        | none ↦ record quiet { exit = crashed }
        | some c ↦
            if c.kind == status_command_type
            then elim (decode_status_command c.content) [
              | none ↦ quiet
              | some content ↦ handle_status_command own now m content h
            ]
            else if c.kind == status_update_command_type
            then elim (unmarshal_map c.content) [
              | none ↦ quiet
              | some update ↦ handle_status_update now update h
            ]
            else quiet
      ]
