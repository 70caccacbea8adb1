-- ===== src/Version.antt =====
-- handlers/version/version.go.
use chik.Prelude.{String, [], arith, if◌then◌else◌, nat_eq, none, some, string_eq, ◌==◌, ◌∷◌, ◌≡◌}
use chik.Controller.{Step, crashed, done, loopback_id, publish, reply}
use chik.Json.{Numbers, Value, end, field, obj, str}
use chik.Messaging.{Message, new_message}
use chik.Types.Command.{
  Command, SimpleCommand, any_outgoing_command_type, get, new_command, topic_of,
  version_reply_command_type,
}
use chik.Types.Command.Decoding.{decode_simple}

pub record Version : Type 0 where
  pub current : String

module _ {N : Type 0} ⦃ops : Numbers N⦄ where
  -- `VersionIndication` with the current version in both places.
  unfoldable pub version_indication : Version → Value N
  version_indication h =
      obj (field "CurrentVersion" (str h.current) (field "AvailableVersion" (str h.current) end))

  -- `version.HandleMessage` of a message with the given command.
  unfoldable pub handle_command : Version → Message N → Command N → Step N Version
  unfolding version_indication
  handle_command h m c =
      let quiet : Step N Version = record { state = h; sent = []; exit = done } in
      elim (decode_simple c.content) [
        | none ↦ quiet
        | some command ↦
            if command.action == get
            then record quiet {
              sent = reply m version_reply_command_type (version_indication h) ∷ [];
            }
            else quiet
      ]

  unfoldable pub handle_message : Version → Message N → Step N Version
  unfolding handle_command
  handle_message h m = elim m.command [
    | none ↦ record { state = h; sent = []; exit = crashed }
    | some c ↦ handle_command h m c
  ]

  -- A version is answered exactly when the request decodes and its action is GET: one reply, to the
  -- sender of the request, or on the loopback if it has none.
  pub handle_message-answers :
      (h : Version) (m : Message N) {c : Command N} {command : SimpleCommand}
      → m.command ≡ some c
      → decode_simple c.content ≡ some command
      → ((handle_message h m).exit ≡ done)
        × ((handle_message h m).sent ≡ (
            if command.action == get
            then record {
              message =
                  new_message m.sender
                    (new_command version_reply_command_type (version_indication h));
              topics =
                  (if m.sender == loopback_id
                    then topic_of version_reply_command_type
                    else topic_of any_outgoing_command_type)
                  ∷ [];
            }
              ∷ []
            else []))
  unfolding handle_message reply publish
  handle_message-answers h m carried decoded = ground arith
