-- ===== src/Snapcast/Events.antt =====
-- handlers/snapcast/snapcast.go: the commands to the handler and the notifications of the server.
use chik.Types.Command.{Action}
use chik.Snapcast.Requests.{Server, ◌>>=◌, ◌>>◌, get_status}
use chik.Json.Struct.{◌>>=◌ as and_then}
use chik.Json.{nil}
use chik.Prelude.{
  Bool, Eq, List, Option, String, [], false, if◌then◌else◌, nat_eq, none, some, string_eq, true,
  ◌==◌, ◌∷◌,
}
use chik.Json.{Items, Numbers, Value, arr, item, null, num}
use chik.Json.Struct.{decode_string, decode_uint, names_field, unmarshal_struct}
use chik.Messaging.{Message}
use chik.Prelude.Int.{int_eq, pos, ℤ}
use chik.Prelude.Outcome.{err, ok, panic}
use chik.Snapcast.Requests.{
  M, SnapcastStatus, decoded, full, holding, ignoring, set_clients, set_stream, set_volume,
  simplified, snapcast_request, with_result,
}
use chik.Snapcast.Structs.{GroupStreamChanged, ServerStatus, SimplifiedGroup, Volume}
use chik.StatusHolder.{edit, set_status}
use chik.Types.Command.{get, reset, set, snapcast_client_command_type, snapcast_group_command_type}

pub record SnapcastClientCommand : Type 0 where
  pub client_id : String
  pub action : Action
  pub value : ℤ

pub record SnapcastGroupCommand : Type 0 where
  pub group_id : String
  pub action : Action
  pub stream : String
  pub clients : List String

-- What arrives on the channel, decoded (`none` where that fails).
pub data Event : Type 0 where
  on_update : Option ServerStatus → Event
  on_stream_changed : Option GroupStreamChanged → Event
  other_method : Event
  no_request : Event

-- The groups after a change of a stream, and whether there is one of the identifier.
unfoldable pub restream : GroupStreamChanged → List SimplifiedGroup → List SimplifiedGroup × Bool
restream changed [] = ([], false)
restream changed (g ∷ groups) =
    let (groups', force) = restream changed groups in
    if g.id == changed.id
    then (record g { stream_id = changed.stream_id } ∷ groups', true)
    else (g ∷ groups', force)

-- The JSON forms of the commands; `to_int` reads an int.
module _ {N : Type 0} ⦃ops : Numbers N⦄ (to_int : N → Option ℤ) where
  abbrev decode_int : ℤ → Value N → Option ℤ
  decode_int old null = some old
  decode_int old (num x) = to_int x
  decode_int old _ = none

  abbrev decode_texts : Items N → Option (List String)
  decode_texts nil = some []
  decode_texts (item v vs) =
      and_then (decode_string "" v) (λ s. and_then (decode_texts vs) (λ ss. some (s ∷ ss)))

  abbrev decode_list : Value N → Option (List String)
  decode_list null = some []
  decode_list (arr vs) = decode_texts vs
  decode_list _ = none

  set_client_command : String → Value N → SnapcastClientCommand → Option SnapcastClientCommand
  set_client_command k v c =
      if names_field k "client_id"
      then and_then (decode_string c.client_id v) (λ id. some (record c { client_id = id }))
      else if names_field k "action"
      then and_then (decode_uint 65536 c.action v) (λ a. some (record c { action = a }))
      else if names_field k "value"
      then and_then (decode_int c.value v) (λ n. some (record c { value = n }))
      else some c

  unfoldable pub decode_client_command : Option (Value N) → Option SnapcastClientCommand
  unfolding set_client_command unmarshal_struct
  decode_client_command =
      unmarshal_struct set_client_command (record { client_id = ""; action = set; value = pos 0 })

  set_group_command : String → Value N → SnapcastGroupCommand → Option SnapcastGroupCommand
  set_group_command k v c =
      if names_field k "group_id"
      then and_then (decode_string c.group_id v) (λ id. some (record c { group_id = id }))
      else if names_field k "action"
      then and_then (decode_uint 65536 c.action v) (λ a. some (record c { action = a }))
      else if names_field k "stream"
      then and_then (decode_string c.stream v) (λ s. some (record c { stream = s }))
      else if names_field k "clients"
      then and_then (decode_list v) (λ ids. some (record c { clients = ids }))
      else some c

  unfoldable pub decode_group_command : Option (Value N) → Option SnapcastGroupCommand
  unfolding set_group_command unmarshal_struct
  decode_group_command =
      unmarshal_struct set_group_command
        (record { group_id = ""; action = set; stream = ""; clients = [] })

abbrev is_empty_list : List String → Bool
is_empty_list [] = true
is_empty_list (s ∷ rest) = false

module _ {N R : Type 0} ⦃keys : Eq SnapcastStatus⦄ (server : Server R)
    (to_value : SnapcastStatus → Value N) where
  unfoldable pub handle_server_status_update : ServerStatus → M N (Unit {0})
  unfolding set_status
  handle_server_status_update status h = holding (set_status to_value (full status) h.status) h

  -- The edit asserts that the status is a simplified one; nil and the other struct panic. It changes the
  -- groups in place, and forces the update if it changed one.
  unfoldable pub handle_group_stream_changed : GroupStreamChanged → M N (Unit {0})
  unfolding edit restream
  handle_group_stream_changed changed h = elim h.status.status [
    | some (simplified current) ↦
        let (groups, force) = restream changed current.groups in
        let new = simplified (record current { groups = groups }) in
        holding (edit to_value (λ old. (new, force)) h.status) h
    | _ ↦ with_result panic h
  ]

  -- `HandleChannelEvent`.
  unfoldable pub handle_channel_event : Event → M N (Unit {0})
  unfolding handle_server_status_update handle_group_stream_changed
  handle_channel_event (on_update (some status)) = handle_server_status_update status
  handle_channel_event (on_stream_changed (some changed)) = handle_group_stream_changed changed
  handle_channel_event (on_update none) = with_result (err tt)
  handle_channel_event (on_stream_changed none) = with_result (err tt)
  handle_channel_event other_method = with_result (ok tt)
  handle_channel_event no_request = with_result (err tt)

  unfoldable pub client_command : SnapcastClientCommand → M N (Unit {0})
  unfolding snapcast_request
  client_command c =
      let send_volume : Volume → M N (Unit {0}) =
        λ v. ignoring (snapcast_request server to_value (set_volume c.client_id v)) in
      if c.action == reset
      then send_volume (record { muted = true; percent = pos 0 })
      else if c.action == set
      then send_volume (record { muted = false; percent = c.value })
      else with_result (ok tt)

  -- Setting the stream of a group, if one is given.
  unfoldable pub stream_command : SnapcastGroupCommand → M N (Unit {0})
  unfolding snapcast_request handle_group_stream_changed
  stream_command c =
      let setting : M N (Unit {0}) = (do
        r ← snapcast_request server to_value (set_stream c.group_id c.stream)
        changed ← decoded (server.stream_of r)
        handle_group_stream_changed (record changed { id = c.group_id })) in
      if c.stream == "" then with_result (ok tt) else setting

  unfoldable pub clients_command : SnapcastGroupCommand → M N (Unit {0})
  unfolding snapcast_request
  clients_command c =
      if is_empty_list c.clients
      then with_result (ok tt)
      else ignoring (snapcast_request server to_value (set_clients c.group_id c.clients))

  unfoldable pub group_command : SnapcastGroupCommand → M N (Unit {0})
  unfolding stream_command clients_command snapcast_request handle_server_status_update
  group_command c =
      let setting : M N (Unit {0}) = (do stream_command c; clients_command c) in
      let getting : M N (Unit {0}) = (do
        r ← snapcast_request server to_value get_status
        status ← decoded (server.status_of r)
        handle_server_status_update status) in
      if c.action == set then setting else if c.action == get then getting else with_result (ok tt)

  module _ ⦃ops : Numbers N⦄ (to_int : N → Option ℤ) where
    abbrev run_client : Option SnapcastClientCommand → M N (Unit {0})
    run_client none = with_result (err tt)
    run_client (some c) = client_command c

    abbrev run_group : Option SnapcastGroupCommand → M N (Unit {0})
    run_group none = with_result (err tt)
    run_group (some c) = group_command c

    -- `HandleMessage`; a message without a command is a panic.
    unfoldable pub handle_message : Message N → M N (Unit {0})
    unfolding client_command group_command decode_client_command decode_group_command
    handle_message m = elim m.command [
      | none ↦ with_result panic
      | some c ↦
          if c.kind == snapcast_client_command_type
          then run_client (decode_client_command to_int c.content)
          else if c.kind == snapcast_group_command_type
          then run_group (decode_group_command to_int c.content)
          else with_result (ok tt)
    ]
