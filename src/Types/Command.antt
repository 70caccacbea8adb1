-- ===== src/Types/Command.antt =====
-- types/commands.go and the generated types/commandtype_string.go.
pub mod Names
pub mod Decoding
use Prim.Native.String.{◌++◌}
use Prim.Native.String.{slice}
use chik.Prelude.{
  List, Option, String, [], get_elem?, if◌then◌else◌, leb, length, ltb, none, some, suc, ℕ, ◌%◌,
  ◌-◌, ◌/◌, ◌∷◌,
}
use chik.Json.{Value}

-- A uint8 on the wire.
abbrev pub CommandType : Type 0
CommandType = ℕ

abbrev pub heartbeat_type : CommandType
heartbeat_type = 0

abbrev pub digital_command_type : CommandType
digital_command_type = 1

abbrev pub analog_command_type : CommandType
analog_command_type = 2

abbrev pub status_command_type : CommandType
status_command_type = 3

abbrev pub status_notification_command_type : CommandType
status_notification_command_type = 4

abbrev pub version_request_command_type : CommandType
version_request_command_type = 5

abbrev pub version_reply_command_type : CommandType
version_reply_command_type = 6

abbrev pub action_request_command_type : CommandType
action_request_command_type = 7

abbrev pub action_reply_command_type : CommandType
action_reply_command_type = 8

abbrev pub status_update_command_type : CommandType
status_update_command_type = 9

abbrev pub null_command_type : CommandType
null_command_type = 10

abbrev pub telegram_notification_command_type : CommandType
telegram_notification_command_type = 11

abbrev pub systemd_request_command_type : CommandType
systemd_request_command_type = 12

abbrev pub systemd_reply_command_type : CommandType
systemd_reply_command_type = 13

abbrev pub snapcast_manager_command_type : CommandType
snapcast_manager_command_type = 14

abbrev pub snapcast_client_command_type : CommandType
snapcast_client_command_type = 15

abbrev pub snapcast_group_command_type : CommandType
snapcast_group_command_type = 16

abbrev pub any_incoming_command_type : CommandType
any_incoming_command_type = 17

abbrev pub any_outgoing_command_type : CommandType
any_outgoing_command_type = 18

abbrev pub remote_stop_command_type : CommandType
remote_stop_command_type = 19

abbrev pub message_bound : CommandType
message_bound = 20

-- The generated table: all names in one text, and where each begins.
abbrev pub command_type_name : String
command_type_name =
    "HeartbeatTypeDigitalCommandTypeAnalogCommandTypeStatusCommandTypeStatusNotificationCommandTypeVersionRequestCommandTypeVersionReplyCommandTypeActionRequestCommandTypeActionReplyCommandTypeStatusUpdateCommandTypeNullCommandTypeTelegramNotificationCommandTypeSystemdRequestCommandTypeSystemdReplyCommandTypeSnapcastManagerCommandTypeSnapcastClientCommandTypeSnapcastGroupCommandTypeAnyIncomingCommandTypeAnyOutgoingCommandTypeRemoteStopCommandTypemessageBound"

abbrev pub command_type_index : List ℕ
command_type_index =
    0 ∷ 13 ∷ 31 ∷ 48 ∷ 65 ∷ 94 ∷ 119 ∷ 142 ∷ 166 ∷ 188 ∷ 211 ∷ 226 ∷ 257 ∷ 282 ∷ 305 ∷ 331 ∷ 356
    ∷ 380 ∷ 402 ∷ 424 ∷ 445 ∷ 457 ∷ []

digit_names : List String
digit_names = "0" ∷ "1" ∷ "2" ∷ "3" ∷ "4" ∷ "5" ∷ "6" ∷ "7" ∷ "8" ∷ "9" ∷ []

string_at : List String → ℕ → String
string_at texts i = elim (get_elem? texts i) [ none ↦ "" | some s ↦ s ]

-- strconv.FormatInt of a number below 1000.
unfoldable pub format_uint8 : ℕ → String
unfolding digit_names string_at
format_uint8 n =
    if ltb n 10
    then string_at digit_names n
    else if ltb n 100
    then string_at digit_names (n / 10) ++ string_at digit_names (n % 10)
    else string_at digit_names (n / 100)
      ++ (string_at digit_names (n / 10 % 10) ++ string_at digit_names (n % 10))

number_at : List ℕ → ℕ → ℕ
number_at numbers i = elim (get_elem? numbers i) [ none ↦ 0 | some n ↦ n ]

-- `CommandType.String`, which names the topic of a command.
unfoldable pub topic_of : CommandType → String
unfolding number_at format_uint8
topic_of t =
    if leb (length command_type_index - 1) t
    then "CommandType(" ++ (format_uint8 t ++ ")")
    else slice command_type_name (number_at command_type_index t)
        (number_at command_type_index (suc t))

-- A uint16 on the wire.
abbrev pub Action : Type 0
Action = ℕ

abbrev pub set : Action
set = 0

abbrev pub reset : Action
reset = 1

abbrev pub toggle : Action
toggle = 2

abbrev pub push : Action
push = 3

abbrev pub get : Action
get = 4

abbrev pub AnalogValueType : Type 0
AnalogValueType = ℕ

abbrev pub absolute : AnalogValueType
absolute = 0

abbrev pub relative : AnalogValueType
relative = 1

-- `content` is the field `Data`: absent, or a raw JSON value.
pub record Command (N : Type 0) : Type 0 where
  pub kind : CommandType
  pub content : Option (Value N)

module _ {N : Type 0} where
  -- `NewCommand` of a content that can be marshalled.
  abbrev pub new_command : CommandType → Value N → Command N
  new_command t body = record { kind = t; content = some body }

pub record SimpleCommand : Type 0 where
  pub action : Action

pub record DigitalCommand : Type 0 where
  pub action : Action
  pub appliance_id : String

pub record AnalogCommand (N : Type 0) : Type 0 where
  pub appliance_id : String
  pub value : N
  pub value_type : AnalogValueType
