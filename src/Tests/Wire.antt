-- ===== src/Tests/Wire.antt =====
-- Tests of types/, messaging.go and remote.go.
use chik.Prelude.{
  List, [], arith, false, length, none, refl, replicate, some, true, ℕ, ◌++◌, ◌<◌, ◌^◌, ◌∷◌, ◌≡◌,
  ◌≢◌,
}
use chik.Json.{end, field, null, num, obj, str}
use chik.Json.Struct.{names_field}
use chik.Messaging.{Message, bad_json, bytes, eof, parse_message, read, read_command, too_short}
use chik.Messaging.Bytes.{be_bytes, of_be}
use chik.Messaging.Framing.{HasUuids, parse_message-bytes}
use chik.Prelude.Int.{negsuc, pos, ◌-ℤ◌}
use chik.Prelude.Outcome.{err, ok}
use chik.Remote.{ReceiveEnd, SendEnd, receive, send, stamp, stop_received, write_failed}
use chik.Remote.Delivery.{IsSendable, arrivals, queue_of, receive-send}
use chik.Remote.Receiving.{receive-ends, receive_header_only}
use chik.Tests.Samples.{kind_codec, message_of, nat_numbers}
use chik.Types.Command.{
  AnalogCommand, DigitalCommand, heartbeat_type, relative, remote_stop_command_type, set, toggle,
  topic_of,
}
use chik.Types.Command.Decoding.{decode_digital}
use chik.Types.Time.{compare_time}

topic_of_tests :
    (topic_of heartbeat_type ≡ "HeartbeatType")
    × (topic_of remote_stop_command_type ≡ "RemoteStopCommandType")
    × (topic_of 21 ≡ "CommandType(21)")
    × (topic_of 255 ≡ "CommandType(255)")
unfolding topic_of
topic_of_tests = (refl, refl, refl, refl)

abbrev switch_on : DigitalCommand
switch_on = record { action = set; appliance_id = "lamp" }

abbrev dim_by : AnalogCommand ℕ
dim_by = record { appliance_id = "lamp"; value = 3; value_type = relative }

-- A key in capitals is taken, an unknown one skipped, and a text for a number refused.
decode_digital_tests :
    (decode_digital {N = ℕ}
        (some (obj (field "ACTION" (num 2) (field "x" null (field "applianceid" (str "a") end)))))
      ≡ some (record { action = toggle; appliance_id = "a" }))
    × (decode_digital {N = ℕ} (some (obj (field "action" (str "2") end))) ≡ none)
    × (decode_digital {N = ℕ} none ≡ none)
unfolding decode_digital names_field
decode_digital_tests = (refl, refl, refl)

compare_time_tests :
    (compare_time (pos 100) (pos 91) ≡ pos 0)
    × (compare_time (pos 100) (pos 90) ≡ pos 1)
    × (compare_time (pos 90) (pos 100) ≡ negsuc 0)
unfolding compare_time ◌-ℤ◌
compare_time_tests = (refl, refl, refl)

abbrev hello : Message ℕ
hello = record {
  sender = 258;
  receiver = 7;
  command = some (record { kind = 0; content = some (num 5) });
}

abbrev hello_wire : List ℕ
hello_wire = be_bytes 4 35 ++ (be_bytes 16 258 ++ (be_bytes 16 7 ++ 0 ∷ 2 ∷ 5 ∷ []))

hello_uuids : HasUuids hello
hello_uuids = record { sender = omega arith; receiver = omega arith }

hello-bytes : bytes kind_codec hello ≡ some hello_wire
unfolding bytes
hello-bytes = refl

hello_fits : length hello_wire < 2 ^ 32
unfolding be_bytes
hello_fits = omega arith

parse_message-bytes_example :
    parse_message kind_codec (hello_wire ++ 1 ∷ 2 ∷ []) ≡ ok (hello, 1 ∷ 2 ∷ [])
parse_message-bytes_example =
    parse_message-bytes kind_codec hello hello_wire (1 ∷ 2 ∷ []) hello_uuids hello_fits hello-bytes

parse_message_tests :
    (parse_message kind_codec (0 ∷ 0 ∷ []) ≡ err eof)
    × (parse_message kind_codec (be_bytes 4 31) ≡ err (too_short 31))
    × (parse_message kind_codec (be_bytes 4 36 ++ replicate 36 9) ≡ err bad_json)
unfolding parse_message read of_be be_bytes read_command
parse_message_tests = (refl, refl, refl)

abbrev unsigned : Message ℕ
unsigned = record hello { sender = 0 }

-- Without a sender: it is stamped with 258 on its way out.
unsigned-IsSendable : IsSendable kind_codec 258 unsigned
unfolding stamp bytes be_bytes
unsigned-IsSendable = record {
  command = record { kind = 0; content = some (num 5) };
  carried = refl;
  not_stop = omega arith;
  uuids = record { sender = omega arith; receiver = omega arith };
  wire = hello_wire;
  is_wire = refl;
  fits = omega arith;
}

receive-send_example :
    receive kind_codec 1 (send kind_codec 258 (queue_of kind_codec 258 (unsigned ∷ []))).written
    ≡ record { published = arrivals kind_codec 258 (unsigned ∷ []); ending = ReceiveEnd.cancelled }
receive-send_example = receive-send kind_codec 258 (unsigned ∷ []) (unsigned-IsSendable, tt)

receive-ends_example : (receive kind_codec 3 (0 ∷ 0 ∷ [])).ending ≢ ReceiveEnd.cancelled
receive-ends_example = receive-ends kind_codec 3 (0 ∷ 0 ∷ []) (omega arith)

receive_header_only_example :
    receive kind_codec 5 (be_bytes 4 32 ++ (be_bytes 16 1 ++ (be_bytes 16 2 ++ [])))
    ≡ record { published = []; ending = ReceiveEnd.panicked }
receive_header_only_example = receive_header_only kind_codec 4 1 2 []

send_tests :
    ((send kind_codec 9 ((none, true) ∷ (some (message_of 0 7 19), true) ∷ [])).ending
      ≡ stop_received)
    × ((send kind_codec 9 ((some (message_of 0 7 0), false) ∷ [])).ending ≡ write_failed)
    × ((send kind_codec 9
          ((some (record { sender = 0; receiver = 1; command = none }), true) ∷ [])).ending
        ≡ SendEnd.panicked)
unfolding send
send_tests = (refl, refl, refl)
