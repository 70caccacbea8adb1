-- ===== src/Messaging.antt =====
-- messaging.go: the messages and their framing on the wire. Identities are the numbers of which a
-- uuid holds the 16 bytes, and `nil_uuid` is the nil uuid. The text of a command is the business of
-- encoding/json, which is the parameter `Codec`.
pub mod Bytes
pub mod Framing
pub mod Progress
use mathlib.Core.Option
use chik.Prelude.Outcome.{◌>>=◌}
use chik.Prelude.{
  List, Option, drop, if◌then◌else◌, length, ltb, none, some, take, ℕ, ◌%◌, ◌++◌, ◌+◌, ◌-◌, ◌<◌,
  ◌^◌, ◌≡◌,
}
use chik.Json.{null}
use chik.Messaging.Bytes.{be_bytes, of_be}
use chik.Prelude.Outcome.{Outcome, err, ok, or_error}
use chik.Types.Command.{Command}

abbrev pub Uuid : Type 0
Uuid = ℕ

abbrev pub nil_uuid : Uuid
nil_uuid = 0

pub record Message (N : Type 0) : Type 0 where
  pub sender : Uuid
  pub receiver : Uuid
  pub command : Option (Command N)

pub data ParseError : Type 0 where
  eof : ParseError
  too_short : ℕ → ParseError
  bad_json : ParseError

-- A command as it is read back: nil data is written as null, and null is read back as the raw message null.
abbrev pub filled : {N : Type 0} → Command N → Command N
filled c = record c { content = elim c.content [ none ↦ some null | some v ↦ some v ] }

abbrev pub reread : {N : Type 0} → Option (Command N) → Option (Command N)
reread none = none
reread (some c) = some (filled c)

-- What json.Marshal and json.Unmarshal do with a `*Command`. Marshalling fails on a raw message
-- that is no JSON. What was marshalled is text, is not empty, and is read back, with null for nil data.
pub record Codec (N : Type 0) : Type 0 where
  pub marshal : Option (Command N) → Option (List ℕ)
  pub unmarshal : List ℕ → Option (Option (Command N))
  pub unmarshal-marshal :
      (c : Option (Command N)) (text : List ℕ)
      → marshal c ≡ some text
      → unmarshal text ≡ some (reread c)
  pub marshal_pos :
      (c : Option (Command N)) (text : List ℕ) → marshal c ≡ some text → 0 < length text

module _ {N : Type 0} where
  unfoldable pub new_message : Uuid → Command N → Message N
  new_message receiver command = record {
    sender = nil_uuid;
    receiver = receiver;
    command = some command;
  }

-- `binary.Read` of a fixed number of bytes.
unfoldable pub read : ℕ → List ℕ → Outcome ParseError (List ℕ × List ℕ)
read n input = if ltb (length input) n then err eof else ok (take n input, drop n input)

module _ {N : Type 0} (codec : Codec N) where
  -- The command behind the header, if there is one.
  unfoldable pub read_command : ℕ → List ℕ → Outcome ParseError (Option (Command N) × List ℕ)
  read_command datalength input =
      if ltb 0 datalength
      then (do
        (text, rest) ← read datalength input
        command ← or_error bad_json (codec.unmarshal text)
        ok (command, rest))
      else ok (none, input)

  -- The message at the head of the input, and what is left of it.
  unfoldable pub parse_message : List ℕ → Outcome ParseError (Message N × List ℕ)
  parse_message input = do
    (size, input₁) ← read 4 input
    if ltb (of_be size) 32 then err (too_short (of_be size)) else do
      (sender, input₂) ← read 16 input₁
      (receiver, input₃) ← read 16 input₂
      (command, rest) ← read_command (of_be size - 32) input₃
      ok (record { sender = of_be sender; receiver = of_be receiver; command = command }, rest)

  -- The header and the text of a command; the length is a uint32.
  abbrev frame : Message N → List ℕ → List ℕ
  frame m text =
      be_bytes 4 ((32 + length text) % 2 ^ 32)
      ++ (be_bytes 16 m.sender ++ (be_bytes 16 m.receiver ++ text))

  -- `none` when the command cannot be marshalled.
  unfoldable pub bytes : Message N → Option (List ℕ)
  bytes m = Option.map (frame m) (codec.marshal m.command)
