-- ===== src/Messaging/Framing.antt =====
-- The framing of messages: what `bytes` writes, `parse_message` reads back.
use mathlib.Core.Option
use mathlib.Core.List.{append_assoc}
use chik.Prelude.{
  List, Option, arith, drop-append, false, length, length-append, ltb, lt→ltb, none, refl, some,
  take-append, ℕ, ◌%◌, ◌++◌, ◌+◌, ◌-◌, ◌<◌, ◌^◌, ◌≡◌,
}
use chik.Messaging.{Codec, Message, bytes, eof, frame, parse_message, read, read_command, reread}
use chik.Messaging.Bytes.{be_bytes, length-be_bytes, of_be, of_be-be_bytes}
use chik.Prelude.Outcome.{err, ok}
use chik.Types.Command.{Command}

abbrev pub uuid_bound : ℕ
uuid_bound = 256 ^ 16

-- Both identities have 16 bytes.
pub record HasUuids {N : Type 0} (m : Message N) : Type 0 where
  pub sender : m.sender < uuid_bound
  pub receiver : m.receiver < uuid_bound

pub read-append : (n : ℕ) (xs rest : List ℕ) → length xs ≡ n → read n (xs ++ rest) ≡ ok (xs, rest)
unfolding read
read-append n xs rest e =
    rw (← e) (rw (take-append xs rest, drop-append xs rest) (ground (arith, length-append xs rest)))

pub read_short : (n : ℕ) (input : List ℕ) → length input < n → read n input ≡ err eof
unfolding read
read_short n input h = rw (lt→ltb _ _ h)

-- A message as it is read back: with null where its command had nil data.
abbrev pub reread_message : {N : Type 0} → Message N → Message N
reread_message m = record m { command = reread m.command }

module _ {N : Type 0} (codec : Codec N) where
  read_command-append :
      (c : Option (Command N)) (text rest : List ℕ)
      → codec.marshal c ≡ some text
      → read_command codec (length text) (text ++ rest) ≡ ok (reread c, rest)
  unfolding read_command
  read_command-append c text rest e =
      rw
        (
          lt→ltb _ _ (codec.marshal_pos c text e),
          read-append (length text) text rest refl,
          codec.unmarshal-marshal c text e,
        )
        refl

  length-frame : (m : Message N) (text : List ℕ) → length (frame codec m text) ≡ length text + 36
  length-frame m text = simp (length-append, length-be_bytes) (omega arith)

  parse_message-frame :
      (m : Message N) (text rest : List ℕ)
      → HasUuids m
      → length text + 32 < 2 ^ 32
      → codec.marshal m.command ≡ some text
      → parse_message codec (frame codec m text ++ rest) ≡ ok (reread_message m, rest)
  unfolding parse_message
  parse_message-frame m text rest ids fits e =
      let size = be_bytes 4 ((32 + length text) % 2 ^ 32) in
      let from = be_bytes 16 m.sender in
      let to = be_bytes 16 m.receiver in
      let is_size : of_be size ≡ 32 + length text =
        omega (arith, of_be-be_bytes 4 ((32 + length text) % 2 ^ 32) (omega arith)) in
      let known : 32 + length text - 32 ≡ length text = omega arith in
      let long : ltb (32 + length text) 32 ≡ false = ground arith in
      simp (
        append_assoc,
        read-append 4 size (from ++ (to ++ (text ++ rest))) (length-be_bytes 4 _),
        read-append 16 from (to ++ (text ++ rest)) (length-be_bytes 16 _),
        read-append 16 to (text ++ rest) (length-be_bytes 16 _),
        is_size,
        long,
        known,
        read_command-append m.command text rest e,
        of_be-be_bytes 16 m.sender ids.sender,
        of_be-be_bytes 16 m.receiver ids.receiver,
      )

  -- What is written for a message whose identities have 16 bytes is read back as that message, with
  -- null for a command's data that is nil, and what follows it on the wire is left, if the frame is shorter than
  -- a uint32 can tell.
  pub parse_message-bytes :
      (m : Message N) (wire rest : List ℕ)
      → HasUuids m
      → length wire < 2 ^ 32
      → bytes codec m ≡ some wire
      → parse_message codec (wire ++ rest) ≡ ok (reread_message m, rest)
  unfolding bytes
  parse_message-bytes m wire rest ids fits e =
      let (text, written, same) = (Option.map-eq-some_iff _ _).0 e in
      rw (← same) (
        parse_message-frame m text rest ids
          (let long : length (frame codec m text) < 2 ^ 32 = rw same fits in
            omega (arith, length-frame m text))
          written)

  -- A frame of 32 bytes has no command.
  pub header_only :
      (sender receiver : ℕ) (rest : List ℕ)
      → parse_message codec
          (be_bytes 4 32 ++ (be_bytes 16 sender ++ (be_bytes 16 receiver ++ rest)))
        ≡ ok (
          record {
            sender = of_be (be_bytes 16 sender);
            receiver = of_be (be_bytes 16 receiver);
            command = none;
          },
          rest,
        )
  unfolding parse_message
  header_only sender receiver rest =
      simp
        (
          read-append 4 (be_bytes 4 32) _ (length-be_bytes 4 _),
          of_be-be_bytes 4 32 (omega arith),
          read-append 16 (be_bytes 16 sender) (be_bytes 16 receiver ++ rest) (length-be_bytes 16 _),
          read-append 16 (be_bytes 16 receiver) rest (length-be_bytes 16 _),
        )
        (unfold read_command in refl)
