-- ===== src/Remote.antt =====
-- remote.go: the two loops of a connection. The queue of the sender is the sequence of what it takes
-- from its subscription, each with the answer that the connection gives to the write it causes; the
-- input of the receiver is all that the peer sends before it closes.
pub mod Delivery
pub mod Receiving
use chik.Prelude.{
  Bool, List, Option, [], if◌then◌else◌, nat_eq, none, some, string_eq, suc, zero, ℕ, ◌++◌, ◌==◌,
  ◌∷◌,
}
use chik.Controller.{Publication}
use chik.Messaging.{Codec, Message, ParseError, Uuid, bytes, nil_uuid, parse_message}
use chik.Prelude.Outcome.{err, ok, panic}
use chik.Types.Command.{Command, any_incoming_command_type, remote_stop_command_type, topic_of}

pub data SendEnd : Type 0 where
  cancelled stop_received write_failed panicked : SendEnd

pub record Sent : Type 0 where
  pub written : List ℕ
  pub ending : SendEnd

pub data ReceiveEnd : Type 0 where
  cancelled panicked : ReceiveEnd
  invalid : ParseError → ReceiveEnd

pub record Received (N : Type 0) : Type 0 where
  pub published : List (Publication N)
  pub ending : ReceiveEnd

module _ {N : Type 0} where
  -- A message of this device gets its sender when it leaves.
  unfoldable pub stamp : Uuid → Message N → Message N
  stamp id m = if m.sender == nil_uuid then record m { sender = id } else m

  -- What the receiver publishes for a message that carries a command.
  unfoldable pub incoming : Message N → Command N → Publication N
  incoming m c = record {
    message = m;
    topics = topic_of any_incoming_command_type ∷ topic_of c.kind ∷ [];
  }

module _ {N : Type 0} (codec : Codec N) where
  -- A message that cannot be encoded is logged, and no bytes are written for it.
  unfoldable pub encoded : Message N → List ℕ
  encoded m = elim (bytes codec m) [ none ↦ [] | some wire ↦ wire ]

  -- `Remote.send`; what is not a message is skipped, and a message without a command is dereferenced.
  unfoldable pub send : Uuid → List (Option (Message N) × Bool) → Sent
  send id [] = record { written = []; ending = SendEnd.cancelled }
  send id ((none, accepted) ∷ queue) = send id queue
  send id ((some m, accepted) ∷ queue) =
      let more = send id queue in
      elim m.command [
        | none ↦ record { written = []; ending = SendEnd.panicked }
        | some c ↦
            if c.kind == remote_stop_command_type
            then record { written = []; ending = stop_received }
            else if accepted
            then record more { written = encoded (stamp id m) ++ more.written }
            else record { written = []; ending = write_failed }
      ]

  -- `Remote.receive`, cancelled before the given round.
  unfoldable pub receive : ℕ → List ℕ → Received N
  receive zero input = record { published = []; ending = ReceiveEnd.cancelled }
  receive (suc rounds) input = elim (parse_message codec input) [
    | err e ↦ record { published = []; ending = invalid e }
    | panic ↦ record { published = []; ending = ReceiveEnd.panicked }
    | ok (m, rest) ↦ elim m.command [
      | none ↦ record { published = []; ending = ReceiveEnd.panicked }
      | some c ↦
          let more = receive rounds rest in
          record more { published = incoming m c ∷ more.published }
    ]
  ]
