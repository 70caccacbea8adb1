-- ===== src/Remote/Delivery.antt =====
-- What one device sends, the device at the other end publishes.
use chik.Prelude.{
  All, Bool, List, Option, [], ap, arith, false, length, nat_eq, none, refl, some, string_eq, suc,
  true, ℕ, ◌++◌, ◌<◌, ◌==◌, ◌^◌, ◌∙◌, ◌∷◌, ◌≡◌, ◌≢◌,
}
use chik.Controller.{Publication}
use chik.Messaging.{Codec, Message, Uuid, bytes, filled, parse_message, reread}
use chik.Messaging.Framing.{HasUuids, parse_message-bytes, reread_message}
use chik.Prelude.Outcome.{ok}
use chik.Remote.{ReceiveEnd, encoded, incoming, receive, send, stamp}
use chik.Types.Command.{Command, remote_stop_command_type}

module _ {N : Type 0} (codec : Codec N) (id : Uuid) where
  -- A message with a command that is not the stop command and that fits a frame, between identities of
  -- 16 bytes.
  pub record IsSendable (m : Message N) : Type 0 where
    pub command : Command N
    pub carried : m.command ≡ some command
    pub not_stop : command.kind ≢ remote_stop_command_type
    pub uuids : HasUuids (stamp id m)
    pub wire : List ℕ
    pub is_wire : bytes codec (stamp id m) ≡ some wire
    pub fits : length wire < 2 ^ 32

  abbrev pub queue_of : List (Message N) → List (Option (Message N) × Bool)
  queue_of [] = []
  queue_of (m ∷ ms) = (some m, true) ∷ queue_of ms

  -- The publications that the receiver makes of the messages.
  abbrev pub arrivals : List (Message N) → List (Publication N)
  arrivals [] = []
  arrivals (m ∷ ms) = elim m.command [
    | none ↦ arrivals ms
    | some c ↦ incoming (reread_message (stamp id m)) (filled c) ∷ arrivals ms
  ]

  command-stamp : (m : Message N) → (stamp id m).command ≡ m.command
  unfolding stamp
  command-stamp m = ground arith

  encoded_wire : (m : Message N) (s : IsSendable m) → encoded codec (stamp id m) ≡ s.wire
  unfolding encoded
  encoded_wire m s = rw (s.is_wire, encoded)

  send-cons :
      (m : Message N) (ms : List (Message N)) (s : IsSendable m)
      → (send codec id (queue_of (m ∷ ms))).written
        ≡ s.wire ++ (send codec id (queue_of ms)).written
  unfolding send
  send-cons m ms s =
      let apart : (s.command.kind == remote_stop_command_type) ≡ false =
        ground (arith, s.not_stop) in
      rw (s.carried, send) (rw apart (rw (encoded_wire m s)))

  receive_parsed :
      (n : ℕ) (input rest : List ℕ) (m : Message N) {c : Command N}
      → parse_message codec input ≡ ok (m, rest)
      → m.command ≡ some c
      → receive codec (suc n) input ≡ record (receive codec n rest) {
        published = incoming m c ∷ (receive codec n rest).published;
      }
  unfolding receive
  receive_parsed n input rest m parsed carried = rw (parsed, receive) (simp carried)

  receive-cons :
      (n : ℕ) (m : Message N) (rest : List ℕ) (s : IsSendable m)
      → receive codec (suc n) (s.wire ++ rest) ≡ record (receive codec n rest) {
        published =
            incoming (reread_message (stamp id m)) (filled s.command)
            ∷ (receive codec n rest).published;
      }
  receive-cons n m rest s =
      receive_parsed n (s.wire ++ rest) rest (reread_message (stamp id m))
        (parse_message-bytes codec (stamp id m) s.wire rest s.uuids s.fits s.is_wire)
        (ap reread (command-stamp m ∙ s.carried))

  -- Sendable messages, sent over a connection that takes every write, are published at the other end
  -- one by one and in order, each under the incoming topic and that of its command, with the sender
  -- filled in, and null for the data of a command that is nil.
  pub receive-send :
      (ms : List (Message N))
      → All IsSendable ms
      → receive codec (length ms) (send codec id (queue_of ms)).written
        ≡ record { published = arrivals ms; ending = ReceiveEnd.cancelled }
  receive-send [] h = unfold receive in refl
  receive-send (m ∷ ms) (s, h) =
      rw (send-cons m ms s)
        (rw (receive-cons (length ms) m _ s) (rw (receive-send ms h) (simp s.carried)))
