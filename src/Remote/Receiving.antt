-- ===== src/Remote/Receiving.antt =====
-- How the receiver ends.
use chik.Prelude.{
  List, Option-cases, [], arith, inl, inr, length, refl, suc, zero, ℕ, ◌*◌, ◌++◌, ◌<◌, ◌≡◌, ◌≢◌,
}
use chik.Messaging.{Codec, Message, ParseError, parse_message}
use chik.Messaging.Bytes.{be_bytes}
use chik.Messaging.Framing.{header_only}
use chik.Messaging.Progress.{parse_message-progress}
use chik.Prelude.Outcome.{Outcome, err, ok, panic}
use chik.Remote.{ReceiveEnd, receive}

module _ {N : Type 0} (codec : Codec N) where
  -- On a finite input the receiver stops by itself: if it is given more rounds than the input has
  -- headers of 36 bytes, it is not still waiting to be cancelled.
  pub receive-ends :
      (rounds : ℕ) (input : List ℕ)
      → length input < 36 * rounds
      → (receive codec rounds input).ending ≢ ReceiveEnd.cancelled
  unfolding receive
  receive-ends zero input h = absurd (omega arith)
  receive-ends (suc n) input h = go (parse_message codec input) refl (receive-ends n)
    where
      go :
          (r : Outcome ParseError (Message N × List ℕ))
          → parse_message codec input ≡ r
          → ((rest : List ℕ)
              → length rest < 36 * n
              → (receive codec n rest).ending ≢ ReceiveEnd.cancelled)
          → (receive codec (suc n) input).ending ≢ ReceiveEnd.cancelled
      go (err e) p ih = rw (p, receive) (λ q. cc)
      go panic p ih = rw (p, receive) (λ q. cc)
      go (ok (m, rest)) p ih =
          let shorter : length rest < 36 * n =
            omega (arith, parse_message-progress codec input m rest p) in
          elim (Option-cases m.command) [
            | inl bare ↦ rw (p, receive) (rw bare (λ q. cc))
            | inr (c, carried) ↦ rw (p, receive) (rw carried (ih rest shorter))
          ]

  -- A frame that holds nothing but its header, which any peer can send, makes the receiver dereference
  -- a missing command: whatever the identities and whatever follows, the process panics.
  pub receive_header_only :
      (rounds sender receiver : ℕ) (rest : List ℕ)
      → receive codec
          (suc rounds)
          (be_bytes 4 32 ++ (be_bytes 16 sender ++ (be_bytes 16 receiver ++ rest)))
        ≡ record { published = []; ending = ReceiveEnd.panicked }
  unfolding receive
  receive_header_only rounds sender receiver rest =
      rw (header_only codec sender receiver rest, receive)
