-- ===== src/Heartbeat.antt =====
-- handlers/heartbeat/heartbeat.go. The counter is a uint32.
use chik.Prelude.{
  List, [], arith, if◌then◌else◌, leb, nat_eq, none, refl, some, string_eq, suc, zero, ℕ, ◌%◌, ◌++◌,
  ◌+◌, ◌<◌, ◌==◌, ◌^◌, ◌∷◌, ◌≡◌,
}
use chik.Controller.{Publication, Step, crashed, done, publish}
use chik.Json.{null}
use chik.Messaging.{Message, Uuid, new_message, nil_uuid}
use chik.Types.Command.{
  Command, any_outgoing_command_type, heartbeat_type, new_command, remote_stop_command_type,
  topic_of,
}

abbrev pub max_errors : ℕ
max_errors = 300

pub record Heartbeat : Type 0 where
  pub errors : ℕ
  pub remote_id : Uuid

unfoldable pub new_heartbeat : Heartbeat
new_heartbeat = record { errors = 0; remote_id = nil_uuid }

module _ {N : Type 0} where
  -- The peer is the sender of the first message.
  unfoldable pub handle_message : Heartbeat → Message N → Step N Heartbeat
  handle_message h m =
      let known : Heartbeat =
        if h.remote_id == nil_uuid then record h { remote_id = m.sender } else h in
      elim m.command [
        | none ↦ record { state = known; sent = []; exit = crashed }
        | some c ↦ record {
          state = (if c.kind == heartbeat_type then record known { errors = 0 } else known);
          sent = [];
          exit = done;
        }
      ]

  abbrev pub beat : Uuid → Publication N
  beat to = record {
    message = new_message to (new_command heartbeat_type null);
    topics = topic_of any_outgoing_command_type ∷ [];
  }

  abbrev pub stop : Uuid → Publication N
  stop to = publish (new_command remote_stop_command_type null) to

  -- Each tick sends a heartbeat and counts one error, until an answer clears the count.
  unfoldable pub handle_timer : Heartbeat → Step N Heartbeat
  handle_timer h =
      let errors = (h.errors + 1) % 2 ^ 32 in
      record {
        state = record h { errors = errors };
        sent = beat h.remote_id ∷ (if leb max_errors errors then stop h.remote_id ∷ [] else []);
        exit = done;
      }

  -- Ticks with no message between them: the state, and all that was sent.
  unfoldable pub ticks : ℕ → Heartbeat → Heartbeat × List (Publication N)
  ticks zero h = (h, [])
  ticks (suc n) h =
      let st = handle_timer h in let (h', sent) = ticks n st.state in (h', st.sent ++ sent)

errors-ticks :
    (N : Type 0) (n : ℕ) (h : Heartbeat)
    → h.errors + n < 2 ^ 32
    → ((ticks {N = N} n h).0.errors ≡ h.errors + n)
      × ((ticks {N = N} n h).0.remote_id ≡ h.remote_id)
unfolding ticks handle_timer
errors-ticks N zero h low = (omega arith, refl)
errors-ticks N (suc n) h low =
    let ih = errors-ticks N n (handle_timer {N = N} h).state (unfold handle_timer in omega arith) in
    (omega (arith, ih.0), ih.1)

module _ {N : Type 0} where
  -- After a heartbeat of the peer, the tick that follows n silent ones sends a heartbeat to the peer,
  -- and tells the connection to stop exactly from the three hundredth tick on, as long as the count
  -- fits a uint32.
  pub stop_after_silence :
      (n : ℕ) (h : Heartbeat) (m : Message N) {c : Command N}
      → m.command ≡ some c
      → c.kind ≡ heartbeat_type
      → n + 1 < 2 ^ 32
      → (handle_timer {N = N} (ticks {N = N} n (handle_message h m).state).0).sent
        ≡ beat (if h.remote_id == nil_uuid then m.sender else h.remote_id)
          ∷ (if leb max_errors (n + 1)
              then stop (if h.remote_id == nil_uuid then m.sender else h.remote_id) ∷ []
              else [])
  unfolding handle_timer
  stop_after_silence n h m carried beats low =
      let reset : ((handle_message h m).state.errors ≡ 0)
          × ((handle_message h m).state.remote_id
              ≡ (if h.remote_id == nil_uuid then m.sender else h.remote_id)) =
        unfold handle_message in ground arith in
      let counted = errors-ticks N n (handle_message h m).state (omega (arith, reset.0)) in
      ground (arith, counted, reset)
