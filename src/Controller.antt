-- ===== src/Controller.antt =====
-- controller.go: what a controller publishes, and how it runs a handler.
pub mod Publishing
pub mod Running
pub mod Restarts
pub mod Shutdown
use chik.Prelude.{
  Bool, List, String, [], if◌then◌else◌, length, map, nat_eq, replicate, string_eq, ◌++◌, ◌==◌, ◌∷◌,
}
use chik.Json.{Value}
use chik.Messaging.{Message, Uuid, new_message, nil_uuid}
use chik.Prelude.Int.{int_eq, ℤ}
use chik.Types.Command.{Command, CommandType, any_outgoing_command_type, new_command, topic_of}

-- A call of `PubMessage`: the message, and the topics that it is published on.
pub record Publication (N : Type 0) : Type 0 where
  pub message : Message N
  pub topics : List String

abbrev pub loopback_id : Uuid
loopback_id = nil_uuid

module _ {N : Type 0} where
  -- `Pub`: a command for the loopback stays inside, under its own topic.
  unfoldable pub publish : Command N → Uuid → Publication N
  unfolding new_message
  publish command receiver = record {
    message = new_message receiver command;
    topics =
        (if receiver == loopback_id
          then topic_of command.kind
          else topic_of any_outgoing_command_type)
        ∷ [];
  }

  unfoldable pub reply : Message N → CommandType → Value N → Publication N
  reply request reply_type content = publish (new_command reply_type content) request.sender

-- `topicsAsStrings`: a slice made with its full length and then appended to.
unfoldable pub topics_as_strings : List CommandType → List String
topics_as_strings topics = replicate (length topics) "" ++ map topic_of topics

-- What a handler's method leaves: a new state, publications, and how it ended.
pub data Exit : Type 0 where
  done : Exit
  failed : Exit
  crashed : Exit

pub record Step (N S : Type 0) : Type 0 where
  pub state : S
  pub sent : List (Publication N)
  pub exit : Exit

-- handler.go, `Handler`. The event type is that of the handler's own channel.
pub record Handler (N S Ev : Type 0) : Type 0 where
  pub topics : List CommandType
  pub trigger_at_start : Bool
  pub setup : S → Step N S
  pub handle_message : S → Message N → Step N S
  pub handle_timer : S → ℤ → Step N S
  pub handle_event : S → Ev → Step N S
  pub teardown : S → S

-- What the `select` of `runHandler` may choose.
pub data Input (N Ev : Type 0) : Type 0 where
  cancelled : Input N Ev
  closed : Input N Ev
  message : Message N → Input N Ev
  tick : ℤ → Input N Ev
  event : Ev → Input N Ev

-- The calls that a handler receives, in order.
pub data Call (N Ev : Type 0) : Type 0 where
  setup : Call N Ev
  on_message : Message N → Call N Ev
  on_timer : ℤ → Call N Ev
  on_event : Ev → Call N Ev
  teardown : Call N Ev

-- `waiting`: the inputs ran out first. `ended`: the handler's context is done. `aborted`: a panic.
pub data Phase : Type 0 where
  waiting ended aborted : Phase

pub record Run (N S Ev : Type 0) : Type 0 where
  pub state : S
  pub sent : List (Publication N)
  pub calls : List (Call N Ev)
  pub rest : List (Input N Ev)
  pub phase : Phase

module _ {N S Ev : Type 0} (h : Handler N S Ev) where
  -- The deferred function: the handler is torn down and its context cancelled.
  abbrev tear_down : S → List (Input N Ev) → Run N S Ev
  tear_down s rest = record {
    state = h.teardown s;
    sent = [];
    calls = teardown ∷ [];
    rest = rest;
    phase = ended;
  }

  abbrev stop_at : S → List (Input N Ev) → Run N S Ev
  stop_at s rest = record { state = s; sent = []; calls = []; rest = rest; phase = aborted }

  -- One call in front of what follows it; an error leaves the loop, a panic ends the process.
  abbrev after : Call N Ev → Step N S → List (Input N Ev) → Run N S Ev → Run N S Ev
  after c s rest more =
      let run : Run N S Ev = elim s.exit [
        | done ↦ more
        | failed ↦ tear_down s.state rest
        | crashed ↦ stop_at s.state rest
      ] in
      record run { sent = s.sent ++ run.sent; calls = c ∷ run.calls }

  -- The `for` loop around the `select`.
  unfoldable pub serve : S → List (Input N Ev) → Run N S Ev
  serve s [] = record { state = s; sent = []; calls = []; rest = []; phase = waiting }
  serve s (cancelled ∷ rest) = tear_down s rest
  serve s (closed ∷ rest) = tear_down s rest
  serve s (message m ∷ rest) =
      let st = h.handle_message s m in after (on_message m) st rest (serve st.state rest)
  serve s (tick t ∷ rest) =
      let st = h.handle_timer s t in after (on_timer t) st rest (serve st.state rest)
  serve s (event e ∷ rest) =
      let st = h.handle_event s e in after (on_event e) st rest (serve st.state rest)

  -- The first timer call, if the handler wants one, and the loop; `now` is the time of the start.
  unfoldable pub first_call : ℤ → S → List (Input N Ev) → Run N S Ev
  unfolding serve
  first_call now s inputs =
      if h.trigger_at_start
      then (let st = h.handle_timer s now in after (on_timer now) st inputs (serve st.state inputs))
      else serve s inputs

  -- `runHandler`: a failed setup is not torn down.
  unfoldable pub run_handler : ℤ → S → List (Input N Ev) → Run N S Ev
  unfolding first_call
  run_handler now s inputs =
      let st = h.setup s in
      elim st.exit [
        | done ↦
            let run = first_call now st.state inputs in
            record run { sent = st.sent ++ run.sent; calls = setup ∷ run.calls }
        | failed ↦ record {
          state = st.state;
          sent = st.sent;
          calls = setup ∷ [];
          rest = inputs;
          phase = ended;
        }
        | crashed ↦ record {
          state = st.state;
          sent = st.sent;
          calls = setup ∷ [];
          rest = inputs;
          phase = aborted;
        }
      ]

  -- `executeHandler`: the handler is run again, with the state that it has, whenever its context is
  -- done while the outer one is not. `starts` are the times of its starts; when they are used up the
  -- outer context is done.
  unfoldable pub execute_handler : List ℤ → S → List (Input N Ev) → Run N S Ev
  execute_handler [] s inputs = record {
    state = s;
    sent = [];
    calls = [];
    rest = inputs;
    phase = ended;
  }
  execute_handler (now ∷ starts) s inputs =
      let run = run_handler now s inputs in
      let again = execute_handler starts run.state run.rest in
      elim run.phase [
        | waiting ↦ run
        | aborted ↦ run
        | ended ↦ record again { sent = run.sent ++ again.sent; calls = run.calls ++ again.calls }
      ]
