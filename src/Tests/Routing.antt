-- ===== src/Tests/Routing.antt =====
-- Tests of controller.go and the router.
use chik.Prelude.{[], if◌then◌else◌, leb, refl, true, ℕ, ◌+◌, ◌∷◌, ◌≡◌}
use chik.Controller.{
  Call, Handler, Input, Step, done, failed, first_call, message, on_message, on_timer, run_handler,
  serve, tick, topics_as_strings,
}
use chik.Prelude.Int.{pos}
use chik.Tests.Samples.{message_of, nat_numbers}
use chik.Types.Command.{heartbeat_type, status_command_type, topic_of}

topics_as_strings_test :
    topics_as_strings (heartbeat_type ∷ status_command_type ∷ [])
    ≡ "" ∷ "" ∷ "HeartbeatType" ∷ "StatusCommandType" ∷ []
unfolding topics_as_strings topic_of
topics_as_strings_test = refl

-- A handler that counts messages, and fails on the third.
abbrev quiet : ℕ → Step ℕ ℕ
quiet n = record { state = n; sent = []; exit = done }

abbrev counter : Handler ℕ ℕ ℕ
counter = record {
  topics = heartbeat_type ∷ [];
  trigger_at_start = true;
  setup = λ n. quiet n;
  handle_message =
      λ n m. record { state = n + 1; sent = []; exit = (if leb 2 n then failed else done) };
  handle_timer = λ n t. quiet n;
  handle_event = λ n e. quiet n;
  teardown = λ n. 0;
}

abbrev hi : Input ℕ ℕ
hi = message (message_of 1 2 0)

run_handler_test :
    (run_handler counter (pos 5) 0 (hi ∷ tick (pos 6) ∷ hi ∷ hi ∷ hi ∷ [])).calls
    ≡ Call.setup
      ∷ on_timer (pos 5)
      ∷ on_message (message_of 1 2 0)
      ∷ on_timer (pos 6)
      ∷ on_message (message_of 1 2 0)
      ∷ on_message (message_of 1 2 0)
      ∷ Call.teardown
      ∷ []
unfolding run_handler first_call serve
run_handler_test = refl
