-- ===== src/Controller/Running.antt =====
-- The order in which a handler's methods are called.
use chik.Prelude.{Bool-cases, List, [], inl, inr, refl, ◌∷◌, ◌≡◌}
use chik.Controller.{
  Call, Exit, Handler, Input, Phase, Run, Step, aborted, after, cancelled, closed, crashed, done,
  ended, event, failed, first_call, message, on_event, on_message, on_timer, run_handler, serve,
  setup, teardown, tick, waiting,
}
use chik.Prelude.Int.{ℤ}

abbrev pub IsWork : {N Ev : Type 0} → Call N Ev → Type 0
IsWork (on_message m) = Unit
IsWork (on_timer t) = Unit
IsWork (on_event e) = Unit
IsWork setup = ⊥
IsWork teardown = ⊥

-- The calls of the loop: work, and one teardown when the loop is left.
pub data Serving (N Ev : Type 0) : Phase → List (Call N Ev) → Type 0 where
  wait : Serving N Ev waiting []
  abort : Serving N Ev aborted []
  leave : Serving N Ev ended (teardown ∷ [])
  work :
      {p : Phase} {cs : List (Call N Ev)} (c : Call N Ev)
      → IsWork c
      → Serving N Ev p cs
      → Serving N Ev p (c ∷ cs)

-- The calls of one run: a setup alone if it fails, or a setup and the calls of the loop.
pub data Lifetime (N Ev : Type 0) : Phase → List (Call N Ev) → Type 0 where
  refused : Lifetime N Ev ended (setup ∷ [])
  broken : Lifetime N Ev aborted (setup ∷ [])
  served : {p : Phase} {cs : List (Call N Ev)} → Serving N Ev p cs → Lifetime N Ev p (setup ∷ cs)

module _ {N S Ev : Type 0} (h : Handler N S Ev) where
  after-Serving :
      (c : Call N Ev) (st : Step N S) (rest : List (Input N Ev)) (more : Run N S Ev)
      → IsWork c
      → Serving N Ev more.phase more.calls
      → Serving N Ev (after h c st rest more).phase (after h c st rest more).calls
  after-Serving c st rest more w sv = go st.exit refl
    where
      go :
          (x : Exit)
          → st.exit ≡ x
          → Serving N Ev (after h c st rest more).phase (after h c st rest more).calls
      go done e = rw e (work c w sv)
      go failed e = rw e (work c w leave)
      go crashed e = rw e (work c w abort)

  serve-Serving :
      (s : S) (inputs : List (Input N Ev))
      → Serving N Ev (serve h s inputs).phase (serve h s inputs).calls
  unfolding serve
  serve-Serving s [] = wait
  serve-Serving s (cancelled ∷ rest) = leave
  serve-Serving s (closed ∷ rest) = leave
  serve-Serving s (message m ∷ rest) =
      after-Serving (on_message m) (h.handle_message s m) rest _ tt
        (serve-Serving (h.handle_message s m).state rest)
  serve-Serving s (tick t ∷ rest) =
      after-Serving (on_timer t) (h.handle_timer s t) rest _ tt
        (serve-Serving (h.handle_timer s t).state rest)
  serve-Serving s (event x ∷ rest) =
      after-Serving (on_event x) (h.handle_event s x) rest _ tt
        (serve-Serving (h.handle_event s x).state rest)

  first_call-Serving :
      (now : ℤ) (s : S) (inputs : List (Input N Ev))
      → Serving N Ev (first_call h now s inputs).phase (first_call h now s inputs).calls
  unfolding first_call
  first_call-Serving now s inputs = elim (Bool-cases h.trigger_at_start) [
    | inl first ↦ rw first (
        after-Serving (on_timer now) (h.handle_timer s now) inputs _ tt
          (serve-Serving (h.handle_timer s now).state inputs))
    | inr other ↦ rw other (serve-Serving s inputs)
  ]

  pub run_handler-Lifetime :
      (now : ℤ) (s : S) (inputs : List (Input N Ev))
      → Lifetime N Ev (run_handler h now s inputs).phase (run_handler h now s inputs).calls
  unfolding run_handler
  run_handler-Lifetime now s inputs = go (h.setup s).exit refl
    where
      go :
          (x : Exit)
          → (h.setup s).exit ≡ x
          → Lifetime N Ev (run_handler h now s inputs).phase (run_handler h now s inputs).calls
      go done e = rw (e, run_handler) (served (first_call-Serving now (h.setup s).state inputs))
      go failed e = rw (e, run_handler) refused
      go crashed e = rw (e, run_handler) broken
