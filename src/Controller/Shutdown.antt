-- ===== src/Controller/Shutdown.antt =====
-- controller.go, `Start`, `executeHandler` and `runHandler` as goroutines: who waits for whom when handlers are
-- started again and when the controller is cancelled. What the methods of the handlers do is in Controller.
pub mod Runs
pub mod Ending
use chik.Prelude.{Bool, List, [], false, replicate, suc, true, ℕ, ◌∷◌, ◌≡◌}

-- A goroutine of `runHandler`: in its loop, in the deferred function, or over, with its context cancelled.
pub data RunStage : Type 0 where
  run_serves run_tears_down run_over : RunStage

-- `executeHandler`: before `runHandler`, in the `select`, in the five seconds of the pause, or left.
pub data ExecStage : Type 0 where
  exec_begins exec_selects exec_pauses exec_gone : ExecStage

-- A handler: the call of `executeHandler` that is under way, the goroutines of its runs, the last first, and
-- the number of calls of `executeHandler` that have left and whose deferred `Done` is still to come.
pub record Slot : Type 0 where
  pub stage : ExecStage
  pub runs : List RunStage
  pub leaving : ℕ

-- The context of the last run is cancelled by its end, and with the context of the controller.
abbrev pub is_subctx_done : (is_cancelled : Bool) → List RunStage → Bool
is_subctx_done is_cancelled [] = is_cancelled
is_subctx_done is_cancelled (r ∷ rs) = elim r [
  | run_serves ↦ is_cancelled
  | run_tears_down ↦ is_cancelled
  | run_over ↦ true
]

-- A run leaves its loop, for a reason of its own or because the context is done; its teardown ends.
pub data RunsStep : List RunStage → List RunStage → Type 0 where
  run_stops : (rs : List RunStage) → RunsStep (run_serves ∷ rs) (run_tears_down ∷ rs)
  run_ends : (rs : List RunStage) → RunsStep (run_tears_down ∷ rs) (run_over ∷ rs)
  older_run :
      (r : RunStage) {rs rs' : List RunStage} → RunsStep rs rs' → RunsStep (r ∷ rs) (r ∷ rs')

-- The steps of a handler, with the counter of the wait group before and after them.
pub data SlotStep (is_cancelled : Bool) : Slot → ℕ → Slot → ℕ → Type 0 where
  sets_up :
      (s : Slot) (wg : ℕ)
      → s.stage ≡ exec_begins
      → SlotStep is_cancelled s wg
          (record s { stage = exec_selects; runs = run_serves ∷ s.runs })
          wg
  fails_to_set_up :
      (s : Slot) (wg : ℕ)
      → s.stage ≡ exec_begins
      → SlotStep is_cancelled s wg (record s { stage = exec_selects; runs = run_over ∷ s.runs }) wg
  run_moves :
      (s : Slot) (wg : ℕ) {rs : List RunStage}
      → RunsStep s.runs rs
      → SlotStep is_cancelled s wg (record s { runs = rs }) wg
  takes_subctx :
      (s : Slot) (wg : ℕ)
      → s.stage ≡ exec_selects
      → is_subctx_done is_cancelled s.runs ≡ true
      → SlotStep is_cancelled s wg (record s { stage = exec_pauses }) wg
  starts_again :
      (s : Slot) (wg : ℕ)
      → s.stage ≡ exec_pauses
      → SlotStep is_cancelled s wg
          (record s { stage = exec_begins; leaving = suc s.leaving })
          (suc wg)
  takes_ctx :
      (s : Slot) (wg : ℕ)
      → s.stage ≡ exec_selects
      → is_cancelled ≡ true
      → SlotStep is_cancelled s wg (record s { stage = exec_gone; leaving = suc s.leaving }) wg
  calls_done :
      (s : Slot) (wg n : ℕ)
      → s.leaving ≡ suc n
      → SlotStep is_cancelled s (suc wg) (record s { leaving = n }) wg

pub data SlotsStep (is_cancelled : Bool) : List Slot → ℕ → List Slot → ℕ → Type 0 where
  this_slot :
      {s s' : Slot} {wg wg' : ℕ} (slots : List Slot)
      → SlotStep is_cancelled s wg s' wg'
      → SlotsStep is_cancelled (s ∷ slots) wg (s' ∷ slots) wg'
  other_slot :
      (s : Slot) {slots slots' : List Slot} {wg wg' : ℕ}
      → SlotsStep is_cancelled slots wg slots' wg'
      → SlotsStep is_cancelled (s ∷ slots) wg (s ∷ slots') wg'

-- The controller between the loop of `Start` and the return of its `Wait`, which needs a counter of 0.
pub record Underway : Type 0 where
  pub is_cancelled : Bool
  pub wg : ℕ
  pub slots : List Slot

pub data UnderwayStep : Underway → Underway → Type 0 where
  cancels : (c : Underway) → UnderwayStep c (record c { is_cancelled = true })
  slots_move :
      (c : Underway) {slots : List Slot} {wg : ℕ}
      → SlotsStep c.is_cancelled c.slots c.wg slots wg
      → UnderwayStep c (record c { wg = wg; slots = slots })

pub data Reaches (c : Underway) : Underway → Type 0 where
  as_it_is : Reaches c c
  goes_on : {c' c'' : Underway} → Reaches c c' → UnderwayStep c' c'' → Reaches c c''

abbrev pub new_slot : Slot
new_slot = record { stage = exec_begins; runs = []; leaving = 0 }

-- The loop of `Start` for the given number of handlers.
abbrev pub start_all : (handlers : ℕ) → Underway
start_all handlers = record {
  is_cancelled = false;
  wg = handlers;
  slots = replicate handlers new_slot;
}
