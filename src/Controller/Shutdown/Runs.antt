-- ===== src/Controller/Shutdown/Runs.antt =====
-- How many runs a handler has at a time, and when `Start` returns.
use mathlib.Core.Path.{subst}
use chik.Prelude.{
  All, Bool, List, [], arith, false, refl, replicate, suc, sym, true, zero, ℕ, ◌+◌, ◌∷◌, ◌≡◌, ◌≢◌,
  ◌≤◌,
}
use chik.Controller.Shutdown.{
  ExecStage, Reaches, RunStage, RunsStep, Slot, SlotStep, SlotsStep, Underway, UnderwayStep,
  as_it_is, calls_done, cancels, exec_begins, exec_gone, exec_pauses, exec_selects, fails_to_set_up,
  goes_on, is_subctx_done, new_slot, older_run, other_slot, run_ends, run_moves, run_over,
  run_serves, run_stops, run_tears_down, sets_up, slots_move, start_all, starts_again, takes_ctx,
  takes_subctx, this_slot,
}

abbrev pub is_over : RunStage → ℕ
is_over run_serves = 1
is_over run_tears_down = 1
is_over run_over = 0

-- The runs that are not over.
abbrev pub running : List RunStage → ℕ
running [] = 0
running (r ∷ rs) = is_over r + running rs

abbrev pub older : List RunStage → List RunStage
older [] = []
older (r ∷ rs) = rs

RunsStep-running :
    {rs rs' : List RunStage}
    → RunsStep rs rs'
    → (running rs' ≤ running rs) × (running (older rs') ≤ running (older rs))
RunsStep-running (run_stops rs) = (omega arith, omega arith)
RunsStep-running (run_ends rs) = (omega arith, omega arith)
RunsStep-running (older_run r next) =
    let (fewer, rest) = RunsStep-running next in (omega (arith, fewer), fewer)

-- The runs of a handler of a controller that is not cancelled: only the last one may not be over, and none
-- while `executeHandler` is not in its `select`.
pub record InTurn (s : Slot) : Type 0 where
  older_over : running (older s.runs) ≡ 0
  all_over : s.stage ≢ exec_selects → running s.runs ≡ 0
  pub still_there : s.stage ≢ exec_gone

done_over :
    (rs : List RunStage) → is_subctx_done false rs ≡ true → running (older rs) ≡ 0 → running rs ≡ 0
done_over [] finished rest = refl
done_over (run_serves ∷ rs) finished rest = absurd (ground (arith, finished))
done_over (run_tears_down ∷ rs) finished rest = absurd (ground (arith, finished))
done_over (run_over ∷ rs) finished rest = omega (arith, rest)

SlotStep-InTurn : {s s' : Slot} {wg wg' : ℕ} → SlotStep false s wg s' wg' → InTurn s → InTurn s'
SlotStep-InTurn (sets_up s wg at_stage) t = record {
  older_over = t.all_over (λ e. absurd (ground (arith, at_stage, e)));
  all_over = λ other. absurd (other refl);
  still_there = λ e. ground (arith, e);
}
SlotStep-InTurn (fails_to_set_up s wg at_stage) t = record {
  older_over = t.all_over (λ e. absurd (ground (arith, at_stage, e)));
  all_over = λ other. absurd (other refl);
  still_there = λ e. ground (arith, e);
}
SlotStep-InTurn (run_moves s wg next) t =
    let (fewer, rest) = RunsStep-running next in
    record {
      older_over = omega (arith, rest, t.older_over);
      all_over = λ other. omega (arith, fewer, t.all_over other);
      still_there = t.still_there;
    }
SlotStep-InTurn (takes_subctx s wg at_stage finished) t = record {
  older_over = t.older_over;
  all_over = λ other. done_over s.runs finished t.older_over;
  still_there = λ e. ground (arith, e);
}
SlotStep-InTurn (starts_again s wg at_stage) t = record {
  older_over = t.older_over;
  all_over = λ other. t.all_over (λ e. absurd (ground (arith, at_stage, e)));
  still_there = λ e. ground (arith, e);
}
SlotStep-InTurn (takes_ctx s wg at_stage cancelled') t = absurd (ground (arith, cancelled'))
SlotStep-InTurn (calls_done s wg n at_stage) t = record {
  older_over = t.older_over;
  all_over = t.all_over;
  still_there = t.still_there;
}

SlotsStep-InTurn :
    {slots slots' : List Slot} {wg wg' : ℕ}
    → SlotsStep false slots wg slots' wg'
    → All InTurn slots
    → All InTurn slots'
SlotsStep-InTurn (this_slot slots next) (t, all) = (SlotStep-InTurn next t, all)
SlotsStep-InTurn (other_slot s next) (t, all) = (t, SlotsStep-InTurn next all)

-- The calls of `executeHandler` of one handler that have not finished their `Done`.
abbrev pub is_there : ExecStage → ℕ
is_there exec_begins = 1
is_there exec_selects = 1
is_there exec_pauses = 1
is_there exec_gone = 0

abbrev pub counted : List Slot → ℕ
counted [] = 0
counted (s ∷ slots) = is_there s.stage + s.leaving + counted slots

SlotStep-counted :
    {c : Bool} {s s' : Slot} {wg wg' : ℕ}
    → SlotStep c s wg s' wg'
    → wg' + (is_there s.stage + s.leaving) ≡ wg + (is_there s'.stage + s'.leaving)
SlotStep-counted (sets_up s wg at_stage) = ground (arith, at_stage)
SlotStep-counted (fails_to_set_up s wg at_stage) = ground (arith, at_stage)
SlotStep-counted (run_moves s wg next) = refl
SlotStep-counted (takes_subctx s wg at_stage finished) = ground (arith, at_stage)
SlotStep-counted (starts_again s wg at_stage) = ground (arith, at_stage)
SlotStep-counted (takes_ctx s wg at_stage cancelled') = ground (arith, at_stage)
SlotStep-counted (calls_done s wg n at_stage) = ground (arith, at_stage)

SlotsStep-counted :
    {c : Bool} {slots slots' : List Slot} {wg wg' : ℕ}
    → SlotsStep c slots wg slots' wg'
    → wg' + counted slots ≡ wg + counted slots'
SlotsStep-counted (this_slot slots next) = omega (arith, SlotStep-counted next)
SlotsStep-counted (other_slot s next) = omega (arith, SlotsStep-counted next)

pub record InOrder (c : Underway) : Type 0 where
  pub same_count : c.wg ≡ counted c.slots
  pub in_turn : c.is_cancelled ≡ false → All InTurn c.slots

UnderwayStep-InOrder : {c c' : Underway} → UnderwayStep c c' → InOrder c → InOrder c'
UnderwayStep-InOrder (cancels c) o = record {
  same_count = o.same_count;
  in_turn = λ open'. absurd (ground (arith, open'));
}
UnderwayStep-InOrder (slots_move c {slots} {wg} next) o = record {
  same_count = omega (arith, o.same_count, SlotsStep-counted next);
  in_turn = λ open'.
      SlotsStep-InTurn (subst (λ b. SlotsStep b c.slots c.wg slots wg) open' next)
        (o.in_turn open');
}

pub Reaches-InOrder : {c c' : Underway} → Reaches c c' → InOrder c → InOrder c'
Reaches-InOrder as_it_is o = o
Reaches-InOrder (goes_on before next) o = UnderwayStep-InOrder next (Reaches-InOrder before o)

new_counted : (handlers : ℕ) → counted (replicate handlers new_slot) ≡ handlers
new_counted zero = refl
new_counted (suc n) = omega (arith, new_counted n)

new-InTurn : (handlers : ℕ) → All InTurn (replicate handlers new_slot)
new-InTurn zero = tt
new-InTurn (suc n) = (
  record { older_over = refl; all_over = λ other. refl; still_there = λ e. ground (arith, e) },
  new-InTurn n,
)

pub start_all-InOrder : (handlers : ℕ) → InOrder (start_all handlers)
start_all-InOrder handlers = record {
  same_count = sym (new_counted handlers);
  in_turn = λ open'. new-InTurn handlers;
}

-- How many runs of a handler may not be over: one in the `select` of `executeHandler`, none otherwise.
abbrev pub may_run : ExecStage → ℕ
may_run exec_begins = 0
may_run exec_selects = 1
may_run exec_pauses = 0
may_run exec_gone = 0

over_or_one : (rs : List RunStage) → running (older rs) ≡ 0 → running rs ≤ 1
over_or_one [] rest = omega arith
over_or_one (run_serves ∷ rs) rest = omega (arith, rest)
over_or_one (run_tears_down ∷ rs) rest = omega (arith, rest)
over_or_one (run_over ∷ rs) rest = omega (arith, rest)

runs-InTurn :
    (stage : ExecStage) (s : Slot) → s.stage ≡ stage → InTurn s → running s.runs ≤ may_run stage
runs-InTurn exec_begins s at_stage t =
    omega (arith, t.all_over (λ e. absurd (ground (arith, at_stage, e))))
runs-InTurn exec_selects s at_stage t = over_or_one s.runs t.older_over
runs-InTurn exec_pauses s at_stage t =
    omega (arith, t.all_over (λ e. absurd (ground (arith, at_stage, e))))
runs-InTurn exec_gone s at_stage t = absurd (t.still_there at_stage)

each_turn :
    (slots : List Slot) → All InTurn slots → All (λ s. running s.runs ≤ may_run s.stage) slots
each_turn [] all = tt
each_turn (s ∷ slots) (t, all) = (runs-InTurn s.stage s refl t, each_turn slots all)

-- Of any number of handlers that Start has started, at every moment before the controller is cancelled: each has
-- at most one run that is not over, and none while it is in the pause before it is started again or is about to
-- be set up.
pub handlers_take_turns :
    (handlers : ℕ) {c : Underway}
    → Reaches (start_all handlers) c
    → c.is_cancelled ≡ false
    → All (λ s. running s.runs ≤ may_run s.stage) c.slots
handlers_take_turns handlers {c} run open' =
    each_turn c.slots ((Reaches-InOrder run (start_all-InOrder handlers)).in_turn open')
