-- ===== src/Tests/Shutdowns.antt =====
-- Tests of a controller that is cancelled.
use chik.Prelude.{All, [], false, map, refl, true, ◌∷◌, ◌≡◌, ◌≤◌}
use chik.Controller.Shutdown.{
  Reaches, Slot, Underway, as_it_is, exec_selects, goes_on, new_slot, run_moves, run_serves,
  run_stops, run_tears_down, sets_up, slots_move, start_all, this_slot,
}
use chik.Controller.Shutdown.Ending.{start_leaves_runs}
use chik.Controller.Shutdown.Runs.{handlers_take_turns, may_run, running}
use chik.Tests.Samples.{nat_numbers}

-- One handler that was set up; then its run stops.
abbrev serving : Underway
serving = record {
  is_cancelled = false;
  wg = 1;
  slots = record { stage = exec_selects; runs = run_serves ∷ []; leaving = 0 } ∷ [];
}

serving_reached : Reaches (start_all 1) serving
serving_reached =
    goes_on as_it_is (slots_move (start_all 1) (this_slot [] (sets_up new_slot 1 refl)))

abbrev stopping : Underway
stopping = record {
  is_cancelled = false;
  wg = 1;
  slots = record { stage = exec_selects; runs = run_tears_down ∷ []; leaving = 0 } ∷ [];
}

stopping_reached : Reaches (start_all 1) stopping
stopping_reached = goes_on serving_reached (
    slots_move serving (
      this_slot [] (
        run_moves (record { stage = exec_selects; runs = run_serves ∷ []; leaving = 0 }) 1
          (run_stops []))))

handlers_take_turns_example : All (λ (s : Slot). running s.runs ≤ may_run s.stage) stopping.slots
handlers_take_turns_example = handlers_take_turns 1 stopping_reached refl

start_leaves_runs_example :
    (c' : Underway) × Reaches serving c'
    × (c'.is_cancelled ≡ true)
    × (c'.wg ≡ 0)
    × (map (λ (s : Slot). s.runs) c'.slots ≡ (run_serves ∷ []) ∷ [])
start_leaves_runs_example = start_leaves_runs 1 serving_reached (refl, tt)
