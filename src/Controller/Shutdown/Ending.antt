-- ===== src/Controller/Shutdown/Ending.antt =====
-- When `Start` returns, and what the handlers then do.
use mathlib.Core.Path.{subst}
use chik.Prelude.{
  All, Bool-cases, List, [], ap, arith, inl, inr, map, refl, suc, sym, true, zero, ℕ, ◌+◌, ◌∷◌, ◌≡◌,
  ◌⊎◌,
}
use chik.Controller.Shutdown.{
  ExecStage, Reaches, RunStage, Slot, SlotStep, Underway, UnderwayStep, as_it_is, calls_done,
  cancels, exec_begins, exec_gone, exec_pauses, exec_selects, goes_on, other_slot, slots_move,
  start_all, takes_ctx, this_slot,
}
use chik.Controller.Shutdown.Runs.{InTurn, Reaches-InOrder, counted, start_all-InOrder}

Reaches-later : {c c' c'' : Underway} → Reaches c c' → Reaches c' c'' → Reaches c c''
Reaches-later before as_it_is = before
Reaches-later before (goes_on after' next) = goes_on (Reaches-later before after') next

-- The same steps beside another handler.
abbrev beside : Slot → Underway → Underway
beside s c = record c { slots = s ∷ c.slots }

beside_step :
    (s : Slot) {c c' : Underway} → UnderwayStep c c' → UnderwayStep (beside s c) (beside s c')
beside_step s (cancels c) = cancels (beside s c)
beside_step s (slots_move c next) = slots_move (beside s c) (other_slot s next)

Reaches-beside : (s : Slot) {c c' : Underway} → Reaches c c' → Reaches (beside s c) (beside s c')
Reaches-beside s as_it_is = as_it_is
Reaches-beside s (goes_on before next) = goes_on (Reaches-beside s before) (beside_step s next)

-- A controller that is cancelled.
abbrev cancelled_at : ℕ → List Slot → Underway
cancelled_at wg slots = record { is_cancelled = true; wg = wg; slots = slots }

abbrev gone_with : List RunStage → ℕ → Slot
gone_with rs n = record { stage = exec_gone; runs = rs; leaving = n }

all_done :
    (rs : List RunStage) (n wg : ℕ) (slots : List Slot)
    → Reaches
        (cancelled_at (n + wg) (gone_with rs n ∷ slots))
        (cancelled_at wg (gone_with rs 0 ∷ slots))
all_done rs zero wg slots =
    let same : wg ≡ 0 + wg = omega arith in
    subst
      (λ w.
        Reaches (cancelled_at w (gone_with rs 0 ∷ slots))
          (cancelled_at wg (gone_with rs 0 ∷ slots)))
      same as_it_is
all_done rs (suc n) wg slots =
    let one : SlotStep true (gone_with rs (suc n)) (suc (n + wg)) (gone_with rs n) (n + wg) =
      calls_done (gone_with rs (suc n)) (n + wg) n refl in
    let first = goes_on as_it_is (
      slots_move (cancelled_at (suc (n + wg)) (gone_with rs (suc n) ∷ slots))
        (this_slot slots one)) in
    let same : suc (n + wg) ≡ suc n + wg = omega arith in
    subst
      (λ w.
        Reaches (cancelled_at w (gone_with rs (suc n) ∷ slots))
          (cancelled_at wg (gone_with rs 0 ∷ slots)))
      same (Reaches-later first (all_done rs n wg slots))

abbrev pub AllSelect : List Slot → Type 0
AllSelect = All (λ s. s.stage ≡ exec_selects)

all_leave :
    (slots : List Slot)
    → AllSelect slots
    → Reaches
        (cancelled_at (counted slots) slots)
        (cancelled_at 0 (map (λ s. gone_with s.runs 0) slots))
all_leave [] selects = as_it_is
all_leave (s ∷ slots) (at_stage, selects) =
    let others = counted slots in
    let first : Reaches (cancelled_at (suc s.leaving + others) (s ∷ slots))
        (cancelled_at (suc s.leaving + others) (gone_with s.runs (suc s.leaving) ∷ slots)) =
      goes_on as_it_is (
        slots_move (cancelled_at (suc s.leaving + others) (s ∷ slots))
          (this_slot slots (takes_ctx s _ at_stage refl))) in
    let next = all_done s.runs (suc s.leaving) others slots in
    let last' = Reaches-beside (gone_with s.runs 0) (all_leave slots selects) in
    let same : suc s.leaving + others ≡ counted (s ∷ slots) = ground (arith, at_stage) in
    subst
      (λ w.
        Reaches (cancelled_at w (s ∷ slots))
          (cancelled_at 0 (map (λ s. gone_with s.runs 0) (s ∷ slots))))
      same (Reaches-later first (Reaches-later next last'))

same_runs :
    (slots : List Slot)
    → map (λ s. s.runs) (map (λ s. gone_with s.runs 0) slots) ≡ map (λ s. s.runs) slots
same_runs [] = refl
same_runs (s ∷ slots) = ap (λ rest. s.runs ∷ rest) (same_runs slots)

none_counted : (slots : List Slot) → All InTurn slots → counted slots ≡ 0 → slots ≡ []
none_counted [] turns none_left = refl
none_counted (s ∷ slots) (t, turns) none_left = go s.stage refl
  where
    go : (stage : ExecStage) → s.stage ≡ stage → s ∷ slots ≡ []
    go exec_begins e = absurd (ground (arith, e, none_left))
    go exec_selects e = absurd (ground (arith, e, none_left))
    go exec_pauses e = absurd (ground (arith, e, none_left))
    go exec_gone e = absurd (t.still_there e)

return_needs_cancel :
    (handlers : ℕ) {c : Underway}
    → Reaches (start_all handlers) c
    → c.wg ≡ 0
    → (c.is_cancelled ≡ true) ⊎ (c.slots ≡ [])
return_needs_cancel handlers {c} run none_left =
    let o = Reaches-InOrder run (start_all-InOrder handlers) in
    elim (Bool-cases c.is_cancelled) [
      | inl stopped ↦ inl stopped
      | inr open' ↦
          inr (none_counted c.slots (o.in_turn open') (omega (arith, none_left, o.same_count)))
    ]

-- Whenever every call of executeHandler is in its select, the controller may be cancelled and Start then return
-- with all the runs as they were: it does not wait for the teardown of a run that was in its loop.
pub start_leaves_runs :
    (handlers : ℕ) {c : Underway}
    → Reaches (start_all handlers) c
    → AllSelect c.slots
    → (c' : Underway) × Reaches c c'
      × (c'.is_cancelled ≡ true)
      × (c'.wg ≡ 0)
      × (map (λ s. s.runs) c'.slots ≡ map (λ s. s.runs) c.slots)
start_leaves_runs handlers {c} run selects =
    let o = Reaches-InOrder run (start_all-InOrder handlers) in
    let left_all = cancelled_at 0 (map (λ s. gone_with s.runs 0) c.slots) in
    let leave : Reaches (cancelled_at c.wg c.slots) left_all =
      subst (λ w. Reaches (cancelled_at w c.slots) left_all) (sym o.same_count)
        (all_leave c.slots selects) in
    (left_all, Reaches-later (goes_on as_it_is (cancels c)) leave, refl, refl, same_runs c.slots)
