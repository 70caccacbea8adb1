-- ===== src/Io/Teardown/Waiting.antt =====
-- When the teardown of the handler returns.
use mathlib.Core.Path.{subst}
use chik.Io.Teardown.{leave}
use chik.Io.Teardown.Counting.{waiting}
use chik.Prelude.{
  All, Bool, List, Option-cases, String, [], ap, arith, false, inl, inr, length, length-append, map,
  none, refl, some, true, ◌++◌, ◌+◌, ◌<◌, ◌↔◌, ◌∙◌, ◌∷◌, ◌≡◌, ◌≤◌,
}
use chik.Io.Teardown.{
  CanReturn, Listener, OpenBus, Passes, at_first, at_later, at_start, capacity, deinitialize,
  deinitialize_all, moved_on, pass_on, take_change,
}
use chik.Io.Teardown.Counting.{AllWait, all_waiting, can_return}

Passes-then :
    {ls : List Listener} {sent : List String} {ms : List Listener} {sent' : List String}
    {ns : List Listener} {sent'' : List String}
    → Passes ls sent ms sent'
    → Passes ms sent' ns sent''
    → Passes ls sent ns sent''
Passes-then first at_start = first
Passes-then first (moved_on next moved) = moved_on (Passes-then first next) moved

Passes-later :
    (l : Listener) {ls : List Listener} {sent : List String} {ls' : List Listener}
    {sent' : List String}
    → Passes ls sent ls' sent'
    → Passes (l ∷ ls) sent (l ∷ ls') sent'
Passes-later l at_start = at_start
Passes-later l (moved_on before moved) = moved_on (Passes-later l before) (at_later l moved)

-- A listener of a closed channel passes all on and ends.
drain_free :
    (ls : List Listener) (ds : List String) (l : Listener) (sent : List String)
    → l.pending ≡ ds
    → l.held ≡ none
    → l.gone ≡ false
    → l.closed ≡ true
    → length ds + length sent ≤ capacity
    → (l' : Listener) × (sent' : List String) × Passes (l ∷ ls) sent (l' ∷ ls) sent'
      × (l'.gone ≡ true)
      × (length sent' ≡ length ds + length sent)
drain_free ls [] l sent pending free stays closed fits = (
  record l { gone = true },
  sent,
  moved_on at_start (at_first ls (leave l sent stays free pending closed)),
  refl,
  omega arith,
)
drain_free ls (d ∷ ds) l sent pending free stays closed fits =
    let l1 : Listener = record l { pending = ds; held = some d } in
    let l2 : Listener = record l1 { held = none } in
    let sent1 : List String = sent ++ d ∷ [] in
    let longer = length-append sent (d ∷ []) in
    let (l', sent', run, gone, count) =
      drain_free ls ds l2 sent1 refl refl stays closed (omega (arith, longer)) in
    let room : length sent < capacity = omega arith in
    let first = at_first ls (take_change l sent d ds stays free pending) in
    let next = at_first ls (pass_on l1 sent d refl room) in
    (
      l',
      sent',
      Passes-then (moved_on (moved_on at_start first) next) run,
      gone,
      omega (arith, count, longer),
    )

drain_first :
    (ls : List Listener) (l : Listener) (sent : List String)
    → l.gone ≡ false
    → l.closed ≡ true
    → waiting l + length sent ≤ capacity
    → (l' : Listener) × (sent' : List String) × Passes (l ∷ ls) sent (l' ∷ ls) sent'
      × (l'.gone ≡ true)
      × (length sent' ≡ waiting l + length sent)
drain_first ls l sent stays closed fits = elim (Option-cases l.held) [
  | inl free ↦
      let (l', sent', run, gone, count) =
        drain_free ls l.pending l sent refl free stays closed (ground (arith, free)) in
      (l', sent', run, gone, ground (arith, free, count))
  | inr (d, held) ↦
      let l1 : Listener = record l { held = none } in
      let sent1 : List String = sent ++ d ∷ [] in
      let longer = length-append sent (d ∷ []) in
      let few : length l.pending + 1 + length sent ≤ capacity = ground (arith, held) in
      let (l', sent', run, gone, count) =
        drain_free ls l.pending l1 sent1 refl refl stays closed (omega (arith, longer)) in
      let moved = at_first ls (pass_on l sent d held (omega arith)) in
      (
        l',
        sent',
        Passes-then (moved_on at_start moved) run,
        gone,
        ground (arith, held, count, longer),
      )
]

drain_each :
    (ls : List Listener) (sent : List String)
    → AllWait ls
    → All (λ l. l.closed ≡ true) ls
    → all_waiting ls + length sent ≤ capacity
    → CanReturn ls sent
drain_each [] sent left closed fits = ([], sent, at_start, tt)
drain_each (l ∷ ls) sent (stays, left) (closed, all) fits =
    let (l', sent', run, gone, count) = drain_first ls l sent stays closed (omega arith) in
    let (ls', sent'', rest, others) = drain_each ls sent' left all (omega (arith, count)) in
    (l' ∷ ls', sent'', Passes-then run (Passes-later l' rest), (gone, others))

-- The teardown, whose listeners have not ended, can return exactly if every bus closed its channel and the
-- changes that are still to be passed on fit into the channel of the handler.
pub returns_exactly :
    (ls : List Listener) (sent : List String)
    → AllWait ls
    → length sent ≤ capacity
    → CanReturn ls sent
      ↔ (All (λ l. l.closed ≡ true) ls × (all_waiting ls + length sent ≤ capacity))
returns_exactly ls sent left fits =
    (can_return ls sent left fits, λ (closed, few). drain_each ls sent left closed few)

-- A bus that closes its channel.
abbrev pub Closes : OpenBus × Listener → Type 0
Closes (bus, l) = deinitialize bus ≡ some true

abbrev pub listeners_of : List (OpenBus × Listener) → List Listener
listeners_of buses = map (λ e. e.1) buses

-- The listeners are as before, and have the closed channels that the buses closed.
record Deinitialized (buses : List (OpenBus × Listener)) (ls : List Listener) : Type 0 where
  same_waiting : all_waiting ls ≡ all_waiting (listeners_of buses)
  same_left : AllWait (listeners_of buses) → AllWait ls
  closed_if : All Closes buses → All (λ l. l.closed ≡ true) ls
  closed_only_if : All (λ l. l.closed ≡ true) ls → All Closes buses

nothing_open : Deinitialized [] []
nothing_open = record {
  same_waiting = refl;
  same_left = λ left. left;
  closed_if = λ closes. tt;
  closed_only_if = λ closed. tt;
}

one_more :
    (bus : OpenBus) (l : Listener) (rest : List (OpenBus × Listener)) (closes : Bool)
    (ms : List Listener)
    → deinitialize bus ≡ some closes
    → Deinitialized rest ms
    → Deinitialized ((bus, l) ∷ rest) (record l { closed = closes } ∷ ms)
one_more bus l rest closes ms stopped later = record {
  same_waiting = omega (arith, later.same_waiting);
  same_left = λ (stays, left). (stays, later.same_left left);
  closed_if = λ (first_closes, all). (ground (arith, stopped, first_closes), later.closed_if all);
  closed_only_if = λ (is_closed, all). (stopped ∙ ap some is_closed, later.closed_only_if all);
}

deinitialize_all-Deinitialized :
    (buses : List (OpenBus × Listener)) {ls : List Listener}
    → deinitialize_all buses ≡ some ls
    → Deinitialized buses ls
unfolding deinitialize_all
deinitialize_all-Deinitialized [] got = subst (Deinitialized []) (ground (arith, got)) nothing_open
deinitialize_all-Deinitialized ((bus, l) ∷ rest) {ls} got = elim (Option-cases (deinitialize bus)) [
  | inl panics ↦ absurd (ground (arith, panics))
  | inr (closes, stopped) ↦ elim (Option-cases (deinitialize_all rest)) [
    | inl panics ↦ absurd (ground (arith, stopped, panics))
    | inr (ms, others) ↦
        let later = deinitialize_all-Deinitialized rest others in
        let same : record l { closed = closes } ∷ ms ≡ ls = ground (arith, stopped, others) in
        subst (Deinitialized ((bus, l) ∷ rest)) same (one_more bus l rest closes ms stopped later)
  ]
]

-- The teardown of buses, whose listeners have not ended, can return exactly if each of the buses closes its
-- channel and the changes that are still to be passed on fit into the channel of the handler.
pub teardown_returns :
    (buses : List (OpenBus × Listener)) (ls : List Listener) (sent : List String)
    → deinitialize_all buses ≡ some ls
    → AllWait (listeners_of buses)
    → length sent ≤ capacity
    → CanReturn ls sent
      ↔ (All Closes buses × (all_waiting (listeners_of buses) + length sent ≤ capacity))
teardown_returns buses ls sent stopped left fits =
    let closed_by = deinitialize_all-Deinitialized buses stopped in
    let (only_if, if_all) = returns_exactly ls sent (closed_by.same_left left) fits in
    (
      λ returns.
          (let (closed, few) = only_if returns in
            (closed_by.closed_only_if closed, omega (arith, closed_by.same_waiting))),
      λ (closes, few). if_all (closed_by.closed_if closes, omega (arith, closed_by.same_waiting)),
    )
