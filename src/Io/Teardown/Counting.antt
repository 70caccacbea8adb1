-- ===== src/Io/Teardown/Counting.antt =====
-- What the steps of the listeners keep: the changes are passed on, and none is lost.
use chik.Io.Teardown.{leave}
use chik.Prelude.{
  All, Bool, List, String, [], ap, arith, false, length, length-append, map, none, refl, some, sym,
  true, ℕ, ◌+◌, ◌∙◌, ◌∷◌, ◌≡◌, ◌≤◌,
}
use chik.Io.Teardown.{
  AllGone, CanReturn, Listener, ListenerStep, Passes, Passing, another_change, at_first, at_later,
  at_start, capacity, moved_on, pass_on, take_change,
}

-- The changes that a listener still has to pass on.
abbrev pub waiting : Listener → ℕ
waiting l = length l.pending + (elim l.held [ none ↦ 0 | some d ↦ 1 ])

abbrev pub all_waiting : List Listener → ℕ
all_waiting [] = 0
all_waiting (l ∷ ls) = waiting l + all_waiting ls

-- A listener ends only when its channel is closed and all is passed on.
record EndsEmpty (l : Listener) : Type 0 where
  ends_closed : l.gone ≡ true → l.closed ≡ true
  ends_empty : l.gone ≡ true → waiting l ≡ 0

ListenerStep-EndsEmpty :
    {l l' : Listener} {sent sent' : List String}
    → ListenerStep l sent l' sent'
    → EndsEmpty l
    → EndsEmpty l'
ListenerStep-EndsEmpty (take_change l sent d ds stays free next) ends = record {
  ends_closed = λ g. cc;
  ends_empty = λ g. cc;
}
ListenerStep-EndsEmpty (pass_on l sent d held room) ends = record {
  ends_closed = λ g. ends.ends_closed g;
  ends_empty = λ g. (let none_left = ends.ends_empty g in ground (arith, none_left));
}
ListenerStep-EndsEmpty (leave l sent stays free empty closed) ends = record {
  ends_closed = λ g. closed;
  ends_empty = λ g. ground (arith, free, empty);
}
ListenerStep-EndsEmpty (another_change l sent d stays_open) ends = record {
  ends_closed = λ g. ends.ends_closed g;
  ends_empty = λ g. (let is_closed = ends.ends_closed g in cc);
}

ListenerStep-counts :
    {l l' : Listener} {sent sent' : List String}
    → ListenerStep l sent l' sent'
    → length sent ≤ capacity
    → (l'.closed ≡ l.closed)
      × (length sent' ≤ capacity)
      × (l.closed ≡ true → waiting l' + length sent' ≡ waiting l + length sent)
ListenerStep-counts (take_change l sent d ds stays free next) fits =
    (refl, fits, λ c. ground (arith, free, next))
ListenerStep-counts (pass_on l sent d held room) fits =
    let longer = length-append sent (d ∷ []) in
    (refl, omega (arith, longer), λ c. ground (arith, held, longer))
ListenerStep-counts (leave l sent stays free empty closed) fits = (refl, fits, λ c. refl)
ListenerStep-counts (another_change l sent d stays_open) fits =
    (refl, fits, λ c. absurd (ground (arith, c)))

record Conserved (ls ls' : List Listener) (sent sent' : List String) : Type 0 where
  kept_ends : All EndsEmpty ls'
  kept_closed : map (λ l. l.closed) ls' ≡ map (λ l. l.closed) ls
  kept_fits : length sent' ≤ capacity
  kept_count :
      All (λ l. l.closed ≡ true) ls → all_waiting ls' + length sent' ≡ all_waiting ls + length sent

Passing-Conserved :
    {ls ls' : List Listener} {sent sent' : List String}
    → Passing ls sent ls' sent'
    → All EndsEmpty ls
    → length sent ≤ capacity
    → Conserved ls ls' sent sent'
Passing-Conserved (at_first ls moved) (ends, all) fits =
    let (closed, fits', count) = ListenerStep-counts moved fits in
    record {
      kept_ends = (ListenerStep-EndsEmpty moved ends, all);
      kept_closed = rw closed;
      kept_fits = fits';
      kept_count = λ cs. omega (arith, count cs.0);
    }
Passing-Conserved (at_later l moved) (ends, all) fits =
    let kept = Passing-Conserved moved all fits in
    record {
      kept_ends = (ends, kept.kept_ends);
      kept_closed = ap (λ (cs : List Bool). l.closed ∷ cs) kept.kept_closed;
      kept_fits = kept.kept_fits;
      kept_count = λ cs. omega (arith, kept.kept_count cs.1);
    }

same_closed :
    (ls ls' : List Listener)
    → map (λ l. l.closed) ls' ≡ map (λ l. l.closed) ls
    → All (λ l. l.closed ≡ true) ls
    → All (λ l. l.closed ≡ true) ls'
same_closed [] [] same all = tt
same_closed [] (l' ∷ ls') same all = absurd (ground (arith, same))
same_closed (l ∷ ls) [] same all = absurd (ground (arith, same))
same_closed (l ∷ ls) (l' ∷ ls') same (closed, all) =
    (ground (arith, same), same_closed ls ls' (ground (arith, same)) all)

Passes-Conserved :
    {ls : List Listener} {sent : List String} {ls' : List Listener} {sent' : List String}
    → Passes ls sent ls' sent'
    → All EndsEmpty ls
    → length sent ≤ capacity
    → Conserved ls ls' sent sent'
Passes-Conserved at_start ends fits = record {
  kept_ends = ends;
  kept_closed = refl;
  kept_fits = fits;
  kept_count = λ cs. refl;
}
Passes-Conserved (moved_on before moved) ends fits =
    let first = Passes-Conserved before ends fits in
    let next = Passing-Conserved moved first.kept_ends first.kept_fits in
    record {
      kept_ends = next.kept_ends;
      kept_closed = next.kept_closed ∙ first.kept_closed;
      kept_fits = next.kept_fits;
      kept_count =
          λ cs. next.kept_count (same_closed _ _ first.kept_closed cs) ∙ first.kept_count cs;
    }

gone_empty : (ls : List Listener) → All EndsEmpty ls → AllGone ls → all_waiting ls ≡ 0
gone_empty [] ends gone = refl
gone_empty (l ∷ ls) (empties, ends) (g, gone) =
    omega (arith, empties.ends_empty g, gone_empty ls ends gone)

gone_closed : (ls : List Listener) → All EndsEmpty ls → AllGone ls → All (λ l. l.closed ≡ true) ls
gone_closed [] ends gone = tt
gone_closed (l ∷ ls) (empties, ends) (g, gone) = (empties.ends_closed g, gone_closed ls ends gone)

-- A listener that has not ended.
abbrev pub AllWait : List Listener → Type 0
AllWait = All (λ l. l.gone ≡ false)

wait_ends : (ls : List Listener) → AllWait ls → All EndsEmpty ls
wait_ends [] left = tt
wait_ends (l ∷ ls) (w, left) = (
  record { ends_closed = λ g. cc; ends_empty = λ g. absurd (ground (arith, g)) },
  wait_ends ls left,
)

-- Listeners that could all end have closed channels and no more changes than the channel takes.
pub can_return :
    (ls : List Listener) (sent : List String)
    → AllWait ls
    → length sent ≤ capacity
    → CanReturn ls sent
    → All (λ l. l.closed ≡ true) ls × (all_waiting ls + length sent ≤ capacity)
can_return ls sent left fits (ls', sent', run, gone) =
    let kept = Passes-Conserved run (wait_ends ls left) fits in
    let closed = same_closed ls' ls (sym kept.kept_closed) (gone_closed ls' kept.kept_ends gone) in
    (
      closed,
      omega (arith, kept.kept_count closed, gone_empty ls' kept.kept_ends gone, kept.kept_fits),
    )
