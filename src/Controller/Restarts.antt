-- ===== src/Controller/Restarts.antt =====
-- A handler is started again each time that it ends.
use mathlib.Core.Path.{subst}
use chik.Prelude.{List, [], refl, ◌++◌, ◌∷◌, ◌≡◌}
use chik.Controller.{
  Call, Handler, Input, Phase, aborted, ended, execute_handler, run_handler, waiting,
}
use chik.Controller.Running.{Lifetime, run_handler-Lifetime}
use chik.Prelude.Int.{ℤ}

-- A sequence of whole lifetimes, and one that may be under way.
pub data Lifetimes (N Ev : Type 0) : List (Call N Ev) → Type 0 where
  over : Lifetimes N Ev []
  last : {p : Phase} {cs : List (Call N Ev)} → Lifetime N Ev p cs → Lifetimes N Ev cs
  next :
      {cs ds : List (Call N Ev)}
      → Lifetime N Ev ended cs
      → Lifetimes N Ev ds
      → Lifetimes N Ev (cs ++ ds)

module _ {N S Ev : Type 0} (h : Handler N S Ev) where
  -- Over any number of restarts the calls are whole lifetimes one after the other: a handler is never
  -- set up again before the run before it has ended.
  pub execute_handler-Lifetimes :
      (starts : List ℤ) (s : S) (inputs : List (Input N Ev))
      → Lifetimes N Ev (execute_handler h starts s inputs).calls
  unfolding execute_handler
  execute_handler-Lifetimes [] s inputs = over
  execute_handler-Lifetimes (now ∷ starts) s inputs =
      go (run_handler h now s inputs).phase refl (run_handler-Lifetime h now s inputs) (
        execute_handler-Lifetimes starts (run_handler h now s inputs).state
          (run_handler h now s inputs).rest)
    where
      go :
          (p : Phase)
          → (run_handler h now s inputs).phase ≡ p
          → Lifetime N Ev (run_handler h now s inputs).phase (run_handler h now s inputs).calls
          → Lifetimes N Ev
              (execute_handler h starts
                (run_handler h now s inputs).state
                (run_handler h now s inputs).rest).calls
          → Lifetimes N Ev (execute_handler h (now ∷ starts) s inputs).calls
      go waiting e life later = rw (e, execute_handler) (last life)
      go aborted e life later = rw (e, execute_handler) (last life)
      go ended e life later =
          rw (e, execute_handler)
            (next (subst (λ p. Lifetime N Ev p (run_handler h now s inputs).calls) e life) later)
