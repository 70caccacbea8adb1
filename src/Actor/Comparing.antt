-- ===== src/Actor/Comparing.antt =====
-- Comparisons of times in queries.
use chik.Prelude.{arith, leb, ltb, not, some, ◌≡◌}
use chik.Actor.Compare.{compare_by, time}
use chik.Json.{Numbers}
use chik.Prelude.Int.{abs, neg_part, pos_part, ◌-ℤ◌}
use chik.Types.Time.{TimeIndication, compare_time}

module _ (N : Type 0) ⦃ops : Numbers N⦄ where
  -- Of two times "==" holds when they are less than ten seconds apart, "!=" when they are not, ">" when
  -- the first is later by ten seconds or more, and "<" when it is earlier by ten seconds or more.
  pub compare_by-times :
      (t u : TimeIndication)
      → (compare_by {N = N} "==" (time t) (time u) ≡ some (ltb (abs (t -ℤ u)) 10))
        × ((compare_by {N = N} "!=" (time t) (time u) ≡ some (not (ltb (abs (t -ℤ u)) 10)))
            × ((compare_by {N = N} ">" (time t) (time u) ≡ some (leb 10 (pos_part (t -ℤ u))))
                × (compare_by {N = N} "<" (time t) (time u) ≡ some (leb 10 (neg_part (t -ℤ u))))))
  unfolding compare_by compare_time ◌-ℤ◌
  compare_by-times t u = (ground arith, (ground arith, (ground arith, ground arith)))
