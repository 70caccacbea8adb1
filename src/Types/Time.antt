-- ===== src/Types/Time.antt =====
-- types/types.go: times with a resolution of a second, and their comparison.
pub mod Calendar
pub mod Layouts
pub mod Parsing
pub mod Rereading
pub mod Clocks
pub mod Daily
use chik.Prelude.{arith, if◌then◌else◌, ltb, ℕ, ◌*◌, ◌+◌, ◌-◌, ◌<◌, ◌^◌, ◌↔◌, ◌≡◌, ◌≤◌}
use chik.Prelude.Int.{abs, ltb_ℤ, neg_part, negsuc, pos, pos_part, sub_ℕ, ℤ, ◌-ℤ◌}

-- Seconds since the epoch, an int64.
abbrev pub TimeIndication : Type 0
TimeIndication = ℤ

abbrev pub second : ℕ
second = 10 ^ 9

-- Go's range of a duration, in nanoseconds.
abbrev pub max_duration : ℕ
max_duration = 2 ^ 63 - 1

abbrev pub nanoseconds : ℤ → ℤ
nanoseconds (pos n) = pos (n * second)
nanoseconds (negsuc n) = negsuc (n * second + (second - 1))

abbrev saturate : ℤ → ℤ
saturate (pos n) = pos (if ltb max_duration n then max_duration else n)
saturate (negsuc n) = negsuc (if ltb max_duration n then max_duration else n)

-- `time.Time.Sub`: the difference in nanoseconds, held to the range of a duration.
unfoldable pub sub_time : TimeIndication → TimeIndication → ℤ
sub_time t o = saturate (nanoseconds (t -ℤ o))

-- `TimeIndication.Compare` with another time.
unfoldable pub compare_time : TimeIndication → TimeIndication → ℤ
unfolding sub_time
compare_time t o =
    let diff = sub_time t o in
    if ltb (abs diff) (10 * second) then pos 0 else if ltb_ℤ (pos 0) diff then pos 1 else negsuc 0

abbrev pub opposite : ℤ → ℤ
opposite a = sub_ℕ (neg_part a) (pos_part a)

-- Exactly one of the three answers is given: 0 for times less than ten seconds apart, 1 for a time at
-- least ten seconds later, -1 for one at least ten seconds earlier.
pub compare_time_iff :
    (t o : TimeIndication)
    → ((compare_time t o ≡ pos 0) ↔ (abs (t -ℤ o) < 10))
      × ((compare_time t o ≡ pos 1) ↔ (10 ≤ pos_part (t -ℤ o)))
      × ((compare_time t o ≡ negsuc 0) ↔ (10 ≤ neg_part (t -ℤ o)))
unfolding compare_time
compare_time_iff t o = (ground arith, ground arith, ground arith)

sub_flip : (t o : ℤ) → o -ℤ t ≡ opposite (t -ℤ o)
unfolding ◌-ℤ◌
sub_flip t o = ground arith

-- Comparing the other way round gives the opposite answer.
pub compare_time_antisym : (t o : TimeIndication) → compare_time o t ≡ opposite (compare_time t o)
unfolding compare_time
compare_time_antisym t o = rw (sub_flip t o) (ground arith)
