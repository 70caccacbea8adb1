-- ===== src/Tests/Holders.antt =====
-- Tests of the status holder and the heartbeat.
use chik.Heartbeat.{handle_message}
use chik.Prelude.Tests.{nat_eq}
use chik.Heartbeat.{stop}
use chik.Prelude.{[], arith, map, none, refl, some, ℕ, ◌∷◌, ◌≡◌}
use chik.Heartbeat.{Heartbeat, beat, handle_timer, stop_after_silence, ticks}
use chik.Json.{num}
use chik.StatusHolder.{StatusHolder, changes, emit_status_changed, set_all, set_all-changes}
use chik.Tests.Samples.{message_of, nat_numbers}

abbrev holder : StatusHolder ℕ
holder = record { status = some 1; module_name = "io" }

changes_tests :
    (changes {A = ℕ} none (1 ∷ 1 ∷ 2 ∷ 1 ∷ []) ≡ 1 ∷ 2 ∷ 1 ∷ [])
    × (changes {A = ℕ} (some 1) (1 ∷ 2 ∷ []) ≡ 2 ∷ [])
unfolding changes
changes_tests = (refl, refl)

set_all-changes_example :
    (set_all num (1 ∷ 1 ∷ 2 ∷ []) holder).1
    ≡ map (emit_status_changed num "io") (changes (some 1) (1 ∷ 1 ∷ 2 ∷ []))
set_all-changes_example = set_all-changes num (1 ∷ 1 ∷ 2 ∷ []) holder

-- A peer that sent its last heartbeat after 12 silent ticks, and then is silent.
abbrev beating : Heartbeat
beating = record { errors = 12; remote_id = 7 }

stop_after_silence_example :
    (handle_timer {N = ℕ}
      (ticks {N = ℕ} 299 (handle_message beating (message_of 7 1 0)).state).0).sent
    ≡ beat 7 ∷ stop 7 ∷ []
stop_after_silence_example =
    stop_after_silence 299 beating (message_of 7 1 0) refl refl (omega arith)
