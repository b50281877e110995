-- ===== src/Diagnostics/Counting.antt =====
-- The reports of diagnostics.rs count every occurrence once.
use Prim.Native.Nat.{◌+◌, ◌<◌}
use unitree_webrtc_rs.Base.{ℕ, ◌≡◌, Option, none, some, List, [], ◌∷◌, arith}
use unitree_webrtc_rs.Diagnostics.{RepeatState, Report, record_at, take_pending, reset, u64_max}

pub data Step : Type 0 where
  records : ℕ → Step
  flushes : Step
  resets : Step

unfoldable pub run_step : Step → RepeatState → RepeatState × Option Report
unfolding record_at take_pending reset
run_step (records now) s = record_at now s
run_step flushes s = take_pending s
run_step resets s = reset s

abbrev pub counted : Option Report → ℕ
counted none = 0
counted (some (count, suppressed)) = count

abbrev pub occurrences : Step → ℕ
occurrences (records now) = 1
occurrences flushes = 0
occurrences resets = 0

-- The sum over the reports of a history, and its last state.
unfoldable pub reported : List Step → RepeatState → ℕ
unfolding run_step
reported [] s = 0
reported (step ∷ steps) s = counted (run_step step s).1 + reported steps (run_step step s).0

unfoldable pub final : List Step → RepeatState → RepeatState
unfolding run_step
final [] s = s
final (step ∷ steps) s = final steps (run_step step s).0

unfoldable pub recorded : List Step → ℕ
recorded [] = 0
recorded (step ∷ steps) = occurrences step + recorded steps

step-counts :
    (step : Step) (s : RepeatState)
    → s.pending < u64_max
    → counted (run_step step s).1 + (run_step step s).0.pending ≡ occurrences step + s.pending
unfolding run_step record_at take_pending reset
step-counts (records now) s h = ground arith
step-counts flushes s h = ground arith
step-counts resets s h = ground arith

-- Over any history of occurrences, flushes and resets, the reported counts and what is still pending are
-- exactly the occurrences: none is lost and none is reported twice. There are fewer than 2 ^ 64 - 1.
pub reported-recorded :
    (steps : List Step) (s : RepeatState)
    → s.pending + recorded steps < u64_max
    → reported steps s + (final steps s).pending ≡ s.pending + recorded steps
unfolding reported final recorded
reported-recorded [] s h = omega arith
reported-recorded (step ∷ steps) s h =
    let now = step-counts step s (omega (arith, h)) in
    let later = reported-recorded steps (run_step step s).0 (omega (arith, h, now)) in
    omega (arith, now, later)
