-- ===== src/Signals/Loops/Examples.antt =====
-- The theorems at concrete calls, and runs of the detectors; a number stands for a JSON map.
use plano.Prelude.{ℕ, ◌==◌, none, List, [], ◌∷◌, ◌≡◌, refl, String}
use plano.Signals.Loops.{
  ToolCall, detect_retry, detect_parameter_drift, repeats, args_equal, same_name, retry_from,
  drift_from, run_of, behind_run, unique_args,
}
use plano.Signals.Loops.Oscillation.{oscillations, oscillation_step, detect_oscillation}
use plano.Signals.Loops.Oscillation.Fuel.{oscillations-step}
use plano.Signals.Loops.Oscillation.Reports.{AreReported, detect_oscillation-AreReported}
use plano.Signals.Loops.Retry.{RetryRuns, detect_retry-RetryRuns}
use plano.Signals.Loops.Drift.{DriftRuns, detect_parameter_drift-DriftRuns}

abbrev call : ℕ → String → String → ToolCall ℕ
call i name args = record { index = i; name = name; args = args; args_dict = none }

abbrev calls : List (ToolCall ℕ)
calls =
    call 1 "look" "a"
    ∷ call 3 "find" "x"
    ∷ call 5 "find" "x"
    ∷ call 7 "find" "x"
    ∷ call 9 "stop" ""
    ∷ []

abbrev varied : List (ToolCall ℕ)
varied =
    call 1 "look" "a"
    ∷ call 3 "find" "x"
    ∷ call 5 "find" "x"
    ∷ call 7 "find" "y"
    ∷ call 9 "stop" ""
    ∷ []

retries_found :
    detect_retry ◌==◌ calls ≡ record { start_index = 3; end_index = 7; tool_name = "find" } ∷ []
unfolding detect_retry retry_from run_of behind_run repeats args_equal
retries_found = refl

drifts_found :
    detect_parameter_drift varied
    ≡ record { start_index = 3; end_index = 7; tool_name = "find"; variation_count = 2 } ∷ []
unfolding detect_parameter_drift drift_from run_of behind_run same_name unique_args
drifts_found = refl

no_drift : detect_parameter_drift calls ≡ []
unfolding detect_parameter_drift drift_from run_of behind_run same_name unique_args
no_drift = refl

detect_retry-RetryRuns_example : RetryRuns ◌==◌ calls (detect_retry ◌==◌ calls)
detect_retry-RetryRuns_example = detect_retry-RetryRuns ◌==◌ calls

detect_parameter_drift-DriftRuns_example : DriftRuns varied (detect_parameter_drift varied)
detect_parameter_drift-DriftRuns_example = detect_parameter_drift-DriftRuns varied

-- Two calls in turn, three times.
abbrev alternating : List (ToolCall ℕ)
alternating =
    call 1 "read" "a"
    ∷ call 3 "write" "a"
    ∷ call 5 "read" "b"
    ∷ call 7 "write" "b"
    ∷ call 9 "read" "c"
    ∷ call 11 "write" "c"
    ∷ call 13 "stop" ""
    ∷ []

oscillations-step_example : oscillations alternating ≡ oscillation_step oscillations alternating
oscillations-step_example = oscillations-step alternating

detect_oscillation-AreReported_example : AreReported alternating (detect_oscillation alternating)
detect_oscillation-AreReported_example = detect_oscillation-AreReported alternating
