-- ===== src/Signals/Loops/Drift.antt =====
-- What a reported parameter drift is, and that every such run is reported.
use plano.Prelude.{
  ℕ, zero, suc, ◌+◌, ◌≤◌, ◌<◌, ◌⊎◌, ltb, leb, true, false, ◌&&◌, List, [], ◌∷◌, ◌++◌, ◌≡◌, refl, ap,
  arith, length, All, Bool-cases, inl, inr, sym,
}
use plano.Signals.Loops.{
  ToolCall, DriftPattern, last_index, same_name, run_of, behind_run, unique_args, drift_from,
  detect_parameter_drift, parameter_drift_threshold,
}
use plano.Signals.Loops.Retry.{
  run_of-append-behind_run, run_of-continues, Stops, behind_run-Stops, length-run_of,
  length-behind_run,
}
use plano.Signals.Loops.Kinds.{Kinds, arguments, unique_args-Kinds}

-- The calls, cut into single calls and reported runs. A reported run has at least three calls,
-- each with the name of the first, is followed by no such call, and its report has the indices of
-- its first and its last call and the number of its different arguments, at least two. The calls in
-- a row from a single call on that have its name are fewer than three, or have the same arguments.
pub data DriftRuns {D : Type 0} : List (ToolCall D) → List DriftPattern → Type 0 where
  done : DriftRuns [] []
  single :
      {rest : List (ToolCall D)} {found : List DriftPattern} {count : ℕ} (c : ToolCall D)
      (run behind : List (ToolCall D))
      → rest ≡ run ++ behind
      → All (λ d. same_name c d ≡ true) run
      → Stops (same_name c) behind
      → Kinds (arguments (c ∷ run)) count
      → (1 + length run < parameter_drift_threshold) ⊎ (count < 2)
      → DriftRuns rest found
      → DriftRuns (c ∷ rest) found
  drift :
      {calls : List (ToolCall D)} {found : List DriftPattern} {count : ℕ} (c : ToolCall D)
      (run behind : List (ToolCall D))
      → calls ≡ c ∷ (run ++ behind)
      → parameter_drift_threshold ≤ 1 + length run
      → All (λ d. same_name c d ≡ true) run
      → Stops (same_name c) behind
      → Kinds (arguments (c ∷ run)) count
      → 2 ≤ count
      → DriftRuns behind found
      → DriftRuns calls (
          record {
            start_index = c.index;
            end_index = last_index c run;
            tool_name = c.name;
            variation_count = count;
          }
          ∷ found)

few_lem : (m n : ℕ) → leb 3 m && leb 2 n ≡ false → (m < 3) ⊎ (n < 2)
few_lem m n h = ground (arith, h)

module _ {D : Type 0} where
  run_Kinds :
      (c : ToolCall D) (run : List (ToolCall D))
      → Kinds (arguments (c ∷ run)) (unique_args (c.args ∷ []) 1 run)
  run_Kinds c run = unique_args-Kinds (c.args ∷ []) (c.args ∷ []) 1 run (refl, tt) (λ t. refl) refl

  single_lem :
      (c : ToolCall D) (rest : List (ToolCall D)) {found : List DriftPattern}
      → (1 + length (run_of (same_name c) rest) < parameter_drift_threshold)
        ⊎ (unique_args (c.args ∷ []) 1 (run_of (same_name c) rest) < 2)
      → DriftRuns rest found
      → DriftRuns (c ∷ rest) found
  single_lem c rest few h =
      let test = same_name c in
      let run = run_of test rest in
      single c run (behind_run test rest) (sym (run_of-append-behind_run test rest))
        (run_of-continues test rest) (behind_run-Stops test rest) (run_Kinds c run) few h

  drift_from-DriftRuns :
      (fuel : ℕ) (calls : List (ToolCall D))
      → length calls ≤ fuel
      → DriftRuns calls (drift_from fuel calls)
  unfolding drift_from
  drift_from-DriftRuns zero [] h = done
  drift_from-DriftRuns zero (c ∷ rest) h = absurd (omega arith)
  drift_from-DriftRuns (suc fuel) [] h = done
  drift_from-DriftRuns (suc fuel) (c ∷ rest) h =
      let test = same_name c in
      let run = run_of test rest in
      let count = unique_args (c.args ∷ []) 1 run in
      elim (Bool-cases (leb 3 (1 + length run) && leb 2 count)) [
        | inl long ↦ rw long (
            drift c run (behind_run test rest)
              (ap (λ t. c ∷ t) (sym (run_of-append-behind_run test rest))) (ground (arith, long))
              (run_of-continues test rest) (behind_run-Stops test rest) (run_Kinds c run)
              (ground (arith, long))
              (drift_from-DriftRuns fuel (behind_run test rest)
                (omega (arith, length-behind_run test rest))))
        | inr short ↦ rw short (
            single_lem c rest (few_lem (1 + length run) count short)
              (drift_from-DriftRuns fuel rest (omega arith)))
      ]

  singles :
      (calls : List (ToolCall D)) → length calls < parameter_drift_threshold → DriftRuns calls []
  singles [] h = done
  singles (c ∷ calls) h =
      single_lem c calls (inl (omega (arith, h, length-run_of (same_name c) calls)))
        (singles calls (omega (arith, h)))

  -- The reported drifts are exactly the disjoint runs, in their order, of at least three calls in a
  -- row with the name of the first, up to the first other call, and with at least two different
  -- arguments, reported by the indices of the first and the last call and by the number of different
  -- arguments: the calls of one name in a row from a call outside of them on are fewer than three or
  -- have the same arguments.
  pub detect_parameter_drift-DriftRuns :
      (calls : List (ToolCall D)) → DriftRuns calls (detect_parameter_drift calls)
  unfolding detect_parameter_drift
  detect_parameter_drift-DriftRuns calls = elim (Bool-cases (ltb (length calls) 3)) [
    | inl few ↦ rw few (singles calls (ground (arith, few)))
    | inr many ↦ rw many (drift_from-DriftRuns (length calls) calls (omega arith))
  ]
