-- ===== src/Signals/Loops/Retry.antt =====
-- What a reported retry loop is, and that every such run is reported.
use plano.Prelude.{
  ℕ, zero, suc, ◌+◌, ◌≤◌, ◌<◌, ltb, leb, Bool, true, false, List, [], ◌∷◌, ◌++◌, ◌≡◌, refl, ap,
  arith, length, All, Bool-cases, inl, inr, sym, leb→le,
}
use plano.Signals.Loops.{
  ToolCall, RetryPattern, last_index, repeats, run_of, behind_run, retry_from, detect_retry,
  retry_threshold,
}

module _ {D : Type 0} (continues : ToolCall D → Bool) where
  pub run_of-append-behind_run :
      (calls : List (ToolCall D)) → run_of continues calls ++ behind_run continues calls ≡ calls
  unfolding run_of behind_run
  run_of-append-behind_run [] = refl
  run_of-append-behind_run (c ∷ cs) = elim (Bool-cases (continues c)) [
    | inl more ↦ rw more (ap (λ t. c ∷ t) (run_of-append-behind_run cs))
    | inr stop ↦ rw stop
  ]

  pub run_of-continues :
      (calls : List (ToolCall D)) → All (λ c. continues c ≡ true) (run_of continues calls)
  unfolding run_of
  run_of-continues [] = tt
  run_of-continues (c ∷ cs) = elim (Bool-cases (continues c)) [
    | inl more ↦ rw more (more, run_of-continues cs)
    | inr stop ↦ rw stop tt
  ]

  abbrev pub Stops : List (ToolCall D) → Type 0
  Stops [] = Unit
  Stops (c ∷ cs) = continues c ≡ false

  pub behind_run-Stops : (calls : List (ToolCall D)) → Stops (behind_run continues calls)
  unfolding behind_run
  behind_run-Stops [] = tt
  behind_run-Stops (c ∷ cs) = elim (Bool-cases (continues c)) [
    | inl more ↦ rw more (behind_run-Stops cs)
    | inr stop ↦ rw stop stop
  ]

  pub length-run_of : (calls : List (ToolCall D)) → length (run_of continues calls) ≤ length calls
  unfolding run_of
  length-run_of [] = omega arith
  length-run_of (c ∷ cs) = ground (arith, length-run_of cs)

  pub length-behind_run :
      (calls : List (ToolCall D)) → length (behind_run continues calls) ≤ length calls
  unfolding behind_run
  length-behind_run [] = omega arith
  length-behind_run (c ∷ cs) = ground (arith, length-behind_run cs)

module _ {D : Type 0} (dict_eq : D → D → Bool) where
  -- The calls, cut into single calls and reported runs. A reported run has at least three calls,
  -- each with the name and the arguments of the first, is followed by no such call, and its report
  -- has the indices of its first and its last call. From a single call on, fewer than three calls
  -- in a row have its name and its arguments.
  pub data RetryRuns : List (ToolCall D) → List RetryPattern → Type 0 where
    done : RetryRuns [] []
    single :
        {rest : List (ToolCall D)} {found : List RetryPattern} (c : ToolCall D)
        (run behind : List (ToolCall D))
        → rest ≡ run ++ behind
        → 1 + length run < retry_threshold
        → All (λ d. repeats dict_eq c d ≡ true) run
        → Stops (repeats dict_eq c) behind
        → RetryRuns rest found
        → RetryRuns (c ∷ rest) found
    retry :
        {calls : List (ToolCall D)} {found : List RetryPattern} (c : ToolCall D)
        (run behind : List (ToolCall D))
        → calls ≡ c ∷ (run ++ behind)
        → retry_threshold ≤ 1 + length run
        → All (λ d. repeats dict_eq c d ≡ true) run
        → Stops (repeats dict_eq c) behind
        → RetryRuns behind found
        → RetryRuns calls (
            record { start_index = c.index; end_index = last_index c run; tool_name = c.name }
            ∷ found)

  single_lem :
      (c : ToolCall D) (rest : List (ToolCall D)) {found : List RetryPattern}
      → 1 + length (run_of (repeats dict_eq c) rest) < retry_threshold
      → RetryRuns rest found
      → RetryRuns (c ∷ rest) found
  single_lem c rest short h =
      let test = repeats dict_eq c in
      single c (run_of test rest) (behind_run test rest) (sym (run_of-append-behind_run test rest))
        short (run_of-continues test rest) (behind_run-Stops test rest) h

  retry_from-RetryRuns :
      (fuel : ℕ) (calls : List (ToolCall D))
      → length calls ≤ fuel
      → RetryRuns calls (retry_from dict_eq fuel calls)
  unfolding retry_from
  retry_from-RetryRuns zero [] h = done
  retry_from-RetryRuns zero (c ∷ rest) h = absurd (omega arith)
  retry_from-RetryRuns (suc fuel) [] h = done
  retry_from-RetryRuns (suc fuel) (c ∷ rest) h =
      let test = repeats dict_eq c in
      elim (Bool-cases (leb 3 (1 + length (run_of test rest)))) [
        | inl long ↦ rw long (
            retry c (run_of test rest) (behind_run test rest)
              (ap (λ t. c ∷ t) (sym (run_of-append-behind_run test rest))) (leb→le 3 _ long)
              (run_of-continues test rest) (behind_run-Stops test rest)
              (retry_from-RetryRuns fuel (behind_run test rest)
                (omega (arith, length-behind_run test rest))))
        | inr short ↦ rw short (
            single_lem c rest (ground (arith, short))
              (retry_from-RetryRuns fuel rest (omega arith)))
      ]

  singles : (calls : List (ToolCall D)) → length calls < retry_threshold → RetryRuns calls []
  singles [] h = done
  singles (c ∷ calls) h =
      single_lem c calls (omega (arith, h, length-run_of (repeats dict_eq c) calls))
        (singles calls (omega (arith, h)))

  -- The reported retry loops are exactly the disjoint runs, in their order, of at least three calls
  -- in a row with the name and the arguments of the first, up to the first other call, reported by
  -- the indices of the first and the last call: from a call outside of them on, fewer than three in
  -- a row have its name and its arguments.
  pub detect_retry-RetryRuns :
      (calls : List (ToolCall D)) → RetryRuns calls (detect_retry dict_eq calls)
  unfolding detect_retry
  detect_retry-RetryRuns calls = elim (Bool-cases (ltb (length calls) 3)) [
    | inl few ↦ rw few (singles calls (ground (arith, few)))
    | inr many ↦ rw many (retry_from-RetryRuns (length calls) calls (omega arith))
  ]
