-- ===== src/Signals/Loops/Oscillation/Reports.antt =====
-- Every report of `detect_oscillation` is of an oscillation.
use plano.Prelude.{
  ℕ, zero, suc, ◌+◌, ◌-◌, ◌*◌, ltb, leb, Option, some, List, [], ◌∷◌, map, get_elem?, ◌<◌, length,
  take, drop, ◌≡◌, refl, ap, sym, ◌∙◌, arith, Bool-cases, inl, inr,
}
use plano.Signals.Loops.{ToolCall}
use plano.Signals.Loops.Oscillation.{
  Found, OscillationPattern, behind_cycles, oscillation, found_step, min_calls, oscillation_step,
  oscillation_from, oscillations, is_before, insert_sorted, sort_patterns, keep_apart,
  deduplicate_patterns, detect_oscillation,
}
use plano.Signals.Loops.Oscillation.Cycles.{
  Oscillates, IsOscillation, no_pattern, pattern_found, found_from-IsOscillation, length-Oscillates,
}

-- A pattern that is reported of an oscillation in the calls, whose last call is the one at which its
-- cycles are complete.
pub data IsReported {D : Type 0} (calls : List (ToolCall D)) : OscillationPattern → Type 0 where
  reported :
      (n : ℕ) (current : ToolCall D) (rest : List (ToolCall D)) (f : Found)
      → drop n calls ≡ current ∷ rest
      → Oscillates (current ∷ rest) f
      → (last : ToolCall D) → get_elem? (current ∷ rest) (f.cycles * f.pat_len - 1) ≡ some last
      → IsReported calls (record {
        start_index = current.index;
        end_index = last.index;
        pattern_names = map (λ c. c.name) (take f.pat_len (current ∷ rest));
        cycles = f.cycles;
      })

pub data AreReported {D : Type 0} (calls : List (ToolCall D))
    : List OscillationPattern → Type 0 where
  nothing_reported : AreReported calls []
  also :
      {p : OscillationPattern} {patterns : List OscillationPattern}
      → IsReported calls p
      → AreReported calls patterns
      → AreReported calls (p ∷ patterns)

module _ {D : Type 0} where
  same_drop : (a b : ℕ) (l : List (ToolCall D)) → a ≡ b → drop a l ≡ drop b l
  same_drop a b l same = ap (λ n. drop n l) same

  drop-drop : (k n : ℕ) (l : List (ToolCall D)) → drop k (drop n l) ≡ drop (n + k) l
  drop-drop k zero l = same_drop k (0 + k) l (omega arith)
  drop-drop zero (suc n) [] = same_drop (suc n) (suc n + 0) [] (omega arith)
  drop-drop (suc k) (suc n) [] = same_drop (suc (n + suc k)) (suc n + suc k) [] (omega arith)
  drop-drop k (suc n) (c ∷ l) =
      drop-drop k n l ∙ same_drop (suc (n + k)) (suc n + k) (c ∷ l) (omega arith)

  get_elem?-within :
      (l : List (ToolCall D)) (i : ℕ) → i < length l → (c : ToolCall D) × (get_elem? l i ≡ some c)
  get_elem?-within [] i h = absurd (omega (arith, h))
  get_elem?-within (c ∷ l) zero h = (c, refl)
  get_elem?-within (c ∷ l) (suc i) h = get_elem?-within l i (omega (arith, h))

  oscillation-IsReported :
      {calls : List (ToolCall D)} (n : ℕ) (current : ToolCall D) (rest : List (ToolCall D))
      (f : Found)
      → drop n calls ≡ current ∷ rest
      → Oscillates (current ∷ rest) f
      → IsReported calls (oscillation current (current ∷ rest) f)
  oscillation-IsReported n current rest f here osc =
      let (last, found) =
        get_elem?-within (current ∷ rest) (f.cycles * f.pat_len - 1)
          (omega (arith, length-Oscillates osc)) in
      rw found (reported n current rest f here osc last found)

  module _ (calls : List (ToolCall D)) (again : List (ToolCall D) → List OscillationPattern)
      (is : (n : ℕ) → AreReported calls (again (drop n calls))) where
    found_step-AreReported :
        (n : ℕ) (current : ToolCall D) (rest : List (ToolCall D)) {o : Option Found}
        → drop n calls ≡ current ∷ rest
        → IsOscillation (current ∷ rest) o
        → AreReported calls (found_step again current rest o)
    unfolding behind_cycles
    found_step-AreReported n current rest here no_pattern =
        rw (sym (ap (drop 1) here), drop-drop 1 n calls) (is (n + 1))
    found_step-AreReported n current rest here (pattern_found {f = f} osc) =
        also (oscillation-IsReported n current rest f here osc) (
          rw
            (
              sym (ap (drop ((f.cycles - 1) * f.pat_len)) here),
              drop-drop ((f.cycles - 1) * f.pat_len) n calls,
            )
            (is (n + (f.cycles - 1) * f.pat_len)))

    oscillation_step-AreReported :
        (n : ℕ) (l : List (ToolCall D))
        → drop n calls ≡ l
        → AreReported calls (oscillation_step again l)
    unfolding oscillation_step
    oscillation_step-AreReported n [] here = nothing_reported
    oscillation_step-AreReported n (current ∷ rest) here =
        elim (Bool-cases (ltb (length (current ∷ rest)) min_calls)) [
          | inl few ↦ rw few nothing_reported
          | inr many ↦ rw many (
              found_step-AreReported n current rest here
                (found_from-IsOscillation (current ∷ rest)))
        ]

  oscillation_from-AreReported :
      (fuel n : ℕ) (calls : List (ToolCall D))
      → AreReported calls (oscillation_from fuel (drop n calls))
  unfolding oscillation_from
  oscillation_from-AreReported zero n calls = nothing_reported
  oscillation_from-AreReported (suc fuel) n calls =
      oscillation_step-AreReported calls (oscillation_from fuel)
        (λ m. oscillation_from-AreReported fuel m calls) n (drop n calls) refl

  insert_sorted-AreReported :
      {calls : List (ToolCall D)} {p : OscillationPattern} {patterns : List OscillationPattern}
      → IsReported calls p
      → AreReported calls patterns
      → AreReported calls (insert_sorted p patterns)
  unfolding insert_sorted
  insert_sorted-AreReported i nothing_reported = also i nothing_reported
  insert_sorted-AreReported {p = p} i (also {p = q} j rest) = elim (Bool-cases (is_before p q)) [
    | inl e ↦ rw e (also i (also j rest))
    | inr e ↦ rw e (also j (insert_sorted-AreReported i rest))
  ]

  sort_patterns-AreReported :
      {calls : List (ToolCall D)} {patterns : List OscillationPattern}
      → AreReported calls patterns
      → AreReported calls (sort_patterns patterns)
  unfolding sort_patterns
  sort_patterns-AreReported nothing_reported = nothing_reported
  sort_patterns-AreReported (also i rest) =
      insert_sorted-AreReported i (sort_patterns-AreReported rest)

  keep_apart-AreReported :
      {calls : List (ToolCall D)} {patterns : List OscillationPattern} (last_end : ℕ)
      → AreReported calls patterns
      → AreReported calls (keep_apart last_end patterns)
  unfolding keep_apart
  keep_apart-AreReported last_end nothing_reported = nothing_reported
  keep_apart-AreReported last_end (also {p = q} i rest) =
      elim (Bool-cases (leb last_end q.start_index)) [
        | inl e ↦ simp e (also i (keep_apart-AreReported (q.end_index + 1) rest))
        | inr e ↦ simp e (keep_apart-AreReported last_end rest)
      ]

  -- What is reported as an oscillation is one: the calls from some index on begin with three cycles
  -- or more of a pattern of two to five calls with two names at least, and the report has the pattern,
  -- the cycles and the indices of the first and the last call.
  pub detect_oscillation-AreReported :
      (calls : List (ToolCall D)) → AreReported calls (detect_oscillation calls)
  unfolding detect_oscillation oscillations deduplicate_patterns
  detect_oscillation-AreReported calls =
      let all = oscillation_from-AreReported (length calls) 0 calls in
      elim (Bool-cases (ltb 1 (length (oscillations calls)))) [
        | inl several ↦ rw several (keep_apart-AreReported 0 (sort_patterns-AreReported all))
        | inr few ↦ rw few all
      ]
