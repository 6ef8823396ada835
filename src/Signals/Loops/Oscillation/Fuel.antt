-- ===== src/Signals/Loops/Oscillation/Fuel.antt =====
-- The outer loop of `detect_oscillation` ends: every round goes on behind where it started.
use plano.Prelude.{
  ℕ, zero, suc, ◌+◌, ◌-◌, ◌*◌, ◌≤◌, ◌<◌, ltb, leb, Bool, true, ◌&&◌, Option, none, some, List, [],
  ◌∷◌, length, drop, length-drop, ◌≡◌, refl, ap, arith, Bool-cases, inl, inr,
}
use plano.Signals.Loops.{ToolCall}
use plano.Signals.Loops.Oscillation.{
  OscillationPattern, Found, has_two_names, pattern_of, cycles_behind, min_calls, found_at,
  or_found, first_found, found_from, behind_cycles, oscillation, found_step, oscillation_step,
  oscillation_from, oscillations,
}

mul_pos : (a b : ℕ) → 1 ≤ a → 1 ≤ b → 1 ≤ a * b
mul_pos zero b h k = omega (arith, h)
mul_pos (suc a) zero h k = omega (arith, k)
mul_pos (suc a) (suc b) h k = ground arith

-- A pattern that is no shorter than a length, with more than one cycle.
data IsLong (pat_len : ℕ) : Option Found → Type 0 where
  no_pattern : IsLong pat_len none
  long : {f : Found} → pat_len ≤ f.pat_len → 2 ≤ f.cycles → IsLong pat_len (some f)

weaker-IsLong : {o : Option Found} (n m : ℕ) → n ≤ m → IsLong m o → IsLong n o
weaker-IsLong n m le no_pattern = no_pattern
weaker-IsLong n m le (long len cycles) = long (omega (arith, le, len)) cycles

or_found-IsLong :
    {o rest : Option Found} (n : ℕ) → IsLong n o → IsLong n rest → IsLong n (or_found o rest)
or_found-IsLong n no_pattern h = h
or_found-IsLong n (long len cycles) h = long len cycles

two_cycles : (two : Bool) (cycles : ℕ) → two && leb 3 cycles ≡ true → 2 ≤ cycles
two_cycles two cycles h = ground arith

-- The loop goes on behind its start.
behind_start : (c p : ℕ) → 2 ≤ p → 2 ≤ c → 1 ≤ (c - 1) * p
behind_start c p len cycles = mul_pos (c - 1) p (omega (arith, cycles)) (omega (arith, len))

module _ {D : Type 0} where
  found_at-IsLong :
      (pat_len : ℕ) (calls : List (ToolCall D)) → IsLong pat_len (found_at pat_len calls)
  unfolding found_at
  found_at-IsLong pat_len calls =
      let names = pattern_of pat_len calls in
      let cycles = 1 + cycles_behind (length calls) names (drop pat_len calls) in
      elim (Bool-cases (has_two_names names && leb 3 cycles)) [
        | inl e ↦ rw e (long (omega arith) (two_cycles (has_two_names names) cycles e))
        | inr e ↦ rw e no_pattern
      ]

  first_found-IsLong :
      (pat_len left : ℕ) (calls : List (ToolCall D))
      → IsLong pat_len (first_found pat_len left calls)
  unfolding first_found
  first_found-IsLong pat_len zero calls = no_pattern
  first_found-IsLong pat_len (suc left) calls =
      or_found-IsLong pat_len (found_at-IsLong pat_len calls) (
        weaker-IsLong pat_len (pat_len + 1) (omega arith)
          (first_found-IsLong (pat_len + 1) left calls))

  found_from-IsLong : (calls : List (ToolCall D)) → IsLong 2 (found_from calls)
  unfolding found_from
  found_from-IsLong calls = first_found-IsLong 2 _ calls

  -- Two ways to go on that agree on fewer calls.
  abbrev AgreeBelow :
      ℕ
      → (List (ToolCall D) → List OscillationPattern)
      → (List (ToolCall D) → List OscillationPattern)
      → Type 0
  AgreeBelow n again again' = (l : List (ToolCall D)) → length l < n → again l ≡ again' l

  found_step_cong :
      (again again' : List (ToolCall D) → List OscillationPattern) (current : ToolCall D)
      (rest : List (ToolCall D)) {o : Option Found}
      → IsLong 2 o
      → AgreeBelow (length (current ∷ rest)) again again'
      → found_step again current rest o ≡ found_step again' current rest o
  unfolding behind_cycles
  found_step_cong again again' current rest no_pattern h = h rest (omega arith)
  found_step_cong again again' current rest (long {f} len cycles) h =
      ap (λ l. oscillation current (current ∷ rest) f ∷ l)
        (h (drop ((f.cycles - 1) * f.pat_len) (current ∷ rest)) (
          omega (
            arith,
            length-drop ((f.cycles - 1) * f.pat_len) (current ∷ rest),
            behind_start f.cycles f.pat_len len cycles,
          )))

  oscillation_step_cong :
      (again again' : List (ToolCall D) → List OscillationPattern) (calls : List (ToolCall D))
      → AgreeBelow (length calls) again again'
      → oscillation_step again calls ≡ oscillation_step again' calls
  unfolding oscillation_step
  oscillation_step_cong again again' [] h = refl
  oscillation_step_cong again again' (current ∷ rest) h =
      elim (Bool-cases (ltb (length (current ∷ rest)) min_calls)) [
        | inl few ↦ rw few refl
        | inr many ↦
            rw many
              (found_step_cong again again' current rest (found_from-IsLong (current ∷ rest)) h)
      ]

  -- With fuel for every call, more fuel changes nothing.
  oscillation_from-enough :
      (fuel more : ℕ) (calls : List (ToolCall D))
      → length calls ≤ fuel
      → length calls ≤ more
      → oscillation_from fuel calls ≡ oscillation_from more calls
  unfolding oscillation_from oscillation_step
  oscillation_from-enough zero zero calls h k = refl
  oscillation_from-enough zero (suc more) [] h k = refl
  oscillation_from-enough zero (suc more) (c ∷ calls) h k = ground arith
  oscillation_from-enough (suc fuel) zero [] h k = refl
  oscillation_from-enough (suc fuel) zero (c ∷ calls) h k = ground arith
  oscillation_from-enough (suc fuel) (suc more) calls h k =
      oscillation_step_cong (oscillation_from fuel) (oscillation_from more) calls (λ l fewer.
        oscillation_from-enough fuel more l (omega (arith, h, fewer)) (omega (arith, k, fewer)))

  -- The outer loop ends: with the number of calls as its fuel, what it finds is what one round finds
  -- that goes on with the loop itself, without any fuel.
  pub oscillations-step :
      (calls : List (ToolCall D)) → oscillations calls ≡ oscillation_step oscillations calls
  unfolding oscillations oscillation_from oscillation_step
  oscillations-step [] = refl
  oscillations-step (current ∷ rest) =
      oscillation_step_cong (oscillation_from (length rest)) oscillations (current ∷ rest)
        (λ l fewer.
          oscillation_from-enough (length rest) (length l) l (omega (arith, fewer)) (omega arith))
