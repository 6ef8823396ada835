-- ===== src/Signals/Loops/Oscillation/Cycles.antt =====
-- What is reported as an oscillation is one.
use native.Mathlib.Nat.{suc-mul}
use plano.Prelude.{
  ◌≢◌, ◌||◌, not, any, eq_iff, false, ◌++◌, str_eq, ℕ, zero, suc, ◌+◌, ◌-◌, ◌*◌, ◌≤◌, length-drop,
  leb, Bool, true, ◌&&◌, Option, none, some, List, [], ◌∷◌, length, drop, ◌≡◌, refl, ap, sym, ◌∙◌,
  arith, Bool-cases, inl, inr, String,
}
use plano.Signals.Loops.{ToolCall}
use plano.Signals.Loops.Oscillation.{
  Found, has_two_names, pattern_of, all_match, cycles_behind, found_at, or_found, first_found,
  found_from,
}

-- Calls that begin with a number of cycles of the names.
pub data Cycles {D : Type 0} (names : List String) : ℕ → List (ToolCall D) → Type 0 where
  no_more : {calls : List (ToolCall D)} → Cycles names 0 calls
  cycle :
      {n : ℕ} {calls : List (ToolCall D)}
      → pattern_of (length names) calls ≡ names
      → Cycles names n (drop (length names) calls)
      → Cycles names (suc n) calls

-- Names that are not all the same.
pub data HasTwo : List String → Type 0 where
  two_names :
      (n m : String) (between after : List String) → n ≢ m → HasTwo (n ∷ between ++ m ∷ after)

-- Calls that begin with an oscillation: two to five calls of two names at least, three times or more.
pub record Oscillates {D : Type 0} (calls : List (ToolCall D)) (f : Found) : Type 0 where
  pub two : 2 ≤ f.pat_len
  pub five : f.pat_len ≤ 5
  pub often : 3 ≤ f.cycles
  pub names : HasTwo (pattern_of f.pat_len calls)
  pub behind : Cycles (pattern_of f.pat_len calls) (f.cycles - 1) (drop f.pat_len calls)

left_of : (a b : Bool) → a && b ≡ true → a ≡ true
left_of a b h = ground arith

right_of : (a b : Bool) → a && b ≡ true → b ≡ true
right_of a b h = ground arith

different_lem : (b : Bool) → not b ≡ true → b ≡ true → ⊥
different_lem b h k = ground arith

right_any : (a b : Bool) → a ≡ false → a || b ≡ true → b ≡ true
right_any a b h k = ground arith

not_same : (m n : String) → not (str_eq m n) ≡ true → n ≢ m
not_same m n h = λ same. different_lem (str_eq m n) h ((eq_iff m n).1 (sym same))

-- A name that differs from the first one is somewhere behind it.
other_name :
    (n : String) (names : List String)
    → any (λ m. not (str_eq m n)) names ≡ true
    → (between : List String) × (m : String) × (after : List String) × (n ≢ m)
      × (names ≡ between ++ m ∷ after)
other_name n [] h = ground arith
other_name n (m ∷ names) h = elim (Bool-cases (not (str_eq m n))) [
  | inl e ↦ ([], m, names, not_same m n e, refl)
  | inr e ↦
      let (between, k, after, apart, is) = other_name n names (right_any _ _ e h) in
      (m ∷ between, k, after, apart, ap (λ l. m ∷ l) is)
]

has_two_names-HasTwo : (names : List String) → has_two_names names ≡ true → HasTwo names
unfolding has_two_names
has_two_names-HasTwo [] h = ground arith
has_two_names-HasTwo (n ∷ names) h =
    let (between, m, after, apart, is) = other_name n names h in
    rw is (two_names n m between after apart)

module _ {D : Type 0} where
  -- The calls that match are those of the pattern.
  all_match-pattern_of :
      (names : List String) (calls : List (ToolCall D))
      → all_match names calls ≡ true
      → pattern_of (length names) calls ≡ names
  unfolding all_match
  all_match-pattern_of [] calls h = refl
  all_match-pattern_of (n ∷ names) [] h = ground arith
  all_match-pattern_of (n ∷ names) (c ∷ calls) h =
      ap (λ m. m ∷ pattern_of (length names) calls) ((eq_iff c.name n).0 (left_of _ _ h))
      ∙ ap (λ l. n ∷ l) (all_match-pattern_of names calls (right_of _ _ h))

  cycles_behind-Cycles :
      (fuel : ℕ) (names : List String) (calls : List (ToolCall D))
      → Cycles names (cycles_behind fuel names calls) calls
  unfolding cycles_behind
  cycles_behind-Cycles zero names calls = no_more
  cycles_behind-Cycles (suc fuel) names calls = elim (Bool-cases (all_match names calls)) [
    | inl e ↦ rw e (
        cycle (all_match-pattern_of names calls e)
          (cycles_behind-Cycles fuel names (drop (length names) calls)))
    | inr e ↦ rw e no_more
  ]

-- A pattern that is found, if one is.
pub data IsOscillation {D : Type 0} (calls : List (ToolCall D)) : Option Found → Type 0 where
  no_pattern : IsOscillation calls none
  pattern_found : {f : Found} → Oscillates calls f → IsOscillation calls (some f)

three_cycles : (two : Bool) (cycles : ℕ) → two && leb 3 cycles ≡ true → 3 ≤ cycles
three_cycles two cycles h = ground arith

one_less : (m : ℕ) → (1 + m) - 1 ≡ m
one_less m = omega arith

some_name : {names : List String} → HasTwo names → 1 ≤ length names
some_name (two_names n m between after apart) = omega arith

one_more : (n : ℕ) → 3 ≤ n → n ≡ suc (n - 1)
one_more n h = omega (arith, h)

module _ {D : Type 0} where
  found_at-IsOscillation :
      (pat_len : ℕ) (calls : List (ToolCall D))
      → 2 ≤ pat_len
      → pat_len ≤ 5
      → IsOscillation calls (found_at pat_len calls)
  unfolding found_at
  found_at-IsOscillation pat_len calls two five =
      let names = pattern_of pat_len calls in
      let more = cycles_behind (length calls) names (drop pat_len calls) in
      elim (Bool-cases (has_two_names names && leb 3 (1 + more))) [
        | inl e ↦ rw e (
            pattern_found (record {
              two = two;
              five = five;
              often = three_cycles (has_two_names names) (1 + more) e;
              names = has_two_names-HasTwo names (left_of _ _ e);
              behind =
                  rw (one_less more)
                    (cycles_behind-Cycles (length calls) names (drop pat_len calls));
            }))
        | inr e ↦ rw e no_pattern
      ]

  or_found-IsOscillation :
      {calls : List (ToolCall D)} {o rest : Option Found}
      → IsOscillation calls o
      → IsOscillation calls rest
      → IsOscillation calls (or_found o rest)
  or_found-IsOscillation no_pattern h = h
  or_found-IsOscillation (pattern_found f) h = pattern_found f

  first_found-IsOscillation :
      (pat_len left : ℕ) (calls : List (ToolCall D))
      → 2 ≤ pat_len
      → pat_len + left ≤ 6
      → IsOscillation calls (first_found pat_len left calls)
  unfolding first_found
  first_found-IsOscillation pat_len zero calls two six = no_pattern
  first_found-IsOscillation pat_len (suc left) calls two six =
      or_found-IsOscillation (found_at-IsOscillation pat_len calls two (omega (arith, six))) (
        first_found-IsOscillation (pat_len + 1) left calls (omega (arith, two))
          (omega (arith, six)))

  pub found_from-IsOscillation :
      (calls : List (ToolCall D)) → IsOscillation calls (found_from calls)
  unfolding found_from
  found_from-IsOscillation calls = first_found-IsOscillation 2 _ calls (omega arith) (omega arith)

  length-pattern_of :
      (k : ℕ) (calls : List (ToolCall D)) → length (pattern_of k calls) ≤ length calls
  length-pattern_of zero calls = omega arith
  length-pattern_of (suc k) [] = omega arith
  length-pattern_of (suc k) (c ∷ calls) = omega (arith, length-pattern_of k calls)

  length-pattern_of_within :
      (k : ℕ) (calls : List (ToolCall D)) → k ≤ length calls → length (pattern_of k calls) ≡ k
  length-pattern_of_within zero calls h = refl
  length-pattern_of_within (suc k) [] h = absurd (omega (arith, h))
  length-pattern_of_within (suc k) (c ∷ calls) h =
      ap suc (length-pattern_of_within k calls (omega (arith, h)))

  at_least_names :
      (names : List String) (calls : List (ToolCall D))
      → pattern_of (length names) calls ≡ names
      → length names ≤ length calls
  at_least_names names calls same =
      omega (arith, ap length same, length-pattern_of (length names) calls)

  first_cycle :
      {names : List String} {n : ℕ} {calls : List (ToolCall D)}
      → Cycles names n calls
      → 1 ≤ n
      → length names ≤ length calls
  first_cycle no_more h = absurd (omega (arith, h))
  first_cycle {names} {calls = calls} (cycle same rest) h = at_least_names names calls same

  length-Cycles :
      {names : List String} {n : ℕ} {calls : List (ToolCall D)}
      → Cycles names n calls
      → n * length names ≤ length calls
  length-Cycles no_more = omega arith
  length-Cycles {names} {calls = calls} (cycle {n} same rest) = omega (
    arith,
    suc-mul n (length names),
    at_least_names names calls same,
    length-Cycles rest,
    length-drop {0} (length names) calls,
  )

  -- The calls of an oscillation are all there.
  pub length-Oscillates :
      {calls : List (ToolCall D)} {f : Found}
      → Oscillates calls f
      → f.cycles * f.pat_len ≤ length calls
  length-Oscillates {calls} {f} osc =
      let names = pattern_of f.pat_len calls in
      let first = first_cycle osc.behind (omega (arith, osc.often)) in
      let inside : f.pat_len ≤ length calls =
        omega (arith, first, some_name osc.names, length-drop {0} f.pat_len calls) in
      let exact = length-pattern_of_within f.pat_len calls inside in
      let counted : f.cycles * f.pat_len ≡ (f.cycles - 1) * f.pat_len + f.pat_len =
        ap (λ n. n * f.pat_len) (one_more f.cycles osc.often) ∙ suc-mul (f.cycles - 1) f.pat_len in
      let rest : (f.cycles - 1) * f.pat_len ≤ length (drop f.pat_len calls) =
        rw exact at (length-Cycles osc.behind) in
      omega (arith, counted, rest, length-drop {0} f.pat_len calls, inside)
