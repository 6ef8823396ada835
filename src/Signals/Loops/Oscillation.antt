-- ===== src/Signals/Loops/Oscillation.antt =====
-- Alternating tool calls: `detect_oscillation` and `deduplicate_patterns` of
-- signals/execution/loops.rs. The calls from an index on stand for the index.
pub mod Fuel
pub mod Cycles
pub mod Reports
use plano.Prelude.{
  ℕ, zero, suc, ◌+◌, ◌-◌, ◌*◌, ltb, leb, ◌==◌, Bool, true, false, not, ◌&&◌, ◌||◌, Option, none,
  some, List, [], ◌∷◌, map, any, length, take, drop, get_elem?, String, str_eq, if◌then◌else◌,
}
use Prim.Native.Nat.{min}
use plano.Signals.Loops.{ToolCall}

abbrev pub oscillation_cycles_threshold : ℕ
oscillation_cycles_threshold = 3

abbrev pub min_calls : ℕ
min_calls = 6

pub record OscillationPattern : Type 0 where
  pub start_index : ℕ
  pub end_index : ℕ
  pub pattern_names : List String
  pub cycles : ℕ

-- A pattern at an index: its length and its cycles.
pub record Found : Type 0 where
  pub pat_len : ℕ
  pub cycles : ℕ

-- `unique.len() >= 2`
unfoldable pub has_two_names : List String → Bool
has_two_names [] = false
has_two_names (n ∷ names) = any (λ m. not (str_eq m n)) names

abbrev pub or_found : Option Found → Option Found → Option Found
or_found none rest = rest
or_found (some f) rest = some f

module _ {D : Type 0} where
  abbrev pub pattern_of : ℕ → List (ToolCall D) → List String
  pattern_of pat_len calls = map (λ c. c.name) (take pat_len calls)

  -- Whether the next calls have the names of the pattern; false at the end of the calls.
  unfoldable pub all_match : List String → List (ToolCall D) → Bool
  all_match [] calls = true
  all_match (n ∷ ns) [] = false
  all_match (n ∷ ns) (c ∷ calls) = str_eq c.name n && all_match ns calls

  -- The cycles behind the first one; the fuel is the number of calls, and a cycle takes one at least.
  unfoldable pub cycles_behind : ℕ → List String → List (ToolCall D) → ℕ
  cycles_behind zero names calls = 0
  cycles_behind (suc fuel) names calls =
      let more = cycles_behind fuel names (drop (length names) calls) in
      if all_match names calls then suc more else 0

  unfoldable pub found_at : ℕ → List (ToolCall D) → Option Found
  found_at pat_len calls =
      let names = pattern_of pat_len calls in
      let cycles = 1 + cycles_behind (length calls) names (drop pat_len calls) in
      if has_two_names names && leb oscillation_cycles_threshold cycles
      then some (record { pat_len = pat_len; cycles = cycles })
      else none

  -- The first length that gives a pattern, from a length on, by the lengths that are left.
  unfoldable pub first_found : ℕ → ℕ → List (ToolCall D) → Option Found
  first_found pat_len zero calls = none
  first_found pat_len (suc left) calls =
      or_found (found_at pat_len calls) (first_found (pat_len + 1) left calls)

  unfoldable pub found_from : List (ToolCall D) → Option Found
  found_from calls = first_found 2 (min 5 (length calls) - 1) calls

  abbrev pub index_or_zero : Option (ToolCall D) → ℕ
  index_or_zero none = 0
  index_or_zero (some c) = c.index

  abbrev pub oscillation : ToolCall D → List (ToolCall D) → Found → OscillationPattern
  oscillation current calls f = record {
    start_index = current.index;
    end_index = index_or_zero (get_elem? calls (f.cycles * f.pat_len - 1));
    pattern_names = pattern_of f.pat_len calls;
    cycles = f.cycles;
  }

  -- The next round starts at the last cycle.
  unfoldable pub behind_cycles : Found → List (ToolCall D) → List (ToolCall D)
  behind_cycles f calls = drop ((f.cycles - 1) * f.pat_len) calls

  abbrev pub found_step :
      (List (ToolCall D) → List OscillationPattern)
      → ToolCall D
      → List (ToolCall D)
      → Option Found
      → List OscillationPattern
  found_step again current rest none = again rest
  found_step again current rest (some f) =
      oscillation current (current ∷ rest) f ∷ again (behind_cycles f (current ∷ rest))

  -- A round of the outer loop, before the other rounds.
  unfoldable pub oscillation_step :
      (List (ToolCall D) → List OscillationPattern) → List (ToolCall D) → List OscillationPattern
  oscillation_step again [] = []
  oscillation_step again (current ∷ rest) =
      if ltb (length (current ∷ rest)) min_calls
      then []
      else found_step again current rest (found_from (current ∷ rest))

  unfoldable pub oscillation_from : ℕ → List (ToolCall D) → List OscillationPattern
  oscillation_from zero calls = []
  oscillation_from (suc fuel) calls = oscillation_step (oscillation_from fuel) calls

  -- The rounds, with the number of calls as fuel.
  unfoldable pub oscillations : List (ToolCall D) → List OscillationPattern
  oscillations calls = oscillation_from (length calls) calls

-- Whether a pattern is sorted before another: by its start, and longer ones first.
abbrev pub is_before : OscillationPattern → OscillationPattern → Bool
is_before a b =
    ltb a.start_index b.start_index
    || ((a.start_index == b.start_index)
        && leb (b.end_index - b.start_index) (a.end_index - a.start_index))

unfoldable pub insert_sorted :
    OscillationPattern → List OscillationPattern → List OscillationPattern
insert_sorted a [] = a ∷ []
insert_sorted a (b ∷ patterns) =
    let rest = insert_sorted a patterns in if is_before a b then a ∷ b ∷ patterns else b ∷ rest

unfoldable pub sort_patterns : List OscillationPattern → List OscillationPattern
sort_patterns [] = []
sort_patterns (a ∷ patterns) = insert_sorted a (sort_patterns patterns)

-- The patterns that start behind the last one kept; `last_end` is one more than the end of it.
unfoldable pub keep_apart : ℕ → List OscillationPattern → List OscillationPattern
keep_apart last_end [] = []
keep_apart last_end (p ∷ patterns) =
    let kept = keep_apart (p.end_index + 1) patterns in
    let rest = keep_apart last_end patterns in if leb last_end p.start_index then p ∷ kept else rest

unfoldable pub deduplicate_patterns : List OscillationPattern → List OscillationPattern
deduplicate_patterns patterns = keep_apart 0 (sort_patterns patterns)

unfoldable pub detect_oscillation : {D : Type 0} → List (ToolCall D) → List OscillationPattern
detect_oscillation calls =
    let patterns = oscillations calls in
    if ltb 1 (length patterns) then deduplicate_patterns patterns else patterns
