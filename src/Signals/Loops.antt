-- ===== src/Signals/Loops.antt =====
-- Repeated tool calls: `detect_retry` and `detect_parameter_drift` of signals/execution/loops.rs.
-- The calls from an index on stand for the index.
pub mod Retry
pub mod Kinds
pub mod Drift
pub mod Oscillation
mod Examples
use plano.Prelude.{
  ℕ, zero, suc, ◌+◌, ltb, leb, ◌==◌, Bool, true, false, not, ◌&&◌, ◌||◌, Option, none, some, List,
  [], ◌∷◌, ◌++◌, any, length, null, String, str_eq, if◌then◌else◌,
}

abbrev pub retry_threshold : ℕ
retry_threshold = 3

abbrev pub parameter_drift_threshold : ℕ
parameter_drift_threshold = 3

-- `D` is the type of JSON maps.
pub record ToolCall (D : Type 0) : Type 0 where
  pub index : ℕ
  pub name : String
  pub args : String
  pub args_dict : Option D

pub record RetryPattern : Type 0 where
  pub start_index : ℕ
  pub end_index : ℕ
  pub tool_name : String

pub record DriftPattern : Type 0 where
  pub start_index : ℕ
  pub end_index : ℕ
  pub tool_name : String
  pub variation_count : ℕ

-- The index of the last call of a run.
abbrev pub last_index : {D : Type 0} → ToolCall D → List (ToolCall D) → ℕ
last_index c [] = c.index
last_index c (d ∷ run) = last_index d run

-- `dict_eq` is the equality of JSON maps.
module _ {D : Type 0} (dict_eq : D → D → Bool) where
  abbrev pub same_args : Option D → Option D → String → String → Bool
  same_args (some a) (some b) s t = dict_eq a b
  same_args _ _ s t = str_eq s t

  unfoldable pub args_equal : ToolCall D → ToolCall D → Bool
  args_equal c other = same_args c.args_dict other.args_dict c.args other.args

  -- The test of the inner loop.
  unfoldable pub repeats : ToolCall D → ToolCall D → Bool
  repeats current c = str_eq c.name current.name && args_equal c current

-- The inner loops: the calls that continue a run, and those behind it.
module _ {D : Type 0} (continues : ToolCall D → Bool) where
  unfoldable pub run_of : List (ToolCall D) → List (ToolCall D)
  run_of [] = []
  run_of (c ∷ cs) = if continues c then c ∷ run_of cs else []

  unfoldable pub behind_run : List (ToolCall D) → List (ToolCall D)
  behind_run [] = []
  behind_run (c ∷ cs) = if continues c then behind_run cs else c ∷ cs

module _ {D : Type 0} (dict_eq : D → D → Bool) where
  -- The outer loop, with fuel.
  unfoldable pub retry_from : ℕ → List (ToolCall D) → List RetryPattern
  retry_from zero calls = []
  retry_from (suc fuel) [] = []
  retry_from (suc fuel) (current ∷ rest) =
      let run = run_of (repeats dict_eq current) rest in
      let jump = retry_from fuel (behind_run (repeats dict_eq current) rest) in
      let next = retry_from fuel rest in
      if leb retry_threshold (1 + length run)
      then record {
        start_index = current.index;
        end_index = last_index current run;
        tool_name = current.name;
      }
        ∷ jump
      else next

  unfoldable pub detect_retry : List (ToolCall D) → List RetryPattern
  detect_retry calls =
      if ltb (length calls) retry_threshold then [] else retry_from (length calls) calls

-- The arguments seen so far and, with those of the run, how many differ.
unfoldable pub unique_args : {D : Type 0} → List String → ℕ → List (ToolCall D) → ℕ
unique_args seen count [] = count
unique_args seen count (c ∷ cs) =
    let old = unique_args seen count cs in
    let new = unique_args (seen ++ c.args ∷ []) (count + 1) cs in
    if any (λ a. str_eq a c.args) seen then old else new

unfoldable pub same_name : {D : Type 0} → ToolCall D → ToolCall D → Bool
same_name current c = str_eq c.name current.name

module _ {D : Type 0} where
  unfoldable pub drift_from : ℕ → List (ToolCall D) → List DriftPattern
  drift_from zero calls = []
  drift_from (suc fuel) [] = []
  drift_from (suc fuel) (current ∷ rest) =
      let run = run_of (same_name current) rest in
      let variations = unique_args (current.args ∷ []) 1 run in
      let jump = drift_from fuel (behind_run (same_name current) rest) in
      let next = drift_from fuel rest in
      if leb parameter_drift_threshold (1 + length run) && leb 2 variations
      then record {
        start_index = current.index;
        end_index = last_index current run;
        tool_name = current.name;
        variation_count = variations;
      }
        ∷ jump
      else next

  unfoldable pub detect_parameter_drift : List (ToolCall D) → List DriftPattern
  detect_parameter_drift calls =
      if ltb (length calls) parameter_drift_threshold then [] else drift_from (length calls) calls
