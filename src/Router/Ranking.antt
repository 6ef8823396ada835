-- ===== src/Router/Ranking.antt =====
-- Ranking models by cost or latency: `rank_models` of router/model_metrics.rs. A map of metrics is an
-- association list.
pub mod Models
pub mod Order
mod Examples
use plano.Prelude.{
  Bool, true, false, not, Option, none, some, List, [], ◌∷◌, ◌++◌, String, ◌≡◌, get, string_key,
  if◌then◌else◌,
}

-- The numbers `f64`: `less` is `<`, which no comparison with a NaN satisfies.
pub record Float (V : Type 0) : Type 0 where
  pub is_nan : V → Bool
  pub less : V → V → Bool

-- What the sort relies on.
pub record IsOrdered {V : Type 0} (f : Float V) : Type 0 where
  pub less_asym : (a b : V) → f.less a b ≡ true → f.less b a ≡ false
  pub less_trans :
      (a b c : V)
      → f.is_nan b ≡ false
      → f.less a b ≡ false
      → f.less b c ≡ false
      → f.less a c ≡ false

pub data SelectionPreference : Type 0 where
  cheapest : SelectionPreference
  fastest : SelectionPreference
  unranked : SelectionPreference

pub record ModelMetricsService (V : Type 0) : Type 0 where
  pub cost : List (String × V)
  pub latency : List (String × V)

abbrev pub names : {V : Type 0} → List (String × V) → List String
names [] = []
names ((m, v) ∷ xs) = m ∷ names xs

module _ {V : Type 0} (f : Float V) where
  abbrev pub usable : Option V → Option V
  usable none = none
  usable (some v) = if f.is_nan v then none else some v

  -- `data.get(m)`, without a NaN.
  unfoldable pub metric : List (String × V) → String → Option V
  metric data_of m = usable (get data_of m)

  abbrev pub push_with : Option V → String → List (String × V) → List (String × V)
  push_with none m rest = rest
  push_with (some v) m rest = (m, v) ∷ rest

  unfoldable pub with_data : List (String × V) → List String → List (String × V)
  with_data data_of [] = []
  with_data data_of (m ∷ models) = push_with (metric data_of m) m (with_data data_of models)

  abbrev pub push_without : Option V → String → List String → List String
  push_without none m rest = m ∷ rest
  push_without (some v) m rest = rest

  unfoldable pub without_data : List (String × V) → List String → List String
  without_data data_of [] = []
  without_data data_of (m ∷ models) =
      push_without (metric data_of m) m (without_data data_of models)

  -- `sort_by`, which is stable.
  unfoldable pub place : String × V → List (String × V) → List (String × V)
  place x [] = x ∷ []
  place x (y ∷ ys) = let rest = place x ys in if f.less (y.1) (x.1) then y ∷ rest else x ∷ y ∷ ys

  unfoldable pub sorted : List (String × V) → List (String × V)
  sorted [] = []
  sorted (x ∷ xs) = place x (sorted xs)

  unfoldable pub rank_by_ascending_metric : List String → List (String × V) → List String
  rank_by_ascending_metric models data_of =
      names (sorted (with_data data_of models)) ++ without_data data_of models

  unfoldable pub rank_models :
      ModelMetricsService V → List String → SelectionPreference → List String
  rank_models service models cheapest = rank_by_ascending_metric models service.cost
  rank_models service models fastest = rank_by_ascending_metric models service.latency
  rank_models service models unranked = models
