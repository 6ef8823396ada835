-- ===== src/Router/Ranking/Models.antt =====
-- Ranking neither loses nor adds a model.
use plano.Prelude.{
  ℕ, ◌+◌, List, [], ◌∷◌, ◌++◌, String, str_eq, ◌≡◌, ◌∙◌, refl, arith, if◌then◌else◌, Option-cases,
  inl, inr,
}
use plano.Router.Ranking.{
  Float, SelectionPreference, cheapest, fastest, unranked, ModelMetricsService, metric, with_data,
  without_data, place, sorted, names, rank_by_ascending_metric, rank_models,
}

-- How often a model stands in a list.
abbrev pub count : String → List String → ℕ
count m [] = 0
count m (n ∷ ns) = (if str_eq n m then 1 else 0) + count m ns

count-append : (m : String) (xs ys : List String) → count m (xs ++ ys) ≡ count m xs + count m ys
count-append m [] ys = omega arith
count-append m (x ∷ xs) ys = ground (arith, count-append m xs ys)

module _ {V : Type 0} (f : Float V) where
  count-place :
      (m : String) (x : String × V) (ys : List (String × V))
      → count m (names (place f x ys)) ≡ count m (names (x ∷ ys))
  unfolding place
  count-place m x [] = refl
  count-place m x (y ∷ ys) = ground (arith, count-place m x ys)

  pub count-sorted :
      (m : String) (xs : List (String × V)) → count m (names (sorted f xs)) ≡ count m (names xs)
  unfolding sorted
  count-sorted m [] = refl
  count-sorted m (x ∷ xs) = ground (arith, count-place m x (sorted f xs), count-sorted m xs)

  count-split :
      (m : String) (data_of : List (String × V)) (models : List String)
      → count m (names (with_data f data_of models)) + count m (without_data f data_of models)
        ≡ count m models
  unfolding with_data without_data
  count-split m data_of [] = refl
  count-split m data_of (n ∷ models) = elim (Option-cases (metric f data_of n)) [
    | inl e ↦ rw e (ground (arith, count-split m data_of models))
    | inr (v, e) ↦ rw e (ground (arith, count-split m data_of models))
  ]

  count-rank :
      (m : String) (models : List String) (data_of : List (String × V))
      → count m (rank_by_ascending_metric f models data_of) ≡ count m models
  unfolding rank_by_ascending_metric
  count-rank m models data_of =
      count-append m (names (sorted f (with_data f data_of models))) (without_data f data_of models)
      ∙ ground (arith, count-sorted m (with_data f data_of models), count-split m data_of models)

  -- For every preference, ranking loses no model and adds none: each stands in the ranking as often
  -- as it was given.
  pub count-rank_models :
      (service : ModelMetricsService V) (models : List String) (prefer : SelectionPreference)
      (m : String)
      → count m (rank_models f service models prefer) ≡ count m models
  unfolding rank_models
  count-rank_models service models cheapest m = count-rank m models service.cost
  count-rank_models service models fastest m = count-rank m models service.latency
  count-rank_models service models unranked m = refl
