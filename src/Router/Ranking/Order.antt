-- ===== src/Router/Ranking/Order.antt =====
-- The order of a ranking: models with data first, by their metrics, and then the others.
use plano.Prelude.{
  Bool, true, not, ◌⊎◌, if◌then◌else◌, false, Option, none, some, List, [], ◌∷◌, ◌++◌, String, ◌≡◌,
  ◌∙◌, refl, ap, All, get, string_key, Bool-cases, Option-cases, inl, inr,
}
use plano.Router.Ranking.{
  Float, IsOrdered, metric, with_data, without_data, place, sorted, names, rank_by_ascending_metric,
}
use plano.Router.Ranking.Models.{count, count-sorted}

module _ {V : Type 0} (f : Float V) where
  -- No later model has a smaller metric.
  abbrev pub Ascending : List (String × V) → Type 0
  Ascending [] = Unit
  Ascending (x ∷ xs) = All (λ y. f.less (y.1) (x.1) ≡ false) xs × Ascending xs

  -- Models with the numbers that the data have for them.
  abbrev pub Measured : List (String × V) → List (String × V) → Type 0
  Measured data_of xs = All (λ x. (get data_of (x.0) ≡ some (x.1)) × (f.is_nan (x.1) ≡ false)) xs

  abbrev pub is_number : Option V → Bool
  is_number none = false
  is_number (some v) = not (f.is_nan v)

  abbrev pub measured_models : List (String × V) → List String → List String
  measured_models data_of [] = []
  measured_models data_of (m ∷ models) =
      if is_number (get data_of m)
      then m ∷ measured_models data_of models
      else measured_models data_of models

  abbrev pub other_models : List (String × V) → List String → List String
  other_models data_of [] = []
  other_models data_of (m ∷ models) =
      if is_number (get data_of m)
      then other_models data_of models
      else m ∷ other_models data_of models

  abbrev Numbers : List (String × V) → Type 0
  Numbers xs = All (λ x. f.is_nan (x.1) ≡ false) xs

  module _ (P : String × V → Type 0) where
    All-place : (x : String × V) (ys : List (String × V)) → P x → All P ys → All P (place f x ys)
    unfolding place
    All-place x [] p h = (p, tt)
    All-place x (y ∷ ys) p (q, h) = elim (Bool-cases (f.less (y.1) (x.1))) [
      | inl less ↦ rw less (q, All-place x ys p h)
      | inr more ↦ rw more (p, (q, h))
    ]

    All-sorted : (xs : List (String × V)) → All P xs → All P (sorted f xs)
    unfolding sorted
    All-sorted [] h = tt
    All-sorted (x ∷ xs) (p, h) = All-place x (sorted f xs) p (All-sorted xs h)

  -- A model is measured as the code sees it exactly if the data have a number for it.
  metric-cases :
      (data_of : List (String × V)) (m : String)
      → ((metric f data_of m ≡ none) × (is_number (get data_of m) ≡ false))
        ⊎ ((v : V) × (metric f data_of m ≡ some v)
            × (is_number (get data_of m) ≡ true)
            × (get data_of m ≡ some v)
            × (f.is_nan v ≡ false))
  unfolding metric
  metric-cases data_of m = elim (Option-cases (get data_of m)) [
    | inl e ↦ inl (rw e refl, rw e refl)
    | inr (v, e) ↦ elim (Bool-cases (f.is_nan v)) [
      | inl nan ↦ inl (rw (e, nan) refl, rw (e, nan) refl)
      | inr number ↦ inr (v, rw (e, number) refl, rw (e, number) refl, e, number)
    ]
  ]

  with_data-Measured :
      (data_of : List (String × V)) (models : List String)
      → Measured data_of (with_data f data_of models)
  unfolding with_data
  with_data-Measured data_of [] = tt
  with_data-Measured data_of (m ∷ models) = elim (metric-cases data_of m) [
    | inl (e, other) ↦ rw e (with_data-Measured data_of models)
    | inr (v, e, is, known, number) ↦ rw e ((known, number), with_data-Measured data_of models)
  ]

  names-with_data :
      (data_of : List (String × V)) (models : List String)
      → names (with_data f data_of models) ≡ measured_models data_of models
  unfolding with_data
  names-with_data data_of [] = refl
  names-with_data data_of (m ∷ models) = elim (metric-cases data_of m) [
    | inl (e, other) ↦ rw (e, other) (names-with_data data_of models)
    | inr (v, e, is, known, number) ↦ rw (e, is) (ap (λ l. m ∷ l) (names-with_data data_of models))
  ]

  without_data_lem :
      (data_of : List (String × V)) (models : List String)
      → without_data f data_of models ≡ other_models data_of models
  unfolding without_data
  without_data_lem data_of [] = refl
  without_data_lem data_of (m ∷ models) = elim (metric-cases data_of m) [
    | inl (e, other) ↦ rw (e, other) (ap (λ l. m ∷ l) (without_data_lem data_of models))
    | inr (v, e, is, known, number) ↦ rw (e, is) (without_data_lem data_of models)
  ]

  -- The ranking is a list of all models with a number, as often as they are given, with their
  -- numbers, none smaller than one before it, and then the other models in the order given.
  pub data Ranking : List (String × V) → List String → List String → Type 0 where
    ranking :
        {data_of : List (String × V)} {models ranked : List String} (front : List (String × V))
        → Measured data_of front
        → ((m : String) → count m (names front) ≡ count m (measured_models data_of models))
        → Ascending front
        → ranked ≡ names front ++ other_models data_of models
        → Ranking data_of models ranked

  module _ (ordered : IsOrdered f) where
    less-All :
        (x y : String × V) (ys : List (String × V))
        → f.is_nan (y.1) ≡ false
        → f.less (y.1) (x.1) ≡ false
        → All (λ z. f.less (z.1) (y.1) ≡ false) ys
        → All (λ z. f.less (z.1) (x.1) ≡ false) ys
    less-All x y [] number h hs = tt
    less-All x y (z ∷ zs) number h (p, hs) =
        (ordered.less_trans (z.1) (y.1) (x.1) number p h, less-All x y zs number h hs)

    place-Ascending :
        (x : String × V) (ys : List (String × V))
        → Numbers ys
        → Ascending ys
        → Ascending (place f x ys)
    unfolding place
    place-Ascending x [] n h = (tt, tt)
    place-Ascending x (y ∷ ys) (n, ns) (h, hs) = elim (Bool-cases (f.less (y.1) (x.1))) [
      | inl less ↦
          rw less
            (All-place _ x ys (ordered.less_asym (y.1) (x.1) less) h, place-Ascending x ys ns hs)
      | inr more ↦ rw more ((more, less-All x y ys n more h), (h, hs))
    ]

    sorted-Ascending : (xs : List (String × V)) → Numbers xs → Ascending (sorted f xs)
    unfolding sorted
    sorted-Ascending [] n = tt
    sorted-Ascending (x ∷ xs) (n, ns) =
        place-Ascending x (sorted f xs) (All-sorted _ xs ns) (sorted-Ascending xs ns)

    Measured-Numbers : (data_of xs : List (String × V)) → Measured data_of xs → Numbers xs
    Measured-Numbers data_of [] h = tt
    Measured-Numbers data_of ((m, v) ∷ xs) (p, h) = (p.1, Measured-Numbers data_of xs h)

    -- If the numbers are ordered, the ranking by a metric has first all models that the data have a
    -- number for, each as often as it was given and none with a smaller number than a model before
    -- it, and then all models without data or with NaN, in the order given.
    pub rank-Ranking :
        (models : List String) (data_of : List (String × V))
        → Ranking data_of models (rank_by_ascending_metric f models data_of)
    unfolding rank_by_ascending_metric
    rank-Ranking models data_of =
        let xs = with_data f data_of models in
        let measured = with_data-Measured data_of models in
        ranking (sorted f xs) (All-sorted _ xs measured)
          (λ m. count-sorted f m xs ∙ ap (count m) (names-with_data data_of models))
          (sorted-Ascending xs (Measured-Numbers data_of xs measured))
          (ap (λ l. names (sorted f xs) ++ l) (without_data_lem data_of models))
