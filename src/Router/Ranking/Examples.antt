-- ===== src/Router/Ranking/Examples.antt =====
-- The theorems at concrete metrics, and a ranking; `none` stands for NaN.
use plano.Prelude.{
  ℕ, ltb, Bool, true, false, Option, none, some, List, [], ◌∷◌, String, ◌≡◌, refl, arith, get,
  string_key,
}
use plano.Router.Ranking.{
  Float, IsOrdered, metric, with_data, without_data, place, sorted, rank_by_ascending_metric,
}
use plano.Router.Ranking.Order.{Ranking, rank-Ranking}

abbrev is_missing : Option ℕ → Bool
is_missing none = true
is_missing (some n) = false

abbrev less : Option ℕ → Option ℕ → Bool
less (some a) (some b) = ltb a b
less _ _ = false

abbrev floats : Float (Option ℕ)
floats = record { is_nan = is_missing; less = less }

option_asym : (a b : Option ℕ) → less a b ≡ true → less b a ≡ false
option_asym (some a) (some b) h = ground (arith, h)
option_asym none b h = ground (arith, h)
option_asym (some a) none h = ground (arith, h)

option_trans :
    (a b c : Option ℕ)
    → is_missing b ≡ false
    → less a b ≡ false
    → less b c ≡ false
    → less a c ≡ false
option_trans (some a) (some b) (some c) n h k = ground (arith, h, k)
option_trans a none c n h k = absurd (ground (arith, n))
option_trans none (some b) c n h k = refl
option_trans (some a) (some b) none n h k = refl

floats-IsOrdered : IsOrdered floats
floats-IsOrdered = record { less_asym = option_asym; less_trans = option_trans }

abbrev costs : List (String × Option ℕ)
costs = ("a", some 5) ∷ ("b", none) ∷ ("c", some 2) ∷ ("d", some 5) ∷ []

abbrev models : List String
models = "d" ∷ "x" ∷ "a" ∷ "b" ∷ "c" ∷ []

ranked : rank_by_ascending_metric floats models costs ≡ "c" ∷ "d" ∷ "a" ∷ "x" ∷ "b" ∷ []
unfolding rank_by_ascending_metric sorted place with_data without_data metric get
ranked = refl

rank-Ranking_example : Ranking floats costs models (rank_by_ascending_metric floats models costs)
rank-Ranking_example = rank-Ranking floats floats-IsOrdered models costs
