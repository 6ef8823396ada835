-- ===== src/Prelude/Dict.antt =====
-- Association lists in place of `HashMap`: the operations that the code calls, and their laws.
use mathlib.Core.Path.{◌≡◌, refl, sym, ap, ◌∙◌}
use mathlib.Core.Bool.{Bool, true, false}
use mathlib.Core.Logic.{inl, inr}
use mathlib.Core.Option.{Option, none, some}
use mathlib.Core.List.{List, [], ◌∷◌}
use Prim.Native.String.{String}
use text.Mathlib.TextEquality.{eq_iff}
use text.Mathlib.TextPositions.{eq_refl}
use Prim.Native.Nat.{ℕ}
use plano.Prelude.Tests.{◌==◌, ==_iff, if◌then◌else◌, Bool-cases}
use plano.Prelude.Text.{str_eq}

-- Keys with an equality that the code can compute.
pub record Key {ℓ} (K : Type ℓ) : Type ℓ where
  pub key_eq : K → K → Bool
  pub key_eq-refl : (k : K) → key_eq k k ≡ true
  pub key_eq-path : (k l : K) → key_eq k l ≡ true → k ≡ l

instance abbrev pub string_key : Key String
string_key = record { key_eq = str_eq; key_eq-refl = eq_refl; key_eq-path = λ s t. (eq_iff s t).0 }

instance abbrev pub number_key : Key ℕ
number_key = record {
  key_eq = λ a b. a == b;
  key_eq-refl = λ a. (==_iff a a).1 refl;
  key_eq-path = λ a b. (==_iff a b).0;
}

module _ {ℓ κ} {K : Type ℓ} {V : Type κ} ⦃d : Key K⦄ where
  unfoldable pub get : List (K × V) → K → Option V
  get [] k = none
  get ((l, v) ∷ m) k = if d.key_eq l k then some v else get m k

  unfoldable pub insert : List (K × V) → K → V → List (K × V)
  insert [] k v = (k, v) ∷ []
  insert ((l, w) ∷ m) k v = if d.key_eq l k then (k, v) ∷ m else (l, w) ∷ insert m k v

  unfoldable pub remove : List (K × V) → K → List (K × V)
  remove [] k = []
  remove ((l, w) ∷ m) k = if d.key_eq l k then remove m k else (l, w) ∷ remove m k

  pub get-insert : (m : List (K × V)) (k : K) (v : V) → get (insert m k v) k ≡ some v
  unfolding get insert
  get-insert [] k v = rw (d.key_eq-refl k) refl
  get-insert ((l, w) ∷ m) k v = elim (Bool-cases (d.key_eq l k)) [
    | inl same ↦ rw (same, d.key_eq-refl k) refl
    | inr other ↦ rw (other, other) (get-insert m k v)
  ]

  pub get-insert_other :
      (m : List (K × V)) (k : K) (v : V) (l : K)
      → d.key_eq k l ≡ false
      → get (insert m k v) l ≡ get m l
  unfolding get insert
  get-insert_other [] k v l h = rw h refl
  get-insert_other ((j, w) ∷ m) k v l h = elim (Bool-cases (d.key_eq j k)) [
    | inl same ↦ rw (same, h, ap (λ x. d.key_eq x l) (d.key_eq-path j k same) ∙ h) refl
    | inr other ↦ elim (Bool-cases (d.key_eq j l)) [
      | inl found ↦ rw (other, found) refl
      | inr not_found ↦ rw (other, not_found) (get-insert_other m k v l h)
    ]
  ]

  pub get-insert_at :
      (m : List (K × V)) (k : K) (v : V) (l : K)
      → get (insert m k v) l ≡ (if d.key_eq k l then some v else get m l)
  get-insert_at m k v l = elim (Bool-cases (d.key_eq k l)) [
    | inl same ↦
        rw same (ap (λ x. get (insert m k v) x) (sym (d.key_eq-path k l same)) ∙ get-insert m k v)
    | inr other ↦ rw other (get-insert_other m k v l other)
  ]

  pub get-remove : (m : List (K × V)) (k : K) → get (remove m k) k ≡ none
  unfolding get remove
  get-remove [] k = refl
  get-remove ((l, w) ∷ m) k = elim (Bool-cases (d.key_eq l k)) [
    | inl same ↦ rw same (get-remove m k)
    | inr other ↦ rw (other, other) (get-remove m k)
  ]

  pub get-remove_other :
      (m : List (K × V)) (k l : K) → d.key_eq k l ≡ false → get (remove m k) l ≡ get m l
  unfolding get remove
  get-remove_other [] k l h = refl
  get-remove_other ((j, w) ∷ m) k l h = elim (Bool-cases (d.key_eq j k)) [
    | inl same ↦
        rw (same, ap (λ x. d.key_eq x l) (d.key_eq-path j k same) ∙ h) (get-remove_other m k l h)
    | inr other ↦ elim (Bool-cases (d.key_eq j l)) [
      | inl found ↦ rw (other, found) refl
      | inr not_found ↦ rw (other, not_found) (get-remove_other m k l h)
    ]
  ]
