-- ===== src/LlmProviders/Start.antt =====
-- When a configuration is accepted.
use plano.Prelude.{
  ℕ, suc, ◌+◌, leb, Bool, true, false, not, ◌&&◌, Option, none, some, List, [], ◌∷◌, null, String,
  ◌≡◌, ◌∙◌, refl, ap, arith, if◌then◌else◌, Bool-cases, Option-cases, inl, inr,
}
use plano.LlmProviders.{
  LlmProvider, LlmProviders, Started, ok, err, duplicate_name, contains, is_wildcard, is_default,
  specific_models, add_wildcard, add_specific, with_default, add_all, try_from,
}
use plano.LlmProviders.Default.{add_wildcard-default, add_specific-default}

abbrev pub is_ok : {A : Type 0} → Started A → Bool
is_ok (ok a) = true
is_ok (err e) = false

-- No name stands twice in the list or is among those seen.
abbrev pub unique : List String → List String → Bool
unique seen [] = true
unique seen (n ∷ names) = not (contains seen n) && unique (n ∷ seen) names

none_before : (n : ℕ) → 0 + n ≡ n
none_before n = omega arith

more : (n : ℕ) → 1 + n ≡ 0 + suc n
more n = omega arith

module _ {R : Type 0} where
  abbrev pub specific_names : List (LlmProvider R) → List String
  specific_names [] = []
  specific_names (p ∷ ps) = if is_wildcard p then specific_names ps else p.name ∷ specific_names ps

  abbrev pub defaults : List (LlmProvider R) → ℕ
  defaults [] = 0
  defaults (p ∷ ps) = if is_default p then suc (defaults ps) else defaults ps

  abbrev one : Option (LlmProvider R) → ℕ
  one none = 0
  one (some p) = 1

  module _ (registry : String → Option (List String)) (found : List (String × String)) where
    is_ok-add_all :
        (ps : List (LlmProvider R)) (table : LlmProviders R) (names : List String)
        → is_ok (add_all registry found ps table names)
          ≡ (leb (one table.default + defaults ps) 1 && unique names (specific_names ps))
    unfolding add_all
    is_ok-add_all [] table names = elim (Option-cases table.default) [
      | inl e ↦ rw e refl
      | inr (d, e) ↦ rw e refl
    ]
    is_ok-add_all (p ∷ ps) table names =
        let go_on : (d : Option (LlmProvider R)) → LlmProviders R =
          λ d. record table { default = d } in
        let wild = λ (d : Option (LlmProvider R)). add_wildcard registry found p (go_on d) in
        let specific = λ (d : Option (LlmProvider R)). add_specific p (go_on d) in
        let step : (d : Option (LlmProvider R))
            → is_ok (
                with_default (some d) (λ d.
                  if is_wildcard p
                  then add_all registry found ps (wild d) names
                  else if contains names p.name
                  then err (duplicate_name p.name)
                  else add_all registry found ps (specific d) (p.name ∷ names)))
              ≡ (leb (one d + defaults ps) 1 && unique names (specific_names (p ∷ ps))) =
          λ d. elim (Bool-cases (is_wildcard p)) [
            | inl w ↦ rw w (
                is_ok-add_all ps (wild d) names
                ∙ ap (λ o. leb (one o + defaults ps) 1 && unique names (specific_names ps))
                    (add_wildcard-default registry found p (go_on d)))
            | inr w ↦ rw w (elim (Bool-cases (contains names p.name)) [
              | inl again ↦ rw again (ground arith)
              | inr new ↦ rw new (
                  is_ok-add_all ps (specific d) (p.name ∷ names)
                  ∙ ap
                      (λ o.
                        leb (one o + defaults ps) 1 && unique (p.name ∷ names) (specific_names ps))
                      (add_specific-default registry found p (go_on d)))
            ])
          ] in
        elim (Bool-cases (is_default p)) [
          | inl default ↦ elim (Option-cases table.default) [
            | inl e ↦
                rw (default, e)
                  (step (some p)
                    ∙ ap (λ n. leb n 1 && unique names (specific_names (p ∷ ps)))
                        (more (defaults ps)))
            | inr (d, e) ↦ rw (default, e) (ground arith)
          ]
          | inr plain ↦ rw plain (step table.default)
        ]

  -- A configuration is accepted exactly if it has a provider, at most one default provider, and no
  -- name twice among the providers that are no wildcards.
  pub is_ok-try_from :
      (registry : String → Option (List String)) (configs : List (LlmProvider R))
      → is_ok (try_from registry configs)
        ≡ (not (null configs) && (leb (defaults configs) 1 && unique [] (specific_names configs)))
  unfolding try_from
  is_ok-try_from registry [] = refl
  is_ok-try_from registry (p ∷ ps) =
      is_ok-add_all registry (specific_models (p ∷ ps)) (p ∷ ps) _ []
      ∙ ap (λ n. leb n 1 && unique [] (specific_names (p ∷ ps))) (none_before (defaults (p ∷ ps)))
