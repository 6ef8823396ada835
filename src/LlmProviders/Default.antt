-- ===== src/LlmProviders/Default.antt =====
-- The default of the table of providers.
use plano.Prelude.{
  Option, none, some, List, [], ◌∷◌, String, ◌≡◌, ◌∙◌, refl, sym, ap, arith, if◌then◌else◌,
  Bool-cases, Option-cases, inl, inr,
}
use plano.LlmProviders.{
  LlmProvider, LlmProviders, or_else, ok, err, duplicate_name, contains, is_wildcard, is_default,
  specific_models, expand, excluded, add_wildcard, add_specific, add_all, try_from,
}

module _ {R : Type 0} where
  abbrev pub first_default : List (LlmProvider R) → Option (LlmProvider R)
  first_default [] = none
  first_default (p ∷ ps) = if is_default p then some p else first_default ps

  or_else-none : (d : Option (LlmProvider R)) → d ≡ or_else d none
  or_else-none none = refl
  or_else-none (some p) = refl

  module _ (registry : String → Option (List String)) (found : List (String × String)) where
    expand-default :
        (provider_prefix : String) (p : LlmProvider R) (models : List String)
        (table : LlmProviders R)
        → (expand found provider_prefix p models table).default ≡ table.default
    unfolding expand
    expand-default provider_prefix p [] table = refl
    expand-default provider_prefix p (m ∷ models) table =
        elim (Bool-cases (excluded found provider_prefix m)) [
          | inl skip ↦ rw skip (expand-default provider_prefix p models table)
          | inr enter ↦ rw enter (expand-default provider_prefix p models _)
        ]

    pub add_wildcard-default :
        (p : LlmProvider R) (table : LlmProviders R)
        → (add_wildcard registry found p table).default ≡ table.default
    unfolding add_wildcard
    add_wildcard-default p table = expand-default _ p _ _

    pub add_specific-default :
        (p : LlmProvider R) (table : LlmProviders R)
        → (add_specific p table).default ≡ table.default
    unfolding add_specific
    add_specific-default p table = elim (Option-cases p.model) [
      | inl e ↦ rw e refl
      | inr (m, e) ↦ rw e refl
    ]

    -- The rest of the second pass, from a table with the given default.
    abbrev GoesOn : List (LlmProvider R) → LlmProviders R → Option (LlmProvider R) → Type 0
    GoesOn ps made d =
        (table : LlmProviders R) × ((names : List String) × ((table.default ≡ d)
            × (add_all registry found ps table names ≡ ok made)))

    goes_on :
        (p : LlmProvider R) (ps : List (LlmProvider R)) (table made : LlmProviders R)
        (names : List String) (d : Option (LlmProvider R))
        → (if is_wildcard p
            then add_all registry found ps
                (add_wildcard registry found p (record table { default = d }))
                names
            else if contains names p.name
            then err (duplicate_name p.name)
            else add_all registry found ps
                (add_specific p (record table { default = d }))
                (p.name ∷ names))
          ≡ ok made
        → GoesOn ps made d
    goes_on p ps table made names d = elim (Bool-cases (is_wildcard p)) [
      | inl w ↦ rw w (λ h. (_, (names, (add_wildcard-default p _, h))))
      | inr w ↦ rw w (elim (Bool-cases (contains names p.name)) [
        | inl again ↦ rw again (λ h. absurd (ground (arith, h)))
        | inr new ↦ rw new (λ h. (_, (_, (add_specific-default p _, h))))
      ])
    ]

    add_all-step :
        (p : LlmProvider R) (ps : List (LlmProvider R)) (table made : LlmProviders R)
        (names : List String)
        → add_all registry found (p ∷ ps) table names ≡ ok made
        → (d : Option (LlmProvider R)) × ((or_else d (first_default ps)
              ≡ or_else table.default (first_default (p ∷ ps)))
            × GoesOn ps made d)
    unfolding add_all
    add_all-step p ps table made names = elim (Bool-cases (is_default p)) [
      | inl default ↦ elim (Option-cases table.default) [
        | inl e ↦ rw (default, e) (λ h. (some p, (refl, goes_on p ps table made names (some p) h)))
        | inr (q, e) ↦ rw (default, e) (λ h. absurd (ground (arith, h)))
      ]
      | inr plain ↦
          rw plain (λ h. (table.default, (refl, goes_on p ps table made names table.default h)))
    ]

    add_all-default :
        (ps : List (LlmProvider R)) (table made : LlmProviders R) (names : List String)
        → add_all registry found ps table names ≡ ok made
        → made.default ≡ or_else table.default (first_default ps)
    unfolding add_all
    add_all-default [] table made names h =
        let same : table ≡ made = cc in ap (λ t. t.default) (sym same) ∙ or_else-none table.default
    add_all-default (p ∷ ps) table made names h =
        let (d, (same, (table', (names', (is_d, rest))))) = add_all-step p ps table made names h in
        add_all-default ps table' made names' rest
        ∙ ap (λ o. or_else o (first_default ps)) is_d
        ∙ same

  -- The default of an accepted configuration is its first provider that is marked as the default,
  -- and there is none without such a provider.
  pub try_from-default :
      (registry : String → Option (List String)) (configs : List (LlmProvider R))
      (made : LlmProviders R)
      → try_from registry configs ≡ ok made
      → made.default ≡ first_default configs
  unfolding try_from
  try_from-default registry [] made h = absurd (ground (arith, h))
  try_from-default registry (p ∷ ps) made h =
      add_all-default registry (specific_models (p ∷ ps)) (p ∷ ps) _ made [] h
