-- ===== src/LlmProviders/Lookup.antt =====
-- What a lookup goes by.
use plano.Prelude.{none, some, String, ◌<>◌, ◌≡◌, ◌∙◌, sym, refl, split_once_slash, get, string_key}
use plano.LlmProviders.{LlmProvider, LlmProviders, lookup}

module _ {R : Type 0} where
  lookup-bare :
      (table : LlmProviders R) (name provider_prefix model_name : String) (p : LlmProvider R)
      → split_once_slash name ≡ some (provider_prefix, model_name)
      → get table.providers name ≡ none
      → get table.providers (provider_prefix <> ("/" <> model_name)) ≡ none
      → get table.providers model_name ≡ some p
      → lookup table name ≡ some p
  unfolding lookup
  lookup-bare table name provider_prefix model_name p split missing missing_again bare =
      rw (missing, split, missing_again, bare) refl

  -- Two names with one model and different prefixes, neither of them a key of the table, have the
  -- same provider if the model alone is a key, whatever wildcards the prefixes have.
  pub lookup-ignores_prefix :
      (table : LlmProviders R) (name other provider_prefix other_prefix model_name : String)
      (p : LlmProvider R)
      → split_once_slash name ≡ some (provider_prefix, model_name)
      → split_once_slash other ≡ some (other_prefix, model_name)
      → get table.providers name ≡ none
      → get table.providers (provider_prefix <> ("/" <> model_name)) ≡ none
      → get table.providers other ≡ none
      → get table.providers (other_prefix <> ("/" <> model_name)) ≡ none
      → get table.providers model_name ≡ some p
      → lookup table name ≡ lookup table other
  lookup-ignores_prefix table name other a b model_name p split split' m m' n n' bare =
      lookup-bare table name a model_name p split m m' bare
      ∙ sym (lookup-bare table other b model_name p split' n n' bare)
