-- ===== src/LlmProviders/Examples.antt =====
-- The theorems at concrete configurations: the wildcards of two providers, of which the registry
-- knows a model of the first.
use plano.Prelude.{
  leb, not, ◌&&◌, Option, true, none, some, List, [], ◌∷◌, null, String, ◌≡◌, refl, str_eq,
  split_once_slash, ends_with, get, insert, string_key, if◌then◌else◌,
}
use plano.Providers.Id
use plano.LlmProviders.{
  LlmProvider, LlmProviders, ok, err, duplicate_name, lookup, try_from, add_all, add_wildcard,
  add_specific, expand, specific_models, trim_end_stars, trim_end_wildcards,
}
use plano.LlmProviders.Start.{is_ok, unique, specific_names, defaults, is_ok-try_from}

abbrev provider : String → String → LlmProvider Unit
provider name model = record { name = name; model = some model; default = none; rest = tt }

abbrev main : LlmProvider Unit
main = record { name = "openai/*"; model = some "*"; default = some true; rest = tt }

abbrev configs : List (LlmProvider Unit)
configs = main ∷ provider "anthropic/*" "*" ∷ []

abbrev registry : String → Option (List String)
registry key = if str_eq key "openai" then some ("openai/gpt-4o" ∷ []) else none

abbrev gpt : LlmProvider Unit
gpt = record main { name = "openai/gpt-4o"; model = some "gpt-4o" }

abbrev table : LlmProviders Unit
table = record {
  providers = ("openai/gpt-4o", gpt) ∷ ("gpt-4o", gpt) ∷ [];
  default = some main;
  wildcard_providers = ("openai", main) ∷ ("anthropic", provider "anthropic/*" "*") ∷ [];
}

starts : try_from registry configs ≡ ok table
unfolding try_from add_all add_wildcard expand specific_models trim_end_stars trim_end_wildcards
    ends_with insert Id.try_from Id.to_lowercase Id.find_arm Id.models Id.model_name
    split_once_slash Id.provider_key mathlib.Core.List.filter_map
starts = refl

-- The name of another provider's model is answered with the provider that has the model.
other_prefix : lookup table "anthropic/gpt-4o" ≡ some gpt
unfolding lookup get split_once_slash
other_prefix = refl

twice : try_from registry (provider "a" "m" ∷ provider "a" "n" ∷ []) ≡ err (duplicate_name "a")
unfolding try_from add_all add_specific ends_with
twice = refl

is_ok-try_from_example :
    is_ok (try_from registry configs)
    ≡ (not (null configs) && (leb (defaults configs) 1 && unique [] (specific_names configs)))
is_ok-try_from_example = is_ok-try_from registry configs
