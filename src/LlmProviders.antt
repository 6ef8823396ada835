-- ===== src/LlmProviders.antt =====
-- The table of configured providers: crates/common/src/llm_providers.rs.
pub mod Lookup
pub mod Default
pub mod Start
pub mod Hints
mod Examples
use Prim.Native.String
use Prim.Native.Char.{code}
use mathlib.Core.Option
use plano.Prelude.{
  ℕ, ◌==◌, Bool, true, false, not, ◌&&◌, ◌||◌, Option, none, some, List, [], ◌∷◌, null, any, String,
  ◌<>◌, str_eq, ends_with, split_once_slash, get, insert, string_key, if◌then◌else◌,
}
use plano.Providers.Id.{ProviderId, Parsed}
use plano.Providers.Id

-- `R` is the type of the fields that are only copied.
pub record LlmProvider (R : Type 0) : Type 0 where
  pub name : String
  pub model : Option String
  pub default : Option Bool
  pub rest : R

pub record LlmProviders (R : Type 0) : Type 0 where
  pub providers : List (String × LlmProvider R)
  pub default : Option (LlmProvider R)
  pub wildcard_providers : List (String × LlmProvider R)

pub data LlmProvidersNewError : Type 0 where
  empty_source : LlmProvidersNewError
  more_than_one_default : LlmProvidersNewError
  duplicate_name : String → LlmProvidersNewError

pub data Started (A : Type 0) : Type 0 where
  ok : A → Started A
  err : LlmProvidersNewError → Started A

abbrev pub or_else : {A : Type 0} → Option A → Option A → Option A
or_else (some a) other = some a
or_else none other = other

abbrev pub contains : List String → String → Bool
contains names name = any (λ n. str_eq n name) names

-- `trim_end_matches("/*")` and `trim_end_matches('*')`
unfoldable pub trim_end_wildcards : String → String
trim_end_wildcards String.[] = ""
trim_end_wildcards (String.◌∷◌ c s) =
    let rest = trim_end_wildcards s in
    if (code c == b'/') && str_eq rest "*" then "" else String.◌∷◌ c rest

unfoldable pub trim_end_stars : String → String
trim_end_stars String.[] = ""
trim_end_stars (String.◌∷◌ c s) =
    let rest = trim_end_stars s in
    if (code c == b'*') && str_eq rest "" then "" else String.◌∷◌ c rest

abbrev pub is_wildcard_model : Option String → Bool
is_wildcard_model none = false
is_wildcard_model (some m) = str_eq m "*" || ends_with m "/*"

abbrev pub add_split : Option (String × String) → List (String × String) → List (String × String)
add_split none found = found
add_split (some split) found = split ∷ found

abbrev pub excluded : List (String × String) → String → String → Bool
excluded found provider_prefix model_name =
    any (λ s. str_eq (s.0) provider_prefix && str_eq (s.1) model_name) found

abbrev pub known_models : (String → Option (List String)) → Parsed → List String
known_models registry (Id.ok id) = Id.models registry id
known_models registry (Id.unknown_provider v) = []

abbrev pub unwrap_or_default : Option Bool → Bool
unwrap_or_default none = false
unwrap_or_default (some b) = b

module _ {R : Type 0} where
  abbrev with_model : String → LlmProvider R → LlmProvider R
  with_model model_name p = record p { model = some model_name }

  -- A name with a slash: the model alone, and then the wildcard of the prefix. The key that is put
  -- together again is the name, and was tried before.
  abbrev pub get_split : LlmProviders R → Option (String × String) → Option (LlmProvider R)
  get_split table none = none
  get_split table (some (provider_prefix, model_name)) =
      or_else (get table.providers (provider_prefix <> ("/" <> model_name))) (
        or_else (get table.providers model_name)
          (Option.map (with_model model_name) (get table.wildcard_providers provider_prefix)))

  unfoldable pub lookup : LlmProviders R → String → Option (LlmProvider R)
  lookup table name = or_else (get table.providers name) (get_split table (split_once_slash name))

  abbrev pub is_wildcard : LlmProvider R → Bool
  is_wildcard p = is_wildcard_model p.model

  -- The first pass: the prefixes and models of the specific providers.
  unfoldable pub specific_models : List (LlmProvider R) → List (String × String)
  specific_models [] = []
  specific_models (p ∷ ps) =
      if is_wildcard p
      then specific_models ps
      else add_split (split_once_slash p.name) (specific_models ps)

  abbrev pub is_default : LlmProvider R → Bool
  is_default p = unwrap_or_default p.default

  abbrev pub put : String → LlmProvider R → LlmProviders R → LlmProviders R
  put key p table = record table { providers = insert table.providers key p }

  -- The expansion of a wildcard provider to the models of the registry.
  unfoldable pub expand :
      List (String × String)
      → String
      → LlmProvider R
      → List String
      → LlmProviders R
      → LlmProviders R
  expand found provider_prefix p [] table = table
  expand found provider_prefix p (model_name ∷ models) table =
      let full_model_id = provider_prefix <> ("/" <> model_name) in
      let expanded = record p { model = some model_name; name = full_model_id } in
      let skipped = expand found provider_prefix p models table in
      let entered =
        expand found provider_prefix p models
          (put model_name expanded (put full_model_id expanded table)) in
      if excluded found provider_prefix model_name then skipped else entered

  unfoldable pub add_wildcard :
      (String → Option (List String))
      → List (String × String)
      → LlmProvider R
      → LlmProviders R
      → LlmProviders R
  add_wildcard registry found p table =
      let provider_prefix = trim_end_stars (trim_end_wildcards p.name) in
      expand found provider_prefix p (known_models registry (Id.try_from provider_prefix))
        (record table { wildcard_providers = insert table.wildcard_providers provider_prefix p })

  abbrev pub put_model : Option String → LlmProvider R → LlmProviders R → LlmProviders R
  put_model none p table = table
  put_model (some m) p table = put m p table

  unfoldable pub add_specific : LlmProvider R → LlmProviders R → LlmProviders R
  add_specific p table = put_model p.model p (put p.name p table)

  -- The default of the table after a provider, if there is no second one.
  abbrev pub set_default :
      Bool → Option (LlmProvider R) → LlmProvider R → Option (Option (LlmProvider R))
  set_default false old p = some old
  set_default true none p = some (some p)
  set_default true (some old) p = none

  abbrev pub with_default :
      Option (Option (LlmProvider R))
      → (Option (LlmProvider R) → Started (LlmProviders R))
      → Started (LlmProviders R)
  with_default none go_on = err more_than_one_default
  with_default (some d) go_on = go_on d

  -- The second pass, with the names of the specific providers so far.
  unfoldable pub add_all :
      (String → Option (List String))
      → List (String × String)
      → List (LlmProvider R)
      → LlmProviders R
      → List String
      → Started (LlmProviders R)
  add_all registry found [] table names = ok table
  add_all registry found (p ∷ ps) table names =
      with_default (set_default (is_default p) table.default p) (λ d.
        let table' = record table { default = d } in
        let wild = add_all registry found ps (add_wildcard registry found p table') names in
        let specific = add_all registry found ps (add_specific p table') (p.name ∷ names) in
        if is_wildcard p
        then wild
        else if contains names p.name
        then err (duplicate_name p.name)
        else specific)

  unfoldable pub try_from :
      (String → Option (List String)) → List (LlmProvider R) → Started (LlmProviders R)
  try_from registry configs =
      if null configs
      then err empty_source
      else add_all registry (specific_models configs) configs
          (record { providers = []; default = none; wildcard_providers = [] }) []
