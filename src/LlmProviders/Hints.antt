-- ===== src/LlmProviders/Hints.antt =====
-- What a request's model finds in the table: crates/common/src/routing.rs.
use plano.Prelude.{
  Option, none, some, List, String, ◌<>◌, str_eq, ◌≡◌, refl, ap, if◌then◌else◌, false,
}
use plano.State.{Result, ok, err}
use plano.LlmProviders
use plano.LlmProviders.{LlmProvider, LlmProviders, lookup, try_from}
use plano.LlmProviders.Default.{first_default, try_from-default}

pub data ProviderHint : Type 0 where
  default : ProviderHint
  name : String → ProviderHint

-- `From<String> for ProviderHint`
abbrev pub hint_from : String → ProviderHint
hint_from value = if str_eq value "default" then ProviderHint.default else ProviderHint.name value

abbrev pub ok_or : {A : Type 0} → String → Option A → Result String A
ok_or message none = err message
ok_or message (some a) = ok a

module _ {R : Type 0} where
  unfoldable pub get_llm_provider :
      LlmProviders R → Option ProviderHint → Result String (LlmProvider R)
  get_llm_provider table none = err "No model specified in request"
  get_llm_provider table (some ProviderHint.default) =
      ok_or "No default provider configured" table.default
  get_llm_provider table (some (ProviderHint.name n)) =
      ok_or ("Model '" <> (n <> "' not found in configured providers")) (lookup table n)

  -- In the table of an accepted configuration a request for the model `default` gets the first
  -- provider that is marked as the default, or an error where none is.
  get_llm_provider-first_default :
      (registry : String → Option (List String)) (configs : List (LlmProvider R))
      (table : LlmProviders R)
      → try_from registry configs ≡ LlmProviders.ok table
      → get_llm_provider table (some (hint_from "default"))
        ≡ ok_or "No default provider configured" (first_default configs)
  unfolding get_llm_provider
  get_llm_provider-first_default registry configs table made =
      ap (ok_or "No default provider configured") (try_from-default registry configs table made)

  -- A request for another model gets what the look-up finds for it.
  get_llm_provider-lookup :
      (table : LlmProviders R) (value : String) (p : LlmProvider R)
      → str_eq value "default" ≡ false
      → lookup table value ≡ some p
      → get_llm_provider table (some (hint_from value)) ≡ ok p
  unfolding get_llm_provider
  get_llm_provider-lookup table value p other found = rw (other, found) refl
