-- ===== src/Providers/Api/Paths.antt =====
-- Endpoints and the APIs that they name.
use plano.Prelude.{false, none, some, ◌≡◌, ◌↔◌, arith, any, String, str_eq, eq_iff}
use plano.Providers.Api.{
  SupportedApisFromClient, openai_endpoint, openai_from_endpoint, anthropic_endpoint,
  anthropic_from_endpoint, client_endpoint, client_from_endpoint, supported_endpoints,
  identify_provider,
}

-- An API read from a path has that path for its endpoint.
pub client_endpoint-client_from_endpoint :
    (endpoint : String) (api : SupportedApisFromClient)
    → client_from_endpoint endpoint ≡ some api
    → client_endpoint api ≡ endpoint
unfolding client_from_endpoint client_endpoint openai_from_endpoint openai_endpoint
    anthropic_from_endpoint anthropic_endpoint
client_endpoint-client_from_endpoint endpoint api h = ground (
  arith,
  eq_iff endpoint "/v1/chat/completions",
  eq_iff endpoint "/v1/responses",
  eq_iff endpoint "/v1/messages",
)

-- No API is read from exactly the paths that are not among the supported endpoints, which are those
-- that no provider is identified for.
pub client_from_endpoint-none_iff :
    (endpoint : String)
    → ((client_from_endpoint endpoint ≡ none) ↔ (any (str_eq endpoint) supported_endpoints ≡ false))
      × ((client_from_endpoint endpoint ≡ none) ↔ (identify_provider endpoint ≡ none))
unfolding client_from_endpoint openai_from_endpoint openai_endpoint anthropic_from_endpoint
    anthropic_endpoint supported_endpoints identify_provider
client_from_endpoint-none_iff endpoint = (ground arith, ground arith)
