-- ===== src/Providers/Endpoint.antt =====
-- The path that a request is sent to: `target_endpoint_for_provider` of clients/endpoints.rs.
pub mod Family
pub mod Agreement
mod Examples
use package.text.Mathlib.Text.{starts_with}
use plano.Prelude.{
  Bool, true, false, not, ◌&&◌, Option, none, some, String, ◌<>◌, is_empty, trim_slashes,
  trim_start_slashes, if◌then◌else◌,
}
use plano.Providers.Id.{
  ProviderId, openai, groq, gemini, anthropic, azure_openai, xai, zhipu, qwen, amazon_bedrock,
  chatgpt, vercel,
}
use plano.Providers.Api.{SupportedApisFromClient}

-- The arguments of the method other than the API and the provider.
pub record Target : Type 0 where
  pub request_path : String
  pub model_id : String
  pub is_streaming : Bool
  pub base_url_path_prefix : Option String
  pub use_unversioned_paths : Bool

-- The configured prefix, if it has more than slashes, or the provider's.
unfoldable pub prefix_for : Target → String → String
prefix_for t provider_prefix = elim t.base_url_path_prefix [
  | none ↦ trim_slashes provider_prefix
  | some p ↦ if is_empty (trim_slashes p) then trim_slashes provider_prefix else trim_slashes p
]

abbrev pub joined : String → String → String
joined prefix suffix = if is_empty prefix then "/" <> suffix else "/" <> (prefix <> ("/" <> suffix))

-- The closure `build_endpoint`.
unfoldable pub build_endpoint : Target → String → String → String
unfolding prefix_for
build_endpoint t provider_prefix suffix =
    joined (prefix_for t provider_prefix) (trim_start_slashes suffix)

abbrev pub is_versioned : Target → Bool
is_versioned t = starts_with t.request_path "/v1/"

abbrev pub converse_path : Target → String
converse_path t =
    "/model/" <> (t.model_id <> (if t.is_streaming then "/converse-stream" else "/converse"))

-- The closure `route_by_provider`.
unfoldable pub route_by_provider : ProviderId → Target → String → String
route_by_provider groq t suffix =
    if is_versioned t
    then build_endpoint t "/openai" t.request_path
    else build_endpoint t "/v1" suffix
route_by_provider zhipu t suffix =
    if is_versioned t then build_endpoint t "/api/paas/v4" suffix else build_endpoint t "/v1" suffix
route_by_provider qwen t suffix =
    if is_versioned t
    then build_endpoint t "/compatible-mode/v1" suffix
    else build_endpoint t "/v1" suffix
route_by_provider azure_openai t suffix =
    if is_versioned t
    then build_endpoint t "/openai/deployments" (
        "/"
        <> (t.model_id
            <> ("/" <> (trim_start_slashes suffix <> "?api-version=2025-01-01-preview"))))
    else build_endpoint t "/v1" suffix
route_by_provider gemini t suffix =
    if is_versioned t
    then build_endpoint t "/v1beta/openai" suffix
    else build_endpoint t "/v1" suffix
route_by_provider amazon_bedrock t suffix =
    if is_versioned t then build_endpoint t "" (converse_path t) else build_endpoint t "/v1" suffix
route_by_provider _ t suffix =
    if t.use_unversioned_paths then build_endpoint t "" suffix else build_endpoint t "/v1" suffix

-- The case of the Messages API.
unfoldable pub route_messages : ProviderId → Target → String
route_messages anthropic t = build_endpoint t "/v1" "/messages"
route_messages vercel t = build_endpoint t "/v1" "/messages"
route_messages amazon_bedrock t =
    if is_versioned t && not t.is_streaming
    then build_endpoint t "" (converse_path t)
    else if is_versioned t && t.is_streaming
    then build_endpoint t "" (converse_path t)
    else build_endpoint t "/v1" "/chat/completions"
route_messages _ t = build_endpoint t "/v1" "/chat/completions"

-- The providers with a Responses API of their own.
abbrev pub serves_responses : ProviderId → Bool
serves_responses openai = true
serves_responses xai = true
serves_responses chatgpt = true
serves_responses vercel = true
serves_responses _ = false

unfoldable pub target_endpoint_for_provider : SupportedApisFromClient → ProviderId → Target → String
target_endpoint_for_provider (SupportedApisFromClient.anthropic_messages_api a) p t =
    route_messages p t
target_endpoint_for_provider (SupportedApisFromClient.openai_responses_api a) p t =
    route_by_provider p t (if serves_responses p then "/responses" else "/chat/completions")
target_endpoint_for_provider (SupportedApisFromClient.openai_chat_completions a) p t =
    route_by_provider p t "/chat/completions"
