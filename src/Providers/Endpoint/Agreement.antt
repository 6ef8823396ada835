-- ===== src/Providers/Endpoint/Agreement.antt =====
-- The endpoint and the API of a request agree, and where they do not.
use package.text.Mathlib.Text.{starts_with}
use mathlib.Core.Option.{some-injective}
use plano.Prelude.{
  true, false, Option, none, some, String, ◌≡◌, ◌≢◌, ◌⊎◌, inl, inr, refl, trim_slashes,
  trim_start_slashes,
}
use plano.Providers.Id.{ProviderId, groq, zhipu, qwen, gemini}
use plano.Providers.Api.{
  chat_completions, responses, messages, SupportedApisFromClient, client_from_endpoint,
}
use plano.Providers.Compatible.{compatible_api_for_client, chat_upstream}
use plano.Providers.Endpoint.{
  Target, is_versioned, build_endpoint, prefix_for, route_by_provider, route_messages,
  target_endpoint_for_provider,
}
use plano.Providers.Endpoint.Family.{
  path_of, EndsIn, Request, chat, respond, message, request_of, groq-EndsIn, is_groq, chat_route,
  responses_route, messages_route,
}

versioned_of :
    (t : Target) {path : String}
    → t.request_path ≡ path
    → starts_with path "/v1/" ≡ true
    → is_versioned t ≡ true
versioned_of t e h = rw e h

chat_agrees :
    (p : ProviderId) (t : Target)
    → t.request_path ≡ "/v1/chat/completions"
    → EndsIn (route_by_provider p t "/chat/completions") (
        path_of (
          compatible_api_for_client p
            (SupportedApisFromClient.openai_chat_completions chat_completions)
            t.is_streaming))
unfolding route_by_provider compatible_api_for_client
chat_agrees groq t e = rw (versioned_of t e refl) (groq-EndsIn t e)
chat_agrees p t e = chat_route t (versioned_of t e refl) p refl

target-Request :
    (p : ProviderId) (api : SupportedApisFromClient) (t : Target)
    → Request t.request_path api
    → (is_groq p ≡ false) ⊎ (api ≢ SupportedApisFromClient.openai_responses_api responses)
    → EndsIn
        (target_endpoint_for_provider api p t)
        (path_of (compatible_api_for_client p api t.is_streaming))
unfolding target_endpoint_for_provider
target-Request p api t (chat path same) allowed = rw same (chat_agrees p t path)
target-Request p api t (respond path same) (inl other) =
    rw same (responses_route t (versioned_of t path refl) p other)
target-Request p api t (respond path same) (inr other) = absurd (other same)
target-Request p api t (message path same) allowed =
    rw same (messages_route t (versioned_of t path refl) p)

-- A client's request is sent to a path of the API that it is translated to: behind some prefix the
-- endpoint is that API's path, followed by nothing or by Azure's version. This holds for every
-- provider, API, model, prefix and flag, but for a Responses request to Groq.
pub target-EndsIn :
    (p : ProviderId) (api : SupportedApisFromClient) (t : Target)
    → client_from_endpoint t.request_path ≡ some api
    → (is_groq p ≡ false) ⊎ (api ≢ SupportedApisFromClient.openai_responses_api responses)
    → EndsIn
        (target_endpoint_for_provider api p t)
        (path_of (compatible_api_for_client p api t.is_streaming))
target-EndsIn p api t read = target-Request p api t (request_of t.request_path api read)

-- A Responses request to Groq is translated to chat completions and sent to Groq's Responses path.
pub groq_responses_mismatch :
    (t : Target)
    → t.request_path ≡ "/v1/responses"
    → t.base_url_path_prefix ≡ none
    → (target_endpoint_for_provider (SupportedApisFromClient.openai_responses_api responses) groq t
        ≡ "/openai/v1/responses")
      × (compatible_api_for_client groq
            (SupportedApisFromClient.openai_responses_api responses)
            t.is_streaming
          ≡ chat_upstream)
unfolding target_endpoint_for_provider route_by_provider compatible_api_for_client build_endpoint
    prefix_for trim_slashes trim_start_slashes
groq_responses_mismatch t path no_prefix = (rw (versioned_of t path refl, path, no_prefix), refl)

-- The chat completions path of the providers that have one of their own.
abbrev pub own_chat_path : ProviderId → Option String
own_chat_path groq = some "/openai/v1/chat/completions"
own_chat_path zhipu = some "/api/paas/v4/chat/completions"
own_chat_path qwen = some "/compatible-mode/v1/chat/completions"
own_chat_path gemini = some "/v1beta/openai/chat/completions"
own_chat_path _ = none

-- For a provider with a chat completions path of its own, and no configured prefix, a Messages
-- request is translated to chat completions and sent to "/v1/chat/completions", while a chat
-- completions request is sent to the provider's own path.
pub messages_path_ignores_provider :
    (p : ProviderId) (t u : Target) (path : String)
    → own_chat_path p ≡ some path
    → t.base_url_path_prefix ≡ none
    → u.request_path ≡ "/v1/chat/completions"
    → u.base_url_path_prefix ≡ none
    → (compatible_api_for_client p
          (SupportedApisFromClient.anthropic_messages_api messages)
          t.is_streaming
        ≡ chat_upstream)
      × (target_endpoint_for_provider (SupportedApisFromClient.anthropic_messages_api messages) p t
          ≡ "/v1/chat/completions")
      × (target_endpoint_for_provider
            (SupportedApisFromClient.openai_chat_completions chat_completions)
            p
            u
          ≡ path)
unfolding target_endpoint_for_provider route_by_provider route_messages compatible_api_for_client
    build_endpoint prefix_for trim_slashes trim_start_slashes
messages_path_ignores_provider groq t u path own t_prefix u_path u_prefix =
    (refl, rw t_prefix, rw (versioned_of u u_path refl, u_path, u_prefix) (some-injective _ _ own))
messages_path_ignores_provider zhipu t u path own t_prefix u_path u_prefix =
    (refl, rw t_prefix, rw (versioned_of u u_path refl, u_prefix) (some-injective _ _ own))
messages_path_ignores_provider qwen t u path own t_prefix u_path u_prefix =
    (refl, rw t_prefix, rw (versioned_of u u_path refl, u_prefix) (some-injective _ _ own))
messages_path_ignores_provider gemini t u path own t_prefix u_path u_prefix =
    (refl, rw t_prefix, rw (versioned_of u u_path refl, u_prefix) (some-injective _ _ own))
messages_path_ignores_provider p t u path own t_prefix u_path u_prefix = absurd (cc)
