-- ===== src/Requests/Provider/Upstream.antt =====
-- The conversion of a request for its upstream: its API, its model and its streaming.
use plano.Prelude.{
  Bool, true, false, Option, none, List, String, ◌≡◌, refl, ap, inl, inr, Bool-cases, starts_with,
}
use plano.State.{Result, ok, err}
use plano.Providers.Api.{SupportedUpstreamApis}
use plano.Streaming.Transforms.{TransformError}
use plano.Requests.{
  Tool, ChatCompletionsRequest, is_o3, suppress_max_tokens_if_o3, fix_temperature_if_gpt5,
}
use plano.Requests.Messages.{MessagesRequest}
use plano.Requests.Converse.{ConverseRequest}
use plano.Requests.Responses.{ResponsesApiRequest}
use plano.Requests.FromMessages.{messages_request_to_chat, chat_fields}
use plano.Requests.FromMessages.ToConverse.{
  messages_request_to_converse, converse_messages, converse_fields, mapped, is_true,
}
use plano.Requests.FromChat.{chat_request_to_messages, messages_of, messages_fields}
use plano.Requests.FromChat.ToConverse.{
  chat_request_to_converse, conversation_of, converse_fields_of,
}
use plano.Requests.ResponsesTools.{Json, tools_of}
use plano.Requests.FromResponses.{responses_request_to_chat, chat_fields_of}
use plano.Requests.Provider.{
  ProviderRequestType, chat_completions_request, messages_request, bedrock_converse,
  bedrock_converse_stream, responses_api_request, ProviderRequestError, for_upstream, model,
  is_streaming, by_chat, converted, chat_upstream, messages_upstream, responses_upstream,
}

-- The requests that an upstream takes.
pub data IsFor : SupportedUpstreamApis → ProviderRequestType → Type 0 where
  for_chat :
      {api : _} {req : ChatCompletionsRequest}
      → IsFor (SupportedUpstreamApis.openai_chat_completions api) (chat_completions_request req)
  for_messages :
      {api : _} {req : MessagesRequest}
      → IsFor (SupportedUpstreamApis.anthropic_messages_api api) (messages_request req)
  for_converse :
      {api : _} {req : ConverseRequest}
      → IsFor (SupportedUpstreamApis.amazon_bedrock_converse api) (bedrock_converse req)
  for_converse_stream :
      {api : _} {req : ConverseRequest}
      → IsFor
          (SupportedUpstreamApis.amazon_bedrock_converse_stream api)
          (bedrock_converse_stream req)
  for_responses :
      {api : _} {req : ResponsesApiRequest}
      → IsFor (SupportedUpstreamApis.openai_responses_api api) (responses_api_request req)

-- Converse has an endpoint for streams and one without; any other upstream reads the client's choice.
abbrev pub streams : SupportedUpstreamApis → Bool → Bool
streams (SupportedUpstreamApis.amazon_bedrock_converse api) b = false
streams (SupportedUpstreamApis.amazon_bedrock_converse_stream api) b = true
streams _ b = b

module _ (read_value : String → Result String String) (json : Json) where
  -- A result is a request for the upstream, with the model and the streaming of the client's.
  abbrev pub Fits :
      SupportedUpstreamApis
      → String
      → Bool
      → Result ProviderRequestError ProviderRequestType
      → Type 0
  Fits api name streaming (ok r) =
      IsFor api r × (model r ≡ name) × (is_streaming r ≡ streams api streaming)
  Fits api name streaming (err e) = Unit

  converted_fits :
      (api : SupportedUpstreamApis) (names name : String) (streaming : Bool) {A B : Type 0}
      (f : A → B) (wrap : B → ProviderRequestType)
      → ((b : B) → IsFor api (wrap b))
      → ((a : A) → model (wrap (f a)) ≡ name)
      → ((a : A) → is_streaming (wrap (f a)) ≡ streams api streaming)
      → (r : Result TransformError A) → Fits api name streaming (converted names wrap (mapped f r))
  converted_fits api names name streaming f wrap for_api same_model same_stream (ok a) =
      (for_api (f a), same_model a, same_stream a)
  converted_fits api names name streaming f wrap for_api same_model same_stream (err e) = tt

  chat_fits :
      (req : ChatCompletionsRequest) (api : SupportedUpstreamApis)
      → Fits api req.model (is_true req.stream) (chat_upstream read_value json req api)
  unfolding chat_request_to_messages chat_request_to_converse model is_streaming
  chat_fits req (SupportedUpstreamApis.openai_chat_completions api) = (for_chat, refl, refl)
  chat_fits req (SupportedUpstreamApis.anthropic_messages_api api) =
      converted_fits _ _ req.model (is_true req.stream) (messages_fields read_value req)
        messages_request (λ b. for_messages) (λ a. refl) (λ a. refl)
        (messages_of read_value req.messages)
  chat_fits req (SupportedUpstreamApis.amazon_bedrock_converse api) =
      converted_fits _ _ req.model (is_true req.stream) (converse_fields_of read_value req)
        bedrock_converse (λ b. for_converse) (λ a. refl) (λ a. refl)
        (conversation_of read_value req.messages)
  chat_fits req (SupportedUpstreamApis.amazon_bedrock_converse_stream api) =
      converted_fits _ _ req.model (is_true req.stream) (converse_fields_of read_value req)
        bedrock_converse_stream (λ b. for_converse_stream) (λ a. refl) (λ a. refl)
        (conversation_of read_value req.messages)
  chat_fits req (SupportedUpstreamApis.openai_responses_api api) = tt

  gpt5_keeps :
      (r : ChatCompletionsRequest)
      → ((fix_temperature_if_gpt5 r).model ≡ r.model)
        × ((fix_temperature_if_gpt5 r).stream ≡ r.stream)
  unfolding fix_temperature_if_gpt5
  gpt5_keeps r = elim (Bool-cases (starts_with r.model "gpt-5")) [
    | inl gpt5 ↦ rw gpt5 (refl, refl)
    | inr other ↦ rw other (refl, refl)
  ]

  fixed_keeps :
      (req : ChatCompletionsRequest)
      → ((fix_temperature_if_gpt5 (suppress_max_tokens_if_o3 req)).model ≡ req.model)
        × ((fix_temperature_if_gpt5 (suppress_max_tokens_if_o3 req)).stream ≡ req.stream)
  unfolding suppress_max_tokens_if_o3
  fixed_keeps req = elim (Bool-cases (is_o3 req.model)) [
    | inl o3 ↦ rw o3 (gpt5_keeps (record req { max_tokens = none }))
    | inr other ↦ rw other (gpt5_keeps req)
  ]

  messages_fits :
      (req : MessagesRequest) (api : SupportedUpstreamApis)
      → Fits api req.model (is_true req.stream) (messages_upstream read_value json req api)
  unfolding messages_request_to_chat messages_request_to_converse model is_streaming
  messages_fits req (SupportedUpstreamApis.openai_chat_completions api) =
      (for_chat, (fixed_keeps (chat_fields req)).0, ap is_true (fixed_keeps (chat_fields req)).1)
  messages_fits req (SupportedUpstreamApis.anthropic_messages_api api) = (for_messages, refl, refl)
  messages_fits req (SupportedUpstreamApis.amazon_bedrock_converse api) =
      converted_fits _ _ req.model (is_true req.stream) (converse_fields req) bedrock_converse
        (λ b. for_converse) (λ a. refl) (λ a. refl) (converse_messages req.messages)
  messages_fits req (SupportedUpstreamApis.amazon_bedrock_converse_stream api) =
      converted_fits _ _ req.model (is_true req.stream) (converse_fields req)
        bedrock_converse_stream (λ b. for_converse_stream) (λ a. refl) (λ a. refl)
        (converse_messages req.messages)
  messages_fits req (SupportedUpstreamApis.openai_responses_api api) = tt

  by_chat_fits :
      (api : SupportedUpstreamApis) (req : ResponsesApiRequest)
      (tools : Result TransformError (List Tool × Option String))
      → Fits api req.model
          (is_true req.stream)
          (by_chat (chat_fields_of json req tools) (λ chat. chat_upstream read_value json chat api))
  by_chat_fits api req (ok (tools, options)) = chat_fits _ api
  by_chat_fits api req (err e) = tt

  responses_fits :
      (req : ResponsesApiRequest) (api : SupportedUpstreamApis)
      → Fits api req.model (is_true req.stream) (responses_upstream read_value json req api)
  unfolding responses_request_to_chat model is_streaming
  responses_fits req (SupportedUpstreamApis.openai_chat_completions api) =
      by_chat_fits (SupportedUpstreamApis.openai_chat_completions api) req (tools_of json req.tools)
  responses_fits req (SupportedUpstreamApis.anthropic_messages_api api) =
      by_chat_fits (SupportedUpstreamApis.anthropic_messages_api api) req (tools_of json req.tools)
  responses_fits req (SupportedUpstreamApis.amazon_bedrock_converse api) =
      by_chat_fits (SupportedUpstreamApis.amazon_bedrock_converse api) req (tools_of json req.tools)
  responses_fits req (SupportedUpstreamApis.amazon_bedrock_converse_stream api) =
      by_chat_fits (SupportedUpstreamApis.amazon_bedrock_converse_stream api) req
        (tools_of json req.tools)
  responses_fits req (SupportedUpstreamApis.openai_responses_api api) = (for_responses, refl, refl)

  fits :
      (req : ProviderRequestType) (api : SupportedUpstreamApis)
      → Fits api (model req) (is_streaming req) (for_upstream read_value json req api)
  unfolding for_upstream model is_streaming
  fits (chat_completions_request req) api = chat_fits req api
  fits (messages_request req) api = messages_fits req api
  fits (bedrock_converse req) api = tt
  fits (bedrock_converse_stream req) api = tt
  fits (responses_api_request req) api = responses_fits req api

  -- A request that is converted for an upstream is one that this upstream takes, names the model of
  -- the client's request, and streams as that does; for the two APIs of Converse it streams where the
  -- API does.
  pub for_upstream-IsFor :
      (req : ProviderRequestType) (api : SupportedUpstreamApis) (r : ProviderRequestType)
      → for_upstream read_value json req api ≡ ok r
      → IsFor api r × (model r ≡ model req) × (is_streaming r ≡ streams api (is_streaming req))
  for_upstream-IsFor req api r h = rw h at (fits req api)
