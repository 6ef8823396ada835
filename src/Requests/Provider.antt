-- ===== src/Requests/Provider.antt =====
-- The requests of all APIs and their conversion for an upstream: providers/request.rs. A client's
-- request comes parsed.
pub mod Reading
pub mod SetMessages
pub mod Normalize
pub mod Upstream
pub mod Sendable
pub mod Examples
use plano.Prelude.{Bool, false, true, Option, none, some, String, ◌<>◌}
use plano.State.{Result, ok, err}
use plano.Providers.Api.{SupportedUpstreamApis}
use plano.Streaming.Transforms.{TransformError}
use plano.Streaming.Provider.{error_text}
use plano.Requests.{ChatCompletionsRequest}
use plano.Requests.Messages.{MessagesRequest}
use plano.Requests.Converse.{ConverseRequest}
use plano.Requests.Responses.{ResponsesApiRequest}
use plano.Requests.FromMessages.{messages_request_to_chat}
use plano.Requests.FromMessages.ToConverse.{messages_request_to_converse, is_true}
use plano.Requests.FromChat.{chat_request_to_messages}
use plano.Requests.FromChat.ToConverse.{chat_request_to_converse}
use plano.Requests.ResponsesTools.{Json}
use plano.Requests.FromResponses.{responses_request_to_chat}

pub data ProviderRequestType : Type 0 where
  chat_completions_request : ChatCompletionsRequest → ProviderRequestType
  messages_request : MessagesRequest → ProviderRequestType
  bedrock_converse bedrock_converse_stream : ConverseRequest → ProviderRequestType
  responses_api_request : ResponsesApiRequest → ProviderRequestType

pub record ProviderRequestError : Type 0 where
  pub message : String
  pub source : Option TransformError

abbrev pub refused : {A : Type 0} → String → Result ProviderRequestError A
refused message = err (record { message = message; source = none })

-- What a conversion gives, as a request, or with its error in a message.
abbrev pub converted :
    {A : Type 0}
    → String
    → (A → ProviderRequestType)
    → Result TransformError A
    → Result ProviderRequestError ProviderRequestType
converted names wrap (ok req) = ok (wrap req)
converted names wrap (err e) = err (record {
  message = "Failed to convert " <> (names <> (": " <> error_text e));
  source = some e;
})

-- A Responses request as chat completions, and what is made of these.
abbrev pub by_chat :
    Result TransformError ChatCompletionsRequest
    → (ChatCompletionsRequest → Result ProviderRequestError ProviderRequestType)
    → Result ProviderRequestError ProviderRequestType
by_chat (ok req) more = more req
by_chat (err e) more = err (record {
  message = "Failed to convert ResponsesAPIRequest to ChatCompletionsRequest: " <> error_text e;
  source = some e;
})

module _ (read_value : String → Result String String) (json : Json) where
  abbrev pub chat_upstream :
      ChatCompletionsRequest
      → SupportedUpstreamApis
      → Result ProviderRequestError ProviderRequestType
  chat_upstream req (SupportedUpstreamApis.openai_chat_completions api) =
      ok (chat_completions_request req)
  chat_upstream req (SupportedUpstreamApis.anthropic_messages_api api) =
      converted "ChatCompletionsRequest to MessagesRequest" messages_request
        (chat_request_to_messages read_value req)
  chat_upstream req (SupportedUpstreamApis.amazon_bedrock_converse api) =
      converted "ChatCompletionsRequest to Amazon Bedrock request" bedrock_converse
        (chat_request_to_converse read_value req)
  chat_upstream req (SupportedUpstreamApis.amazon_bedrock_converse_stream api) =
      converted "ChatCompletionsRequest to Amazon Bedrock Stream request" bedrock_converse_stream
        (chat_request_to_converse read_value req)
  chat_upstream req (SupportedUpstreamApis.openai_responses_api api) =
      refused
        "Conversion from ChatCompletionsRequest to ResponsesAPIRequest is not supported. ResponsesAPI can only be used as a client API, not as an upstream API."

  abbrev pub messages_upstream :
      MessagesRequest → SupportedUpstreamApis → Result ProviderRequestError ProviderRequestType
  messages_upstream req (SupportedUpstreamApis.anthropic_messages_api api) =
      ok (messages_request req)
  messages_upstream req (SupportedUpstreamApis.openai_chat_completions api) =
      converted "MessagesRequest to ChatCompletionsRequest" chat_completions_request
        (messages_request_to_chat req)
  messages_upstream req (SupportedUpstreamApis.amazon_bedrock_converse api) =
      converted "MessagesRequest to Amazon Bedrock request" bedrock_converse
        (messages_request_to_converse req)
  messages_upstream req (SupportedUpstreamApis.amazon_bedrock_converse_stream api) =
      converted "MessagesRequest to Amazon Bedrock Stream request" bedrock_converse_stream
        (messages_request_to_converse req)
  messages_upstream req (SupportedUpstreamApis.openai_responses_api api) =
      refused
        "Conversion from MessagesRequest to ResponsesAPIRequest is not supported. ResponsesAPI can only be used as a client API, not as an upstream API."

  abbrev pub responses_upstream :
      ResponsesApiRequest → SupportedUpstreamApis → Result ProviderRequestError ProviderRequestType
  responses_upstream req (SupportedUpstreamApis.openai_responses_api api) =
      ok (responses_api_request req)
  responses_upstream req (SupportedUpstreamApis.openai_chat_completions api) =
      by_chat (responses_request_to_chat json req) (λ chat. ok (chat_completions_request chat))
  responses_upstream req (SupportedUpstreamApis.anthropic_messages_api api) =
      by_chat (responses_request_to_chat json req) (λ chat.
        converted "ChatCompletionsRequest to MessagesRequest" messages_request
          (chat_request_to_messages read_value chat))
  responses_upstream req (SupportedUpstreamApis.amazon_bedrock_converse api) =
      by_chat (responses_request_to_chat json req) (λ chat.
        converted "ChatCompletionsRequest to Amazon Bedrock request" bedrock_converse
          (chat_request_to_converse read_value chat))
  responses_upstream req (SupportedUpstreamApis.amazon_bedrock_converse_stream api) =
      by_chat (responses_request_to_chat json req) (λ chat.
        converted "ChatCompletionsRequest to Amazon Bedrock Stream request" bedrock_converse_stream
          (chat_request_to_converse read_value chat))

  -- `TryFrom<(ProviderRequestType, &SupportedUpstreamAPIs)> for ProviderRequestType`
  unfoldable pub for_upstream :
      ProviderRequestType → SupportedUpstreamApis → Result ProviderRequestError ProviderRequestType
  for_upstream (chat_completions_request req) api = chat_upstream req api
  for_upstream (messages_request req) api = messages_upstream req api
  for_upstream (responses_api_request req) api = responses_upstream req api
  for_upstream (bedrock_converse req) api =
      refused
        "Amazon Bedrock Converse is not supported as a client API. Only OpenAI ChatCompletions, Anthropic Messages, and OpenAI Responses APIs are supported as client APIs."
  for_upstream (bedrock_converse_stream req) api =
      refused
        "Amazon Bedrock Converse Stream is not supported as a client API. Only OpenAI ChatCompletions, Anthropic Messages, and OpenAI Responses APIs are supported as client APIs."

-- `model`, `set_model` and `is_streaming` of `ProviderRequest`
unfoldable pub model : ProviderRequestType → String
model (chat_completions_request req) = req.model
model (messages_request req) = req.model
model (bedrock_converse req) = req.model_id
model (bedrock_converse_stream req) = req.model_id
model (responses_api_request req) = req.model

unfoldable pub set_model : String → ProviderRequestType → ProviderRequestType
set_model m (chat_completions_request req) = chat_completions_request (record req { model = m })
set_model m (messages_request req) = messages_request (record req { model = m })
set_model m (bedrock_converse req) = bedrock_converse (record req { model_id = m })
set_model m (bedrock_converse_stream req) = bedrock_converse_stream (record req { model_id = m })
set_model m (responses_api_request req) = responses_api_request (record req { model = m })

unfoldable pub is_streaming : ProviderRequestType → Bool
is_streaming (chat_completions_request req) = is_true req.stream
is_streaming (messages_request req) = is_true req.stream
is_streaming (bedrock_converse req) = false
is_streaming (bedrock_converse_stream req) = true
is_streaming (responses_api_request req) = is_true req.stream
