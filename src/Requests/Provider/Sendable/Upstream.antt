-- ===== src/Requests/Provider/Sendable/Upstream.antt =====
-- The requests that are converted for Converse.
use plano.Prelude.{List, String, All, ◌≡◌, refl}
use plano.State.{Result, ok, err}
use plano.Providers.Api.{SupportedUpstreamApis}
use plano.Streaming.Transforms.{TransformError}
use plano.Completions.{ConverseMessage}
use plano.Requests.{ChatCompletionsRequest}
use plano.Requests.Messages.{MessagesRequest}
use plano.Requests.Converse.{ConverseRequest}
use plano.Requests.FromMessages.ToConverse.{
  converse_messages, some_messages, mapped, converse_fields, messages_request_to_converse,
}
use plano.Requests.FromChat.ToConverse.{
  conversation_of, converse_fields_of, chat_request_to_converse,
}
use plano.Requests.Responses.{ResponsesApiRequest}
use plano.Requests.FromMessages.{messages_request_to_chat}
use plano.Requests.FromChat.{chat_request_to_messages}
use plano.Requests.ResponsesTools.{Json}
use plano.Requests.FromResponses.{responses_request_to_chat}
use plano.Requests.Provider.{
  ProviderRequestType, chat_completions_request, messages_request, bedrock_converse,
  bedrock_converse_stream, responses_api_request, converted, by_chat, chat_upstream,
  messages_upstream, responses_upstream, for_upstream,
}
use plano.Requests.Provider.Sendable.{
  IsWordyMessage, IsWordyRequest, IsSendable, AreSendable, IsSendableRequest, IfOk,
  some_messages-AreSendable,
}
use plano.Requests.Provider.Sendable.FromMessages.{converse_messages-AreSendable}
use plano.Requests.Provider.Sendable.FromChat.{conversation_of-AreSendable}

converted_sendable :
    (names : String) {A : Type 0} (P : A → Type 0) (wrap : A → ProviderRequestType)
    → ((a : A) → P a → IsSendableRequest (wrap a))
    → (r : Result TransformError A) → IfOk P r
    → IfOk IsSendableRequest (converted names wrap r)
converted_sendable names P wrap h (ok a) p = h a p
converted_sendable names P wrap h (err e) p = tt

mapped_sendable :
    (f : List ConverseMessage → ConverseRequest)
    → ((ms : List ConverseMessage) → (f ms).messages ≡ some_messages ms)
    → (r : Result TransformError (List ConverseMessage)) → IfOk (All IsSendable) r
    → IfOk (λ (req : ConverseRequest). AreSendable req.messages) (mapped f r)
mapped_sendable f same (ok ms) h = rw (same ms) (some_messages-AreSendable ms h)
mapped_sendable f same (err e) h = tt

module _ (read_value : String → Result String String) (json : Json) where
  abbrev Sends : SupportedUpstreamApis → ProviderRequestType → Type 0
  Sends api req = IfOk IsSendableRequest (for_upstream read_value json req api)

  messages_sendable :
      (req : MessagesRequest)
      → All IsWordyMessage req.messages
      → IfOk (λ (r : ConverseRequest). AreSendable r.messages) (messages_request_to_converse req)
  unfolding messages_request_to_converse
  messages_sendable req wordy =
      mapped_sendable (converse_fields req) (λ ms. refl) (converse_messages req.messages)
        (converse_messages-AreSendable req.messages wordy)

  chat_sendable :
      (req : ChatCompletionsRequest)
      → IfOk
          (λ (r : ConverseRequest). AreSendable r.messages)
          (chat_request_to_converse read_value req)
  unfolding chat_request_to_converse
  chat_sendable req =
      mapped_sendable (converse_fields_of read_value req) (λ ms. refl)
        (conversation_of read_value req.messages)
        (conversation_of-AreSendable read_value req.messages)

  any_ok : {A : Type 0} (r : Result TransformError A) → IfOk (λ (a : A). Unit) r
  any_ok (ok a) = tt
  any_ok (err e) = tt

  chat_upstream_sendable :
      (api : SupportedUpstreamApis) (req : ChatCompletionsRequest)
      → IfOk IsSendableRequest (chat_upstream read_value json req api)
  chat_upstream_sendable (SupportedUpstreamApis.openai_chat_completions api) req = tt
  chat_upstream_sendable (SupportedUpstreamApis.anthropic_messages_api api) req =
      converted_sendable _ (λ (r : MessagesRequest). Unit) messages_request (λ a h. tt)
        (chat_request_to_messages read_value req) (any_ok (chat_request_to_messages read_value req))
  chat_upstream_sendable (SupportedUpstreamApis.amazon_bedrock_converse api) req =
      converted_sendable _ (λ (r : ConverseRequest). AreSendable r.messages) bedrock_converse
        (λ a h. h) (chat_request_to_converse read_value req) (chat_sendable req)
  chat_upstream_sendable (SupportedUpstreamApis.amazon_bedrock_converse_stream api) req =
      converted_sendable _ (λ (r : ConverseRequest). AreSendable r.messages) bedrock_converse_stream
        (λ a h. h) (chat_request_to_converse read_value req) (chat_sendable req)
  chat_upstream_sendable (SupportedUpstreamApis.openai_responses_api api) req = tt

  messages_upstream_sendable :
      (api : SupportedUpstreamApis) (req : MessagesRequest)
      → All IsWordyMessage req.messages
      → IfOk IsSendableRequest (messages_upstream read_value json req api)
  unfolding messages_request_to_chat
  messages_upstream_sendable (SupportedUpstreamApis.openai_chat_completions api) req wordy = tt
  messages_upstream_sendable (SupportedUpstreamApis.anthropic_messages_api api) req wordy = tt
  messages_upstream_sendable (SupportedUpstreamApis.amazon_bedrock_converse api) req wordy =
      converted_sendable _ (λ (r : ConverseRequest). AreSendable r.messages) bedrock_converse
        (λ a h. h) (messages_request_to_converse req) (messages_sendable req wordy)
  messages_upstream_sendable (SupportedUpstreamApis.amazon_bedrock_converse_stream api) req wordy =
      converted_sendable _ (λ (r : ConverseRequest). AreSendable r.messages) bedrock_converse_stream
        (λ a h. h) (messages_request_to_converse req) (messages_sendable req wordy)
  messages_upstream_sendable (SupportedUpstreamApis.openai_responses_api api) req wordy = tt

  by_chat_sendable :
      (api : SupportedUpstreamApis) (r : Result TransformError ChatCompletionsRequest)
      → IfOk IsSendableRequest (by_chat r (λ chat. chat_upstream read_value json chat api))
  by_chat_sendable api (ok chat) = chat_upstream_sendable api chat
  by_chat_sendable api (err e) = tt

  responses_upstream_sendable :
      (api : SupportedUpstreamApis) (req : ResponsesApiRequest)
      → IfOk IsSendableRequest (responses_upstream read_value json req api)
  responses_upstream_sendable (SupportedUpstreamApis.openai_responses_api api) req = tt
  responses_upstream_sendable (SupportedUpstreamApis.openai_chat_completions api) req =
      by_chat_sendable (SupportedUpstreamApis.openai_chat_completions api)
        (responses_request_to_chat json req)
  responses_upstream_sendable (SupportedUpstreamApis.anthropic_messages_api api) req =
      by_chat_sendable (SupportedUpstreamApis.anthropic_messages_api api)
        (responses_request_to_chat json req)
  responses_upstream_sendable (SupportedUpstreamApis.amazon_bedrock_converse api) req =
      by_chat_sendable (SupportedUpstreamApis.amazon_bedrock_converse api)
        (responses_request_to_chat json req)
  responses_upstream_sendable (SupportedUpstreamApis.amazon_bedrock_converse_stream api) req =
      by_chat_sendable (SupportedUpstreamApis.amazon_bedrock_converse_stream api)
        (responses_request_to_chat json req)

  sends :
      (api : SupportedUpstreamApis) (req : ProviderRequestType) → IsWordyRequest req → Sends api req
  unfolding for_upstream
  sends api (chat_completions_request req) wordy = chat_upstream_sendable api req
  sends api (messages_request req) wordy = messages_upstream_sendable api req wordy
  sends api (bedrock_converse req) wordy = tt
  sends api (bedrock_converse_stream req) wordy = tt
  sends api (responses_api_request req) wordy = responses_upstream_sendable api req

  -- Whatever the client's API, every message of a request that is converted for Converse has content,
  -- no text block of it is empty, and no tool result of it is without blocks or has an empty text,
  -- where a client's request of the Messages API has no tool result with an empty text.
  pub for_upstream-IsSendableRequest :
      (api : SupportedUpstreamApis) (req r : ProviderRequestType)
      → IsWordyRequest req
      → for_upstream read_value json req api ≡ ok r
      → IsSendableRequest r
  for_upstream-IsSendableRequest api req r wordy h = rw h at (sends api req wordy)
