-- ===== src/Requests/Provider/Examples.antt =====
-- The conversion and the normalization of a concrete request.
use plano.Prelude.{true, none, some, [], ◌∷◌, ◌≡◌, refl}
use plano.State.{ok}
use plano.Providers.Id.{ProviderId}
use plano.Providers.Api.{SupportedUpstreamApis, OpenAiApi, AmazonBedrockApi}
use plano.Completions.{ContentBlock}
use plano.Requests.{extract_text, content_text, is_kimi_code_model}
use plano.Requests.FromChat.ToConverse.{
  chat_request_to_converse, conversation_of, chat_message_to_converse, system_texts,
}
use plano.Requests.Converse.{ConverseRequest, SystemContentBlock, converse_request}
use plano.Streaming.Converse.{ConversationRole}
use plano.Requests.Provider.{
  chat_completions_request, bedrock_converse, for_upstream, model, is_streaming,
}
use plano.Requests.Provider.Upstream.{IsFor, streams, for_upstream-IsFor}
use plano.Requests.Provider.Sendable.{IsSendableRequest}
use plano.Requests.Provider.Sendable.Upstream.{for_upstream-IsSendableRequest}
use plano.Requests.Provider.Normalize.{normalize_for_upstream, normalize_chat}
use plano.Requests.Provider.Normalize.Twice.{normalize-normalize}
use plano.Requests.Provider.Normalize.Stream.{normalize_chat-sent, sent_options}
use plano.Requests.FromMessages.ToConverse.{is_true}
use plano.Requests.Examples.{read_printed, printed, briefed}

abbrev to_converse : SupportedUpstreamApis
to_converse = SupportedUpstreamApis.amazon_bedrock_converse AmazonBedrockApi.converse

abbrev briefed_converse : ConverseRequest
briefed_converse =
    converse_request "gpt-4o"
      (some (
        record { role = ConversationRole.user; content = ContentBlock.text "Hello" ∷ [] }
        ∷ record { role = ConversationRole.user; content = ContentBlock.text " " ∷ [] }
        ∷ []))
      (some (SystemContentBlock.text "Be kind." ∷ SystemContentBlock.text "Be brief." ∷ [])) none
      none true

briefed-converted :
    for_upstream read_printed printed (chat_completions_request briefed) to_converse
    ≡ ok (bedrock_converse briefed_converse)
unfolding for_upstream chat_request_to_converse conversation_of chat_message_to_converse
    system_texts extract_text content_text
briefed-converted = refl

for_upstream-IsFor_example :
    IsFor to_converse (bedrock_converse briefed_converse)
    × (model (bedrock_converse briefed_converse) ≡ model (chat_completions_request briefed))
    × (is_streaming (bedrock_converse briefed_converse)
        ≡ streams to_converse (is_streaming (chat_completions_request briefed)))
for_upstream-IsFor_example =
    for_upstream-IsFor read_printed printed (chat_completions_request briefed) to_converse
      (bedrock_converse briefed_converse) briefed-converted

for_upstream-IsSendableRequest_example : IsSendableRequest (bedrock_converse briefed_converse)
for_upstream-IsSendableRequest_example =
    for_upstream-IsSendableRequest read_printed printed to_converse
      (chat_completions_request briefed) (bedrock_converse briefed_converse) tt briefed-converted

abbrev to_chat : SupportedUpstreamApis
to_chat = SupportedUpstreamApis.openai_chat_completions OpenAiApi.chat_completions

normalize-normalize_example :
    normalize_for_upstream ProviderId.xai to_chat
      (normalize_for_upstream ProviderId.xai to_chat (chat_completions_request briefed)).0
    ≡ normalize_for_upstream ProviderId.xai to_chat (chat_completions_request briefed)
normalize-normalize_example =
    normalize-normalize ProviderId.xai to_chat (chat_completions_request briefed)

normalize_chat-sent_example :
    ((normalize_chat ProviderId.openai to_chat briefed).stream ≡ some (is_true briefed.stream))
    × ((normalize_chat ProviderId.openai to_chat briefed).stream_options
        ≡ sent_options
            (is_kimi_code_model briefed.model)
            (is_true briefed.stream)
            briefed.stream_options)
normalize_chat-sent_example =
    normalize_chat-sent ProviderId.openai OpenAiApi.chat_completions briefed
