-- ===== src/Streaming/Buffers.antt =====
-- The buffers of a stream: streaming_shapes/passthrough_streaming_buffer.rs and
-- streaming_shapes/chat_completions_streaming_buffer.rs, the `SseStreamBuffer` of
-- streaming_shapes/sse.rs, and the choice of a buffer in providers/streaming_response.rs.
use plano.Prelude.{List, [], ◌∷◌, ◌++◌, String, is_empty, if◌then◌else◌}
use plano.Providers.Api.{SupportedApisFromClient, SupportedUpstreamApis}
use plano.Streaming.Anthropic.{AnthropicMessagesStreamBuffer}
use plano.Streaming.Anthropic as Messages
use plano.Streaming.Anthropic.Events as MessagesEvents
use plano.Streaming.Anthropic.Events.{drain}
use plano.Streaming.Responses as Responses
use plano.Streaming.Responses.{Outside, ResponsesApiStreamBuffer}
use plano.Streaming.Responses.Events as ResponsesEvents
use plano.Streaming.Sse.{SseEvent, should_skip, Serde}
use plano.Streaming.Provider.{needs_buffering}

pub record PassthroughStreamBuffer : Type 0 where
  pub buffered_events : List SseEvent

pub record OpenAiChatCompletionsStreamBuffer : Type 0 where
  pub buffered_events : List SseEvent

unfoldable pub passthrough_add : SseEvent → PassthroughStreamBuffer → PassthroughStreamBuffer
passthrough_add event b =
    if should_skip event
    then b
    else if is_empty event.sse_transformed_lines
    then b
    else record { buffered_events = b.buffered_events ++ event ∷ [] }

unfoldable pub passthrough_to_bytes : PassthroughStreamBuffer → String × PassthroughStreamBuffer
passthrough_to_bytes b = (drain b.buffered_events, record { buffered_events = [] })

unfoldable pub chat_completions_add :
    SseEvent → OpenAiChatCompletionsStreamBuffer → OpenAiChatCompletionsStreamBuffer
chat_completions_add event b =
    if should_skip event then b else record { buffered_events = b.buffered_events ++ event ∷ [] }

unfoldable pub chat_completions_to_bytes :
    OpenAiChatCompletionsStreamBuffer → String × OpenAiChatCompletionsStreamBuffer
chat_completions_to_bytes b = (drain b.buffered_events, record { buffered_events = [] })

-- `SseStreamBuffer`
pub data SseStreamBuffer : Type 0 where
  passthrough : PassthroughStreamBuffer → SseStreamBuffer
  openai_chat_completions : OpenAiChatCompletionsStreamBuffer → SseStreamBuffer
  anthropic_messages : AnthropicMessagesStreamBuffer → SseStreamBuffer
  openai_responses : ResponsesApiStreamBuffer → SseStreamBuffer

abbrev pub buffer_for : SupportedApisFromClient → SseStreamBuffer
buffer_for (SupportedApisFromClient.openai_chat_completions c) =
    openai_chat_completions (record { buffered_events = [] })
buffer_for (SupportedApisFromClient.anthropic_messages_api c) = anthropic_messages Messages.new
buffer_for (SupportedApisFromClient.openai_responses_api c) = openai_responses Responses.new

-- `TryFrom<(&SupportedAPIsFromClient, &SupportedUpstreamAPIs)> for SseStreamBuffer`
unfoldable pub stream_buffer : SupportedApisFromClient → SupportedUpstreamApis → SseStreamBuffer
stream_buffer client_api upstream_api =
    if needs_buffering client_api upstream_api
    then buffer_for client_api
    else passthrough (record { buffered_events = [] })

-- The methods of the trait, with what the four buffers take from outside.
module _ (serde : Serde) (uuid : String) (o : Outside) where
  unfoldable pub buffer_add : SseEvent → SseStreamBuffer → SseStreamBuffer
  buffer_add event (passthrough b) = passthrough (passthrough_add event b)
  buffer_add event (openai_chat_completions b) =
      openai_chat_completions (chat_completions_add event b)
  buffer_add event (anthropic_messages b) =
      anthropic_messages (MessagesEvents.add_transformed_event serde uuid event b)
  buffer_add event (openai_responses b) =
      openai_responses (ResponsesEvents.add_transformed_event o event b)

  unfoldable pub buffer_to_bytes : SseStreamBuffer → String × SseStreamBuffer
  buffer_to_bytes (passthrough b) = let r = passthrough_to_bytes b in (r.0, passthrough r.1)
  buffer_to_bytes (openai_chat_completions b) =
      let r = chat_completions_to_bytes b in (r.0, openai_chat_completions r.1)
  buffer_to_bytes (anthropic_messages b) =
      let r = MessagesEvents.to_bytes serde b in (r.0, anthropic_messages r.1)
  buffer_to_bytes (openai_responses b) =
      let r = ResponsesEvents.to_bytes b in (r.0, openai_responses r.1)
