-- ===== src/Streaming/Transforms/ToChat.antt =====
-- To the chunks of a chat completion: transforms/response_streaming/to_openai_streaming.rs.
use plano.Prelude.{ℕ, Option, none, some, [], ◌∷◌, String, ◌<>◌}
use plano.State.{Result, ok, err}
use plano.Streaming.Chat.{
  Role, FinishReason, Usage, ToolCallDelta, MessageDelta, ChatCompletionsStreamResponse,
}
use plano.Streaming.Sse.{
  MessagesStreamEvent, MessagesContentBlock, MessagesContentDelta, message_start,
  content_block_start, content_block_delta, content_block_stop, message_delta, message_stop, ping,
  text, tool_use_block, server_tool_use_block, mcp_tool_use_block, text_delta, input_json_delta,
  thinking_delta, signature_delta,
}
use plano.Streaming.Converse.{
  ConverseStreamEvent, ConversationRole, StopReason, ContentBlockStart, ContentBlockDelta,
  tool_use_start, tool_use_delta,
}
use plano.Streaming.Transforms.{
  TransformError, unsupported_content, Clock, finish_reason, openai_usage,
}

-- The delta with nothing in it.
abbrev pub empty_delta : MessageDelta
empty_delta = record {
  role = none;
  content = none;
  refusal = none;
  function_call = none;
  tool_calls = none;
}

abbrev pub content_delta : String → MessageDelta
content_delta content = record empty_delta { content = some content }

abbrev pub tool_delta : ToolCallDelta → MessageDelta
tool_delta call = record empty_delta { tool_calls = some (call ∷ []) }

abbrev pub call_start : ℕ → String → String → ToolCallDelta
call_start index id name = record {
  index = index;
  id = some id;
  call_type = some "function";
  function = some (record { name = some name; arguments = some "" });
}

abbrev pub call_arguments : ℕ → String → ToolCallDelta
call_arguments index arguments = record {
  index = index;
  id = none;
  call_type = none;
  function = some (record { name = none; arguments = some arguments });
}

-- `From<StopReason>` written out in the conversion of `MessageStop`.
unfoldable pub converse_finish_reason : StopReason → FinishReason
converse_finish_reason StopReason.end_turn = FinishReason.stop
converse_finish_reason StopReason.tool_use = FinishReason.tool_calls
converse_finish_reason StopReason.max_tokens = FinishReason.length
converse_finish_reason StopReason.stop_sequence = FinishReason.stop
converse_finish_reason StopReason.guardrail_intervened = FinishReason.content_filter
converse_finish_reason StopReason.content_filtered = FinishReason.content_filter

abbrev pub converse_role : ConversationRole → Role
converse_role ConversationRole.user = Role.user
converse_role ConversationRole.assistant = Role.assistant

module _ (clock : Clock) where
  unfoldable pub create_openai_chunk :
      String
      → String
      → MessageDelta
      → Option FinishReason
      → Option Usage
      → ChatCompletionsStreamResponse
  create_openai_chunk id model delta finish_reason usage = record {
    id = id;
    object = some "chat.completion.chunk";
    created = clock.seconds;
    model = model;
    choices =
        record { index = 0; delta = delta; finish_reason = finish_reason; logprobs = none } ∷ [];
    usage = usage;
    system_fingerprint = none;
    service_tier = none;
  }

  unfoldable pub create_empty_openai_chunk : ChatCompletionsStreamResponse
  create_empty_openai_chunk = create_openai_chunk "stream" "unknown" empty_delta none none

  abbrev pub stream_chunk : MessageDelta → ChatCompletionsStreamResponse
  stream_chunk delta = create_openai_chunk "stream" "unknown" delta none none

  unfoldable pub convert_content_block_start :
      MessagesContentBlock → ℕ → Result TransformError ChatCompletionsStreamResponse
  convert_content_block_start (text t) index = ok create_empty_openai_chunk
  convert_content_block_start (tool_use_block id name input) index =
      ok (stream_chunk (tool_delta (call_start index id name)))
  convert_content_block_start (server_tool_use_block id name input) index =
      ok (stream_chunk (tool_delta (call_start index id name)))
  convert_content_block_start (mcp_tool_use_block id name input) index =
      ok (stream_chunk (tool_delta (call_start index id name)))
  convert_content_block_start _ index =
      err (unsupported_content "Unsupported content block type in stream start")

  unfoldable pub convert_content_delta :
      MessagesContentDelta → ℕ → Result TransformError ChatCompletionsStreamResponse
  convert_content_delta (text_delta t) index = ok (stream_chunk (content_delta t))
  convert_content_delta (thinking_delta thinking) index =
      ok (stream_chunk (content_delta ("thinking: " <> thinking)))
  convert_content_delta (input_json_delta partial_json) index =
      ok (stream_chunk (tool_delta (call_arguments index partial_json)))
  convert_content_delta (signature_delta signature) index = ok (stream_chunk empty_delta)

  -- `TryFrom<MessagesStreamEvent> for ChatCompletionsStreamResponse`
  unfoldable pub messages_to_chat :
      MessagesStreamEvent → Result TransformError ChatCompletionsStreamResponse
  messages_to_chat (message_start message) = ok (
      create_openai_chunk message.id message.model
        (record empty_delta { role = some Role.assistant }) none none)
  messages_to_chat (content_block_start index block) = convert_content_block_start block index
  messages_to_chat (content_block_delta index delta) = convert_content_delta delta index
  messages_to_chat (content_block_stop index) = ok create_empty_openai_chunk
  messages_to_chat (message_delta delta usage) = ok (
      create_openai_chunk "stream" "unknown" empty_delta (some (finish_reason delta.stop_reason))
        (some (openai_usage usage)))
  messages_to_chat message_stop =
      ok (create_openai_chunk "stream" "unknown" empty_delta (some FinishReason.stop) none)
  messages_to_chat ping = ok (record {
    id = "stream";
    object = some "chat.completion.chunk";
    created = clock.seconds;
    model = "unknown";
    choices = [];
    usage = none;
    system_fingerprint = none;
    service_tier = none;
  })

  abbrev pub converse_block : ℕ → ContentBlockStart → ChatCompletionsStreamResponse
  converse_block index (tool_use_start start) =
      stream_chunk (tool_delta (call_start index start.tool_use_id start.name))

  abbrev pub converse_delta : ℕ → ContentBlockDelta → ChatCompletionsStreamResponse
  converse_delta index (ContentBlockDelta.text t) = stream_chunk (content_delta t)
  converse_delta index (tool_use_delta delta) =
      stream_chunk (tool_delta (call_arguments index delta.input))

  -- `TryFrom<ConverseStreamEvent> for ChatCompletionsStreamResponse`
  unfoldable pub converse_to_chat :
      ConverseStreamEvent → Result TransformError ChatCompletionsStreamResponse
  converse_to_chat (ConverseStreamEvent.message_start start_event) =
      ok (stream_chunk (record empty_delta { role = some (converse_role start_event.role) }))
  converse_to_chat (ConverseStreamEvent.content_block_start start_event) =
      ok (converse_block start_event.content_block_index start_event.start)
  converse_to_chat (ConverseStreamEvent.content_block_delta delta_event) =
      ok (converse_delta delta_event.content_block_index delta_event.delta)
  converse_to_chat (ConverseStreamEvent.content_block_stop e) = ok create_empty_openai_chunk
  converse_to_chat (ConverseStreamEvent.message_stop stop_event) = ok (
      create_openai_chunk "stream" "unknown" empty_delta
        (some (converse_finish_reason stop_event.stop_reason)) none)
  converse_to_chat (ConverseStreamEvent.metadata metadata_event) = ok (
      create_openai_chunk "stream" "unknown" empty_delta none (
        some (record {
          prompt_tokens = metadata_event.usage.input_tokens;
          completion_tokens = metadata_event.usage.output_tokens;
          total_tokens = metadata_event.usage.total_tokens;
          prompt_tokens_details = none;
          completion_tokens_details = none;
        })))
  converse_to_chat _ = ok create_empty_openai_chunk
