-- ===== src/Streaming/Transforms/ToMessages.antt =====
-- To the events of the Messages API: transforms/response_streaming/to_anthropic_streaming.rs.
use plano.Prelude.{ℕ, Option, none, some, List, [], ◌∷◌, String, ◌<>◌, is_empty, if◌then◌else◌}
use plano.State.{Result, ok}
use plano.Streaming.Chat.{
  FinishReason, Usage, FunctionCallDelta, ToolCallDelta, StreamChoice,
  ChatCompletionsStreamResponse,
}
use plano.Streaming.Sse.{
  MessagesStreamEvent, MessagesUsage, MessagesRole, MessagesStopReason, MessagesContentDelta,
  message_start, content_block_start, content_block_delta, content_block_stop, message_delta, ping,
  tool_use_block, text_delta, input_json_delta,
}
use plano.Streaming.Converse.{
  ConverseStreamEvent, ConversationRole, StopReason, ContentBlockStart, ContentBlockDelta,
  tool_use_start, tool_use_delta,
}
use plano.Streaming.Transforms.{TransformError, Clock, stop_reason, messages_usage}

abbrev pub no_usage : MessagesUsage
no_usage = record {
  input_tokens = 0;
  output_tokens = 0;
  cache_creation_input_tokens = none;
  cache_read_input_tokens = none;
}

abbrev pub stopped : MessagesStopReason → MessagesUsage → MessagesStreamEvent
stopped reason usage = message_delta (record { stop_reason = reason; stop_sequence = none }) usage

-- The event of a call that has an identifier, if its function has a name.
abbrev pub start_of_call : ℕ → String → Option FunctionCallDelta → Option MessagesStreamEvent
start_of_call index id none = none
start_of_call index id (some function) = elim function.name [
  | none ↦ none
  | some name ↦ some (content_block_start index (tool_use_block id name "{}"))
]

-- The event of a call without one, if its function has arguments.
abbrev pub arguments_of_call : ℕ → Option FunctionCallDelta → Option MessagesStreamEvent
arguments_of_call index none = none
arguments_of_call index (some function) = elim function.arguments [
  | none ↦ none
  | some arguments ↦ some (content_block_delta index (input_json_delta arguments))
]

abbrev pub event_of_call : ToolCallDelta → Option MessagesStreamEvent
event_of_call call = elim call.id [
  | some id ↦ start_of_call call.index id call.function
  | none ↦ arguments_of_call call.index call.function
]

abbrev pub event_or : Option MessagesStreamEvent → MessagesStreamEvent → MessagesStreamEvent
event_or none rest = rest
event_or (some e) rest = e

unfoldable pub convert_tool_call_deltas : List ToolCallDelta → MessagesStreamEvent
convert_tool_call_deltas [] = ping
convert_tool_call_deltas (call ∷ calls) =
    event_or (event_of_call call) (convert_tool_call_deltas calls)

-- The event of a finish reason, which is only made where there is no usage.
abbrev pub finish_event : Option FinishReason → Option Usage → MessagesStreamEvent
finish_event (some reason) none = stopped (stop_reason reason) no_usage
finish_event _ _ = ping

abbrev pub calls_event :
    Option (List ToolCallDelta) → Option FinishReason → Option Usage → MessagesStreamEvent
calls_event (some calls) reason usage = convert_tool_call_deltas calls
calls_event none reason usage = finish_event reason usage

-- The event of the choice's content, or else that of the rest of the choice.
abbrev pub content_event : Option String → MessagesStreamEvent → MessagesStreamEvent
content_event none rest = rest
content_event (some content) rest =
    if is_empty content then rest else content_block_delta 0 (text_delta content)

abbrev pub choice_event : Option FinishReason → Option Usage → StreamChoice → MessagesStreamEvent
choice_event (some reason) (some usage) choice = stopped (stop_reason reason) (messages_usage usage)
choice_event reason usage choice =
    content_event choice.delta.content (calls_event choice.delta.tool_calls reason usage)

abbrev pub choices_event : List StreamChoice → Option Usage → MessagesStreamEvent
choices_event [] usage = ping
choices_event (choice ∷ choices) usage = choice_event choice.finish_reason usage choice

-- `TryFrom<ChatCompletionsStreamResponse> for MessagesStreamEvent`
unfoldable pub chat_to_messages :
    ChatCompletionsStreamResponse → Result TransformError MessagesStreamEvent
chat_to_messages resp = ok (choices_event resp.choices resp.usage)

unfoldable pub converse_stop_reason : StopReason → MessagesStopReason
converse_stop_reason StopReason.end_turn = MessagesStopReason.end_turn
converse_stop_reason StopReason.tool_use = MessagesStopReason.tool_use
converse_stop_reason StopReason.max_tokens = MessagesStopReason.max_tokens
converse_stop_reason StopReason.stop_sequence = MessagesStopReason.end_turn
converse_stop_reason StopReason.guardrail_intervened = MessagesStopReason.refusal
converse_stop_reason StopReason.content_filtered = MessagesStopReason.refusal

abbrev pub converse_messages_role : ConversationRole → MessagesRole
converse_messages_role ConversationRole.user = MessagesRole.user
converse_messages_role ConversationRole.assistant = MessagesRole.assistant

abbrev pub converse_messages_block : ℕ → ContentBlockStart → MessagesStreamEvent
converse_messages_block index (tool_use_start start) =
    content_block_start index (tool_use_block start.tool_use_id start.name "{}")

abbrev pub converse_messages_delta : ContentBlockDelta → MessagesContentDelta
converse_messages_delta (ContentBlockDelta.text t) = text_delta t
converse_messages_delta (tool_use_delta delta) = input_json_delta delta.input

-- `TryFrom<ConverseStreamEvent> for MessagesStreamEvent`
unfoldable pub converse_to_messages :
    Clock → ConverseStreamEvent → Result TransformError MessagesStreamEvent
converse_to_messages clock (ConverseStreamEvent.message_start start_event) = ok (
    message_start (record {
      id = "bedrock-stream-" <> clock.nanos;
      obj_type = "message";
      role = converse_messages_role start_event.role;
      content = [];
      model = "bedrock-model";
      stop_reason = none;
      stop_sequence = none;
      usage = no_usage;
    }))
converse_to_messages clock (ConverseStreamEvent.content_block_start start_event) =
    ok (converse_messages_block start_event.content_block_index start_event.start)
converse_to_messages clock (ConverseStreamEvent.content_block_delta delta_event) = ok (
    content_block_delta delta_event.content_block_index (converse_messages_delta delta_event.delta))
converse_to_messages clock (ConverseStreamEvent.content_block_stop stop_event) =
    ok (content_block_stop stop_event.content_block_index)
converse_to_messages clock (ConverseStreamEvent.message_stop stop_event) =
    ok (stopped (converse_stop_reason stop_event.stop_reason) no_usage)
converse_to_messages clock (ConverseStreamEvent.metadata metadata_event) = ok (
    stopped MessagesStopReason.end_turn (record {
      input_tokens = metadata_event.usage.input_tokens;
      output_tokens = metadata_event.usage.output_tokens;
      cache_creation_input_tokens = metadata_event.usage.cache_write_input_tokens;
      cache_read_input_tokens = metadata_event.usage.cache_read_input_tokens;
    }))
converse_to_messages clock _ = ok ping
