-- ===== src/Streaming/Transforms/Deltas/RoundTrip.antt =====
-- A Messages event through a chunk of a chat completion and back.
use plano.Prelude.{ℕ, false, none, String, ◌≡◌, refl, is_empty}
use plano.State.{Result, ok, err}
use plano.Streaming.Chat.{ChatCompletionsStreamResponse}
use plano.Streaming.Sse.{
  MessagesUsage, MessagesStreamEvent, MessagesStopReason, content_block_start, content_block_delta,
  ping, tool_use_block, text_delta, input_json_delta,
}
use plano.Streaming.Transforms.{
  TransformError, Clock, finish_reason, stop_reason, openai_usage, messages_usage,
}
use plano.Streaming.Transforms.ToChat.{
  create_openai_chunk, convert_content_block_start, convert_content_delta, messages_to_chat,
}
use plano.Streaming.Transforms.ToMessages.{chat_to_messages, stopped, convert_tool_call_deltas}

-- The reasons that a chat completion can tell apart.
pub data IsShared : MessagesStopReason → Type 0 where
  end_turn : IsShared MessagesStopReason.end_turn
  max_tokens : IsShared MessagesStopReason.max_tokens
  tool_use : IsShared MessagesStopReason.tool_use
  refusal : IsShared MessagesStopReason.refusal

-- A usage without cached tokens.
abbrev pub counted : ℕ → ℕ → MessagesUsage
counted i o = record {
  input_tokens = i;
  output_tokens = o;
  cache_creation_input_tokens = none;
  cache_read_input_tokens = none;
}

-- The events that a chat completion has a place for: a text of the first block, a call with its
-- input still to come, a piece of a call's input, an end without cached tokens, and a ping.
pub data IsExpressible : MessagesStreamEvent → Type 0 where
  text : (t : String) → is_empty t ≡ false → IsExpressible (content_block_delta 0 (text_delta t))
  call :
      (index : ℕ) (id name : String)
      → IsExpressible (content_block_start index (tool_use_block id name "{}"))
  input :
      (index : ℕ) (partial_json : String)
      → IsExpressible (content_block_delta index (input_json_delta partial_json))
  ending :
      {reason : MessagesStopReason} (input_tokens output_tokens : ℕ)
      → IsShared reason
      → IsExpressible (stopped reason (counted input_tokens output_tokens))
  alive : IsExpressible ping

abbrev pub then_messages :
    Result TransformError ChatCompletionsStreamResponse → Result TransformError MessagesStreamEvent
then_messages (ok chunk) = chat_to_messages chunk
then_messages (err e) = err e

-- An event that a chat completion has a place for comes back from its chunk as it was.
pub chat_to_messages-messages_to_chat :
    (clock : Clock) {e : MessagesStreamEvent}
    → IsExpressible e
    → then_messages (messages_to_chat clock e) ≡ ok e
unfolding messages_to_chat convert_content_block_start convert_content_delta create_openai_chunk
    chat_to_messages convert_tool_call_deltas finish_reason stop_reason openai_usage messages_usage
chat_to_messages-messages_to_chat clock (text t some_text) = rw some_text refl
chat_to_messages-messages_to_chat clock (call index id name) = refl
chat_to_messages-messages_to_chat clock (input index partial_json) = refl
chat_to_messages-messages_to_chat clock (ending i o end_turn) = refl
chat_to_messages-messages_to_chat clock (ending i o max_tokens) = refl
chat_to_messages-messages_to_chat clock (ending i o tool_use) = refl
chat_to_messages-messages_to_chat clock (ending i o refusal) = refl
chat_to_messages-messages_to_chat clock alive = refl
