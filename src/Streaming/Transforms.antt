-- ===== src/Streaming/Transforms.antt =====
-- The transforms of a stream's events between protocols: transforms/response_streaming, with the
-- conversions of stop reasons and usages in transforms/request and transforms/response.
pub mod ToChat
pub mod ToMessages
pub mod ToResponses
pub mod Deltas
use plano.Prelude.{ℕ, ◌+◌, ◌%◌, ◌^◌, none, String}
use plano.Streaming.Chat.{Usage, FinishReason}
use plano.Streaming.Sse.{MessagesUsage, MessagesStopReason}

-- The errors of a transform.
pub data TransformError : Type 0 where
  json_error unsupported_content missing_field unsupported_conversion : String → TransformError
  invalid_tool_input : TransformError

-- The time that a transform reads, in seconds, and in nanoseconds as it is printed.
pub record Clock : Type 0 where
  pub seconds : ℕ
  pub nanos : String

-- `From<MessagesStopReason> for FinishReason`
unfoldable pub finish_reason : MessagesStopReason → FinishReason
finish_reason MessagesStopReason.end_turn = FinishReason.stop
finish_reason MessagesStopReason.max_tokens = FinishReason.length
finish_reason MessagesStopReason.stop_sequence = FinishReason.stop
finish_reason MessagesStopReason.tool_use = FinishReason.tool_calls
finish_reason MessagesStopReason.pause_turn = FinishReason.stop
finish_reason MessagesStopReason.refusal = FinishReason.content_filter

-- `From<FinishReason> for MessagesStopReason`
unfoldable pub stop_reason : FinishReason → MessagesStopReason
stop_reason FinishReason.stop = MessagesStopReason.end_turn
stop_reason FinishReason.length = MessagesStopReason.max_tokens
stop_reason FinishReason.tool_calls = MessagesStopReason.tool_use
stop_reason FinishReason.content_filter = MessagesStopReason.refusal
stop_reason FinishReason.function_call = MessagesStopReason.tool_use

-- `From<MessagesUsage> for Usage`; the sum of two `u32` wraps.
unfoldable pub openai_usage : MessagesUsage → Usage
openai_usage u = record {
  prompt_tokens = u.input_tokens;
  completion_tokens = u.output_tokens;
  total_tokens = (u.input_tokens + u.output_tokens) % 2 ^ 32;
  prompt_tokens_details = none;
  completion_tokens_details = none;
}

-- `From<Usage> for MessagesUsage`
unfoldable pub messages_usage : Usage → MessagesUsage
messages_usage u = record {
  input_tokens = u.prompt_tokens;
  output_tokens = u.completion_tokens;
  cache_creation_input_tokens = none;
  cache_read_input_tokens = none;
}
