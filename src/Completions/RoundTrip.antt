-- ===== src/Completions/RoundTrip.antt =====
-- A response of the Messages API through a chat completion and back.
use plano.Prelude.{ℕ, none, false, List, [], ◌∷◌, String, is_empty, ◌≡◌, refl}
use plano.State.{Result, ok, err}
use plano.Streaming.Sse.{
  MessagesContentBlock, MessagesRole, MessagesStopReason, text, tool_use_block,
}
use plano.Streaming.Transforms.{TransformError, Clock, finish_reason, stop_reason}
use plano.Streaming.Transforms.Deltas.RoundTrip.{
  IsShared, end_turn, max_tokens, tool_use, refusal, counted,
}
use plano.Completions.{MessagesResponse, ToolCall, ChatCompletionsResponse}
use plano.Completions.Transforms.{
  all_calls, extract_tool_calls, if_any, text_parts, join_parts,
  convert_anthropic_content_to_openai, messages_response_to_chat, call_blocks, calls_of,
  convert_response_message, chat_response_to_messages,
}

-- The calls of a response, whose inputs are JSON values as they are printed.
pub data AreCalls (read_value : String → Result String String)
    : List MessagesContentBlock → Type 0 where
  no_calls : AreCalls read_value []
  a_call :
      {blocks : List MessagesContentBlock} (id name input : String)
      → read_value input ≡ ok input
      → AreCalls read_value blocks
      → AreCalls read_value (tool_use_block id name input ∷ blocks)

abbrev pub answered :
    String → String → List MessagesContentBlock → MessagesStopReason → ℕ → ℕ → MessagesResponse
answered id model content reason input output = record {
  id = id;
  obj_type = "message";
  role = MessagesRole.assistant;
  content = content;
  model = model;
  stop_reason = reason;
  stop_sequence = none;
  usage = counted input output;
  container = none;
}

module _ (read_value : String → Result String String) where
  abbrev pub then_response :
      Result TransformError ChatCompletionsResponse → Result TransformError MessagesResponse
  then_response (ok resp) = chat_response_to_messages read_value resp
  then_response (err e) = err e

  stop_reason-finish_reason :
      {reason : MessagesStopReason} → IsShared reason → stop_reason (finish_reason reason) ≡ reason
  unfolding stop_reason finish_reason
  stop_reason-finish_reason end_turn = refl
  stop_reason-finish_reason max_tokens = refl
  stop_reason-finish_reason tool_use = refl
  stop_reason-finish_reason refusal = refl

  pub calls_of-if_any : (calls : List ToolCall) → calls_of read_value (if_any calls) ≡ calls
  calls_of-if_any [] = refl
  calls_of-if_any (call ∷ calls) = refl

  text_parts-calls :
      {blocks : List MessagesContentBlock} → AreCalls read_value blocks → text_parts blocks ≡ []
  unfolding text_parts
  text_parts-calls no_calls = refl
  text_parts-calls (a_call id name input is rest) = text_parts-calls rest

  pub call_blocks-all_calls :
      {blocks : List MessagesContentBlock}
      → AreCalls read_value blocks
      → call_blocks read_value (all_calls blocks) ≡ ok blocks
  unfolding call_blocks all_calls
  call_blocks-all_calls no_calls = refl
  call_blocks-all_calls (a_call id name input is rest) = rw (is, call_blocks-all_calls rest) refl

  -- A response of the Messages API with one text and then calls, and with a stop reason that a chat
  -- completion has, comes back from the chat completion as it was.
  pub chat_response-messages_response :
      (clock : Clock) (id model t : String) {blocks : List MessagesContentBlock}
      {reason : MessagesStopReason} (input output : ℕ)
      → is_empty t ≡ false
      → AreCalls read_value blocks
      → IsShared reason
      → then_response (
          messages_response_to_chat clock (answered id model (text t ∷ blocks) reason input output))
        ≡ ok (answered id model (text t ∷ blocks) reason input output)
  unfolding messages_response_to_chat chat_response_to_messages convert_response_message
      extract_tool_calls convert_anthropic_content_to_openai all_calls text_parts join_parts
  chat_response-messages_response clock id model t {blocks} input output some_text calls shared =
      rw
        (
          text_parts-calls calls,
          calls_of-if_any (all_calls blocks),
          call_blocks-all_calls calls,
          some_text,
          stop_reason-finish_reason shared,
        )
        refl
