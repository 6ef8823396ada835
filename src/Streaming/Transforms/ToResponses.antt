-- ===== src/Streaming/Transforms/ToResponses.antt =====
-- To the events of the Responses API, from a chunk of a chat completion:
-- transforms/response_streaming/to_openai_streaming.rs. The buffer fills in identifiers and numbers.
use plano.Prelude.{ℕ, Option, none, some, List, [], ◌∷◌, String, is_empty, if◌then◌else◌}
use plano.State.{Result, ok, err}
use plano.Streaming.Chat.{
  Role, FinishReason, FunctionCallDelta, ToolCallDelta, StreamChoice, ChatCompletionsStreamResponse,
}
use plano.Streaming.ResponsesApi.{
  ResponsesApiStreamEvent, response_output_text_delta, response_function_call_arguments_delta, done,
}
use plano.Streaming.Transforms.{TransformError, unsupported_conversion}

abbrev pub text_event : ℕ → String → ResponsesApiStreamEvent
text_event index delta = response_output_text_delta "" index 0 delta [] none 0

-- The event of a function: its arguments, or an empty delta if it has only a name.
abbrev pub function_event :
    ℕ → Option String → Option String → Option String → Option ResponsesApiStreamEvent
function_event index call_id name (some arguments) =
    some (response_function_call_arguments_delta index "" arguments 0 call_id name)
function_event index call_id (some name) none =
    some (response_function_call_arguments_delta index "" "" 0 call_id (some name))
function_event index call_id none none = none

abbrev pub call_function_event :
    ℕ → Option String → Option FunctionCallDelta → Option ResponsesApiStreamEvent
call_function_event index call_id none = none
call_function_event index call_id (some function) =
    function_event index call_id function.name function.arguments

-- Only the first call of a chunk is read, and its item is the choice's.
abbrev pub call_event : ℕ → Option (List ToolCallDelta) → Option ResponsesApiStreamEvent
call_event index none = none
call_event index (some []) = none
call_event index (some (call ∷ calls)) = call_function_event index call.id call.function

abbrev pub role_event : ℕ → Option Role → Result TransformError ResponsesApiStreamEvent
role_event index (some role) = ok (text_event index "")
role_event index none =
    err (unsupported_conversion "Empty or keep-alive chunk with no convertible content")

abbrev pub finish_event :
    ℕ → Option FinishReason → Option Role → Result TransformError ResponsesApiStreamEvent
finish_event index (some reason) role = ok (done 0)
finish_event index none role = role_event index role

abbrev pub content_event :
    ℕ
    → Option String
    → Result TransformError ResponsesApiStreamEvent
    → Result TransformError ResponsesApiStreamEvent
content_event index none rest = rest
content_event index (some content) rest =
    if is_empty content then rest else ok (text_event index content)

abbrev pub first_of :
    Option ResponsesApiStreamEvent
    → Result TransformError ResponsesApiStreamEvent
    → Result TransformError ResponsesApiStreamEvent
first_of none rest = rest
first_of (some e) rest = ok e

abbrev pub choices_event : List StreamChoice → Result TransformError ResponsesApiStreamEvent
choices_event [] =
    err (unsupported_conversion "Empty or keep-alive chunk with no convertible content")
choices_event (choice ∷ choices) = first_of (call_event choice.index choice.delta.tool_calls) (
    content_event choice.index choice.delta.content
      (finish_event choice.index choice.finish_reason choice.delta.role))

-- `TryFrom<ChatCompletionsStreamResponse> for ResponsesAPIStreamEvent`
unfoldable pub chat_to_responses :
    ChatCompletionsStreamResponse → Result TransformError ResponsesApiStreamEvent
chat_to_responses chunk = choices_event chunk.choices
