-- ===== src/Completions/Transforms.antt =====
-- The translations of a response: to_openai.rs, to_anthropic.rs and lib.rs of transforms.
use plano.Prelude.{
  ℕ, ◌+◌, ◌%◌, ◌^◌, Option, none, some, List, [], ◌∷◌, ◌++◌, String, ◌<>◌, is_empty, if◌then◌else◌,
}
use plano.State.{Result, ok, err}
use plano.Streaming.Chat.{Role, FinishReason, Usage}
use plano.Streaming.Sse.{
  MessagesContentBlock, MessagesRole, MessagesStopReason, text, tool_use_block,
  server_tool_use_block, mcp_tool_use_block, thinking_block,
}
use plano.Streaming.Transforms.{
  TransformError, json_error, missing_field, Clock, finish_reason, stop_reason,
}
use plano.Streaming.Transforms.ToChat.{converse_finish_reason, converse_role}
use plano.Completions.{
  MessagesResponse, ToolCall, ResponseMessage, Choice, ChatCompletionsResponse, ContentBlock,
  ConverseResponse,
}

abbrev pub function_call : String → String → String → ToolCall
function_call id name arguments = record {
  id = id;
  call_type = "function";
  function = record { name = name; arguments = arguments };
}

abbrev pub block_calls : MessagesContentBlock → List ToolCall
block_calls (tool_use_block id name input) = function_call id name input ∷ []
block_calls (server_tool_use_block id name input) = function_call id name input ∷ []
block_calls (mcp_tool_use_block id name input) = function_call id name input ∷ []
block_calls _ = []

unfoldable pub all_calls : List MessagesContentBlock → List ToolCall
all_calls [] = []
all_calls (block ∷ blocks) = block_calls block ++ all_calls blocks

abbrev pub if_any : List ToolCall → Option (List ToolCall)
if_any [] = none
if_any (call ∷ calls) = some (call ∷ calls)

-- `extract_tool_calls`; printing the input of a call does not fail.
unfoldable pub extract_tool_calls : List MessagesContentBlock → Option (List ToolCall)
extract_tool_calls blocks = if_any (all_calls blocks)

abbrev pub block_text : MessagesContentBlock → List String
block_text (text t) = t ∷ []
block_text (thinking_block thinking signature) = ("thinking: " <> thinking) ∷ []
block_text _ = []

unfoldable pub text_parts : List MessagesContentBlock → List String
text_parts [] = []
text_parts (block ∷ blocks) = block_text block ++ text_parts blocks

-- `join("\n")`
unfoldable pub join_parts : List String → String
join_parts [] = ""
join_parts (t ∷ []) = t
join_parts (t ∷ u ∷ parts) = t <> ("\n" <> join_parts (u ∷ parts))

-- `convert_anthropic_content_to_openai`, which always gives a text.
unfoldable pub convert_anthropic_content_to_openai : List MessagesContentBlock → String
convert_anthropic_content_to_openai content = join_parts (text_parts content)

abbrev pub response_message : Role → Option String → Option (List ToolCall) → ResponseMessage
response_message role content tool_calls = record {
  role = role;
  content = content;
  refusal = none;
  annotations = none;
  audio = none;
  function_call = none;
  tool_calls = tool_calls;
}

abbrev pub completion :
    String → ℕ → String → ResponseMessage → FinishReason → Usage → ChatCompletionsResponse
completion id created model message reason usage = record {
  id = id;
  object = some "chat.completion";
  created = created;
  model = model;
  choices =
      record { index = 0; message = message; finish_reason = some reason; logprobs = none } ∷ [];
  usage = usage;
  system_fingerprint = none;
  service_tier = none;
  metadata = none;
}

-- `TryFrom<MessagesResponse> for ChatCompletionsResponse`; the sum of two `u32` wraps.
unfoldable pub messages_response_to_chat :
    Clock → MessagesResponse → Result TransformError ChatCompletionsResponse
messages_response_to_chat clock resp = ok (
    completion resp.id clock.seconds resp.model
      (response_message Role.assistant (some (convert_anthropic_content_to_openai resp.content))
        (extract_tool_calls resp.content))
      (finish_reason resp.stop_reason)
      (record {
        prompt_tokens = resp.usage.input_tokens;
        completion_tokens = resp.usage.output_tokens;
        total_tokens = (resp.usage.input_tokens + resp.usage.output_tokens) % 2 ^ 32;
        prompt_tokens_details = none;
        completion_tokens_details = none;
      }))

-- The text of a message and the calls, in the order of the blocks.
unfoldable pub bedrock_text : List ContentBlock → String
bedrock_text [] = ""
bedrock_text (ContentBlock.text t ∷ blocks) = t <> bedrock_text blocks
bedrock_text (_ ∷ blocks) = bedrock_text blocks

unfoldable pub bedrock_calls : List ContentBlock → List ToolCall
bedrock_calls [] = []
bedrock_calls (ContentBlock.tool_use use' ∷ blocks) =
    function_call use'.tool_use_id use'.name use'.input ∷ bedrock_calls blocks
bedrock_calls (_ ∷ blocks) = bedrock_calls blocks

-- `convert_bedrock_message_to_openai`
unfoldable pub convert_bedrock_message_to_openai :
    List ContentBlock → Option String × Option (List ToolCall)
convert_bedrock_message_to_openai content =
    let t = bedrock_text content in
    (if is_empty t then none else some t, if_any (bedrock_calls content))

abbrev pub model_or_default : Option String → String
model_or_default none = "bedrock-model"
model_or_default (some model) = model

-- `TryFrom<ConverseResponse> for ChatCompletionsResponse`
unfoldable pub converse_response_to_chat :
    Clock → ConverseResponse → Result TransformError ChatCompletionsResponse
converse_response_to_chat clock resp =
    let converted = convert_bedrock_message_to_openai resp.output.content in
    ok (
      completion ("bedrock-" <> clock.nanos) clock.seconds (model_or_default resp.invoked_model_id)
        (response_message (converse_role resp.output.role) converted.0 converted.1)
        (converse_finish_reason resp.stop_reason)
        (record {
          prompt_tokens = resp.usage.input_tokens;
          completion_tokens = resp.usage.output_tokens;
          total_tokens = resp.usage.total_tokens;
          prompt_tokens_details = none;
          completion_tokens_details = none;
        }))

-- Reading the arguments of a call as a JSON value, which serde_json does.
module _ (read_value : String → Result String String) where
  abbrev pub call_block :
      ToolCall
      → Result String String
      → Result TransformError (List MessagesContentBlock)
      → Result TransformError (List MessagesContentBlock)
  call_block call (err e) rest = err (json_error e)
  call_block call (ok input) (err e) = err e
  call_block call (ok input) (ok blocks) =
      ok (tool_use_block call.id call.function.name input ∷ blocks)

  unfoldable pub call_blocks : List ToolCall → Result TransformError (List MessagesContentBlock)
  call_blocks [] = ok []
  call_blocks (call ∷ calls) =
      call_block call (read_value call.function.arguments) (call_blocks calls)

  abbrev pub calls_of : Option (List ToolCall) → List ToolCall
  calls_of none = []
  calls_of (some calls) = calls

  abbrev pub text_blocks : Option String → List MessagesContentBlock
  text_blocks none = []
  text_blocks (some t) = if is_empty t then [] else text t ∷ []

  abbrev pub behind :
      List MessagesContentBlock
      → Result TransformError (List MessagesContentBlock)
      → Result TransformError (List MessagesContentBlock)
  behind first (ok blocks) = ok (first ++ blocks)
  behind first (err e) = err e

  -- `convert_openai_message_to_anthropic_content` on the message of a response, whose content is a
  -- text.
  unfoldable pub convert_response_message :
      ResponseMessage → Result TransformError (List MessagesContentBlock)
  convert_response_message message =
      behind (text_blocks message.content) (call_blocks (calls_of message.tool_calls))

  abbrev pub reason_or_end : Option FinishReason → MessagesStopReason
  reason_or_end none = MessagesStopReason.end_turn
  reason_or_end (some reason) = stop_reason reason

  abbrev pub with_content :
      ChatCompletionsResponse
      → Choice
      → Result TransformError (List MessagesContentBlock)
      → Result TransformError MessagesResponse
  with_content resp choice (err e) = err e
  with_content resp choice (ok content) = ok (record {
    id = resp.id;
    obj_type = "message";
    role = MessagesRole.assistant;
    content = content;
    model = resp.model;
    stop_reason = reason_or_end choice.finish_reason;
    stop_sequence = none;
    usage = record {
      input_tokens = resp.usage.prompt_tokens;
      output_tokens = resp.usage.completion_tokens;
      cache_creation_input_tokens = none;
      cache_read_input_tokens = none;
    };
    container = none;
  })

  abbrev pub first_choice :
      ChatCompletionsResponse → List Choice → Result TransformError MessagesResponse
  first_choice resp [] = err (missing_field "choices")
  first_choice resp (choice ∷ choices) =
      with_content resp choice (convert_response_message choice.message)

  -- `TryFrom<ChatCompletionsResponse> for MessagesResponse`
  unfoldable pub chat_response_to_messages :
      ChatCompletionsResponse → Result TransformError MessagesResponse
  chat_response_to_messages resp = first_choice resp resp.choices
