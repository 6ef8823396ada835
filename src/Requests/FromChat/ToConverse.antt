-- ===== src/Requests/FromChat/ToConverse.antt =====
-- A chat completions request as a Converse request: transforms/request/from_openai.rs.
use plano.Prelude.{
  Bool, true, false, ◌||◌, Option, none, some, List, [], ◌∷◌, ◌++◌, map, String, ◌<>◌, is_empty,
  starts_with, strip_prefix, str_eq, split_once, first_piece, if◌then◌else◌,
}
use plano.State.{Result, ok, err}
use plano.Streaming.Chat.{Role}
use plano.Streaming.Converse.{ConversationRole}
use plano.Streaming.Transforms.{TransformError, missing_field, unsupported_conversion}
use plano.Completions.{
  ToolCall, ConverseMessage, ContentBlock, ImageSource, ToolResultStatus, ToolResultContentBlock,
}
use plano.Requests.{
  ContentPart, MessageContent, Message, Tool, ToolChoice, ToolChoiceType, ChatCompletionsRequest,
  extract_text,
}
use plano.Requests.Converse.{
  SystemContentBlock, InferenceConfiguration, ToolSpecDefinition, BedrockToolChoice,
  ToolConfiguration, ConverseRequest, converse_request,
}
use plano.Requests.FromMessages.ToConverse.{
  if_text, at_least_one, prepend, some_messages, mapped, is_true,
}

abbrev pub system_role : Role → Bool
system_role Role.system = true
system_role Role.developer = true
system_role _ = false

abbrev pub base64_of : String → Option (String × String) → String → Option (String × String)
base64_of media_type none base64_data = none
base64_of media_type (some (before, options)) base64_data =
    if str_eq (first_piece b';' options) "base64" then some (before, base64_data) else none

abbrev pub parse_header : Option (String × String) → Option (String × String)
parse_header none = none
parse_header (some (header, base64_data)) = base64_of header (split_once b';' header) base64_data

abbrev pub parse_behind : Option String → Option (String × String)
parse_behind none = none
parse_behind (some without_prefix) = parse_header (split_once b',' without_prefix)

-- `parse_data_url`: the media type and the data, where the second piece of the header is `base64`.
unfoldable pub parse_data_url : String → Option (String × String)
parse_data_url url = parse_behind (strip_prefix url "data:")

abbrev pub parsed_image :
    String → Option (String × String) → Result TransformError (List ContentBlock)
parsed_image url none = err (unsupported_conversion ("Invalid data URL format: " <> url))
parsed_image url (some (media_type, base64_data)) =
    ok (ContentBlock.image (ImageSource.base64 media_type base64_data) ∷ [])

abbrev pub part_content : ContentPart → Result TransformError (List ContentBlock)
part_content (ContentPart.text t) = ok (if_text t)
part_content (ContentPart.image_url image) =
    if starts_with image.url "data:"
    then parsed_image image.url (parse_data_url image.url)
    else err (unsupported_conversion "Only base64 data URLs are supported for images in Bedrock")

abbrev pub append :
    Result TransformError (List ContentBlock)
    → Result TransformError (List ContentBlock)
    → Result TransformError (List ContentBlock)
append (ok bs) (ok rest) = ok (bs ++ rest)
append (ok bs) (err e) = err e
append (err e) rest = err e

unfoldable pub parts_content : List ContentPart → Result TransformError (List ContentBlock)
parts_content [] = ok []
parts_content (part ∷ ps) = append (part_content part) (parts_content ps)

abbrev pub user_content : Option MessageContent → Result TransformError (List ContentBlock)
user_content none = ok []
user_content (some (MessageContent.text t)) = ok (if_text t)
user_content (some (MessageContent.parts ps)) = parts_content ps

-- A text, or a blank in place of an empty one where there is no call.
abbrev pub assistant_text : String → Option (List ToolCall) → List ContentBlock
assistant_text t (some (call ∷ calls)) = if_text t
assistant_text t _ = if is_empty t then ContentBlock.text " " ∷ [] else ContentBlock.text t ∷ []

abbrev pub result_texts : String → List ToolResultContentBlock
result_texts t =
    if is_empty t then ToolResultContentBlock.text " " ∷ [] else ToolResultContentBlock.text t ∷ []

abbrev pub tool_content : String → Option String → Result TransformError (List ContentBlock)
tool_content t none = err (missing_field "tool_call_id required for Tool messages")
tool_content t (some id) = ok (
    ContentBlock.tool_result (record {
      tool_use_id = id;
      content = result_texts t;
      status = some ToolResultStatus.success;
    })
    ∷ [])

abbrev pub as_message :
    ConversationRole
    → Result TransformError (List ContentBlock)
    → Result TransformError ConverseMessage
as_message role (ok content) = ok (record { role = role; content = content })
as_message role (err e) = err e

unfoldable pub system_texts : List Message → List SystemContentBlock
system_texts [] = []
system_texts (message ∷ messages) =
    let rest = system_texts messages in
    if system_role message.role
    then SystemContentBlock.text (extract_text message.content) ∷ rest
    else rest

abbrev pub some_blocks : List SystemContentBlock → Option (List SystemContentBlock)
some_blocks [] = none
some_blocks (b ∷ bs) = some (b ∷ bs)

abbrev pub is_some {ℓ} : {A : Type ℓ} → Option A → Bool
is_some none = false
is_some (some a) = true

-- `max_completion_tokens.or(max_tokens)`
abbrev pub either_limit : {A : Type 0} → Option A → Option A → Option A
either_limit none b = b
either_limit (some a) b = some a

abbrev pub inference_configuration : ChatCompletionsRequest → Option InferenceConfiguration
inference_configuration req =
    let max_tokens = either_limit req.max_completion_tokens req.max_tokens in
    if is_some max_tokens || is_some req.temperature || is_some req.top_p || is_some req.stop
    then some (record {
      max_tokens = max_tokens;
      temperature = req.temperature;
      top_p = req.top_p;
      stop_sequences = req.stop;
    })
    else none

abbrev pub spec_of : Tool → ToolSpecDefinition
spec_of tool = record {
  name = tool.function.name;
  description = tool.function.description;
  input_schema = tool.function.parameters;
}

abbrev pub choice_of : ToolChoice → BedrockToolChoice
choice_of (ToolChoice.of_type ToolChoiceType.auto) = BedrockToolChoice.auto
choice_of (ToolChoice.of_type ToolChoiceType.required) = BedrockToolChoice.anything
choice_of (ToolChoice.of_type ToolChoiceType.never) = BedrockToolChoice.auto
choice_of (ToolChoice.function choice_type name) = BedrockToolChoice.tool name

-- Without tools and without a choice there is no configuration; with tools alone the choice is auto.
abbrev pub configuration : Option (List Tool) → Option ToolChoice → Option ToolConfiguration
configuration none none = none
configuration none (some choice) =
    some (record { tools = none; tool_choice = some (choice_of choice) })
configuration (some tools) none =
    some (record { tools = some (map spec_of tools); tool_choice = some BedrockToolChoice.auto })
configuration (some tools) (some choice) =
    some (record { tools = some (map spec_of tools); tool_choice = some (choice_of choice) })

-- Reading the arguments of a call as a JSON value, which serde_json does.
module _ (read_value : String → Result String String) where
  abbrev pub use_of : ToolCall → Result String String → Result TransformError ContentBlock
  use_of call (ok input) = ok (
      ContentBlock.tool_use
        (record { tool_use_id = call.id; name = call.function.name; input = input }))
  use_of call (err e) = err (
      unsupported_conversion (
        "Failed to parse tool arguments as JSON: "
        <> (e <> (". Arguments: " <> call.function.arguments))))

  unfoldable pub uses_of : List ToolCall → Result TransformError (List ContentBlock)
  uses_of [] = ok []
  uses_of (call ∷ calls) =
      prepend (use_of call (read_value call.function.arguments)) (uses_of calls)

  abbrev pub call_uses : Option (List ToolCall) → Result TransformError (List ContentBlock)
  call_uses none = ok []
  call_uses (some calls) = uses_of calls

  abbrev pub message_of_role : Role → Message → Result TransformError ConverseMessage
  message_of_role Role.user message =
      as_message ConversationRole.user (mapped at_least_one (user_content message.content))
  message_of_role Role.assistant message = as_message ConversationRole.assistant (
      mapped at_least_one (
        append (ok (assistant_text (extract_text message.content) message.tool_calls))
          (call_uses message.tool_calls)))
  message_of_role Role.tool message =
      as_message ConversationRole.user
        (tool_content (extract_text message.content) message.tool_call_id)
  message_of_role _ message =
      err (unsupported_conversion "System messages should be handled separately in Bedrock")

  -- `TryFrom<Message> for BedrockMessage`
  unfoldable pub chat_message_to_converse : Message → Result TransformError ConverseMessage
  unfolding parts_content uses_of
  chat_message_to_converse message = message_of_role message.role message

  unfoldable pub conversation_of : List Message → Result TransformError (List ConverseMessage)
  conversation_of [] = ok []
  conversation_of (message ∷ messages) =
      let rest = conversation_of messages in
      if system_role message.role then rest else prepend (chat_message_to_converse message) rest

  abbrev pub converse_fields_of : ChatCompletionsRequest → List ConverseMessage → ConverseRequest
  converse_fields_of req messages =
      converse_request req.model (some_messages messages) (some_blocks (system_texts req.messages))
        (inference_configuration req) (configuration req.tools req.tool_choice) (is_true req.stream)

  -- `TryFrom<ChatCompletionsRequest> for ConverseRequest`
  unfoldable pub chat_request_to_converse :
      ChatCompletionsRequest → Result TransformError ConverseRequest
  chat_request_to_converse req = mapped (converse_fields_of req) (conversation_of req.messages)
