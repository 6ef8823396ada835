-- ===== src/Requests/FromChat.antt =====
-- A chat completions request as a request of the Messages API: transforms/request/from_openai.rs,
-- with `convert_openai_message_to_anthropic_content` of transforms/lib.rs.
pub mod ToConverse
pub mod Errors
pub mod RoundTrip
pub mod Prompt
use mathlib.Core.Option
use plano.Prelude.{
  ℕ, Bool, not, Option, none, some, List, [], ◌∷◌, ◌++◌, map, String, is_empty, starts_with,
  strip_prefix, split_once, first_piece, if◌then◌else◌,
}
use plano.State.{Result, ok, err}
use plano.Streaming.Chat.{Role}
use plano.Streaming.Sse.{
  MessagesRole, MessagesContentBlock, MessagesImageSource, ResultBlock, ToolResultContent, text,
  image_block, tool_result_block,
}
use plano.Streaming.Transforms.{TransformError, missing_field, unsupported_conversion}
use plano.Completions.Transforms.{call_blocks, calls_of, behind}
use plano.Requests.{
  ImageUrl, ContentPart, MessageContent, Message, Tool, ToolChoice, ToolChoiceType,
  ChatCompletionsRequest, extract_text,
}
use plano.Requests.Messages.{
  MessagesMessage, MessagesMessageContent, MessagesSystemPrompt, MessagesTool, MessagesToolChoice,
  MessagesToolChoiceType, MessagesRequest,
}
use plano.Requests.FromMessages.{unwrap_or}
use plano.Requests.FromMessages.ToConverse.{prepend, mapped}
use ToConverse.{system_role, either_limit}

-- The media type in front of the first semicolon of a data URL's header.
abbrev pub media_type_in : Option String → String
media_type_in none = "image/jpeg"
media_type_in (some s) = first_piece b';' s

abbrev pub media_type_of : String → String
media_type_of header = media_type_in (strip_prefix header "data:")

abbrev pub data_source : String → Option (String × String) → MessagesImageSource
data_source url none = MessagesImageSource.url url
data_source url (some (header, base64_data)) =
    MessagesImageSource.base64 (media_type_of header) base64_data

-- `convert_image_url_to_source`
unfoldable pub convert_image_url_to_source : ImageUrl → MessagesImageSource
convert_image_url_to_source image =
    if starts_with image.url "data:"
    then data_source image.url (split_once b',' image.url)
    else MessagesImageSource.url image.url

abbrev pub part_block : ContentPart → MessagesContentBlock
part_block (ContentPart.text t) = text t
part_block (ContentPart.image_url image) = image_block (convert_image_url_to_source image)

abbrev pub content_blocks : Option MessageContent → List MessagesContentBlock
content_blocks none = []
content_blocks (some (MessageContent.text t)) = if is_empty t then [] else text t ∷ []
content_blocks (some (MessageContent.parts ps)) = map part_block ps

-- `build_anthropic_content`
unfoldable pub build_anthropic_content : List MessagesContentBlock → MessagesMessageContent
build_anthropic_content [] = MessagesMessageContent.single ""
build_anthropic_content (text t ∷ []) = MessagesMessageContent.single t
build_anthropic_content blocks = MessagesMessageContent.blocks blocks

abbrev pub with_messages_role :
    MessagesRole
    → Result TransformError (List MessagesContentBlock)
    → Result TransformError MessagesMessage
with_messages_role role (ok blocks) =
    ok (record { role = role; content = build_anthropic_content blocks })
with_messages_role role (err e) = err e

-- A message of the role `tool`, which becomes a result in a message of the user.
abbrev pub tool_message : String → Option String → Result TransformError MessagesMessage
tool_message content none = err (missing_field "tool_call_id required for Tool messages")
tool_message content (some id) = ok (record {
  role = MessagesRole.user;
  content =
      MessagesMessageContent.blocks
        (tool_result_block id none (ToolResultContent.blocks (ResultBlock.text content ∷ [])) ∷ []);
})

-- `From<Message> for MessagesSystemPrompt`
abbrev pub system_prompt_of : Message → MessagesSystemPrompt
system_prompt_of message = MessagesSystemPrompt.single (extract_text message.content)

-- The loop assigns the prompt at every system message.
unfoldable pub last_system :
    Option MessagesSystemPrompt → List Message → Option MessagesSystemPrompt
last_system prompt [] = prompt
last_system prompt (message ∷ messages) =
    last_system (if system_role message.role then some (system_prompt_of message) else prompt)
      messages

unfoldable pub convert_openai_tools : List Tool → List MessagesTool
convert_openai_tools tools =
    map
      (λ (tool : Tool). record {
        name = tool.function.name;
        description = tool.function.description;
        input_schema = tool.function.parameters;
      })
      tools

abbrev pub messages_choice : ToolChoice → Option Bool → MessagesToolChoice
messages_choice (ToolChoice.of_type ToolChoiceType.auto) parallel = record {
  kind = MessagesToolChoiceType.auto;
  name = none;
  disable_parallel_tool_use = Option.map not parallel;
}
messages_choice (ToolChoice.of_type ToolChoiceType.required) parallel = record {
  kind = MessagesToolChoiceType.anything;
  name = none;
  disable_parallel_tool_use = Option.map not parallel;
}
messages_choice (ToolChoice.of_type ToolChoiceType.never) parallel = record {
  kind = MessagesToolChoiceType.never;
  name = none;
  disable_parallel_tool_use = none;
}
messages_choice (ToolChoice.function choice_type name) parallel = record {
  kind = MessagesToolChoiceType.tool;
  name = some name;
  disable_parallel_tool_use = Option.map not parallel;
}

unfoldable pub convert_openai_tool_choice :
    Option ToolChoice → Option Bool → Option MessagesToolChoice
convert_openai_tool_choice none parallel = none
convert_openai_tool_choice (some choice) parallel = some (messages_choice choice parallel)

abbrev pub default_max_tokens : ℕ
default_max_tokens = 4096

-- Reading the arguments of a call as a JSON value, which serde_json does.
module _ (read_value : String → Result String String) where
  unfoldable pub convert_openai_message_to_anthropic_content :
      Message → Result TransformError (List MessagesContentBlock)
  convert_openai_message_to_anthropic_content message =
      behind read_value (content_blocks message.content)
        (call_blocks read_value (calls_of read_value message.tool_calls))

  abbrev pub of_role : Role → Message → Result TransformError MessagesMessage
  of_role Role.user message =
      with_messages_role MessagesRole.user (convert_openai_message_to_anthropic_content message)
  of_role Role.assistant message =
      with_messages_role MessagesRole.assistant
        (convert_openai_message_to_anthropic_content message)
  of_role Role.tool message = tool_message (extract_text message.content) message.tool_call_id
  of_role _ message = err (unsupported_conversion "System messages should be handled separately")

  -- `TryFrom<Message> for MessagesMessage`
  unfoldable pub messages_message_of : Message → Result TransformError MessagesMessage
  messages_message_of message = of_role message.role message

  -- The messages of the loop, which ends at the first that cannot be converted.
  unfoldable pub messages_of : List Message → Result TransformError (List MessagesMessage)
  messages_of [] = ok []
  messages_of (message ∷ messages) =
      let rest = messages_of messages in
      if system_role message.role then rest else prepend (messages_message_of message) rest

  abbrev pub messages_fields : ChatCompletionsRequest → List MessagesMessage → MessagesRequest
  messages_fields req messages = record {
    model = req.model;
    messages = messages;
    max_tokens =
        unwrap_or default_max_tokens (either_limit req.max_completion_tokens req.max_tokens);
    container = none;
    mcp_servers = none;
    system_prompt = last_system none req.messages;
    metadata = none;
    service_tier = none;
    thinking = none;
    temperature = req.temperature;
    top_p = req.top_p;
    top_k = none;
    stream = req.stream;
    stop_sequences = req.stop;
    tools = Option.map convert_openai_tools req.tools;
    tool_choice = convert_openai_tool_choice req.tool_choice req.parallel_tool_calls;
  }

  -- `TryFrom<ChatCompletionsRequest> for MessagesRequest`
  unfoldable pub chat_request_to_messages :
      ChatCompletionsRequest → Result TransformError MessagesRequest
  chat_request_to_messages req = mapped (messages_fields req) (messages_of req.messages)
