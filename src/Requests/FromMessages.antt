-- ===== src/Requests/FromMessages.antt =====
-- A request of the Messages API as chat completions: transforms/request/from_anthropic.rs, with
-- `split_for_openai` of transforms/lib.rs. Printing the input of a call does not fail.
pub mod ToConverse
use mathlib.Core.Option
use plano.Prelude.{
  ℕ, Bool, true, false, not, Option, none, some, List, [], ◌∷◌, ◌++◌, map, String, ◌<>◌,
}
use plano.State.{Result, ok, err}
use plano.Streaming.Chat.{Role}
use plano.Streaming.Sse.{
  MessagesRole, MessagesContentBlock, MessagesImageSource, ToolResultContent, text, tool_use_block,
  server_tool_use_block, mcp_tool_use_block, image_block, tool_result_block,
  web_search_tool_result_block, code_execution_tool_result_block, mcp_tool_result_block,
}
use plano.Streaming.Transforms.{TransformError}
use plano.Completions.{ToolCall}
use plano.Completions.Transforms.{function_call, if_any}
use plano.Requests.{
  ContentPart, MessageContent, Message, Tool, ToolChoice, ToolChoiceType, ChatCompletionsRequest,
  default_request, plain_message, suppress_max_tokens_if_o3, fix_temperature_if_gpt5,
}
use plano.Requests.Messages.{
  MessagesMessage, MessagesMessageContent, MessagesSystemPrompt, MessagesTool, MessagesToolChoice,
  MessagesToolChoiceType, MessagesRequest, result_text, prompt_text,
}

abbrev pub unwrap_or {ℓ} : {A : Type ℓ} → A → Option A → A
unwrap_or d none = d
unwrap_or d (some a) = a

-- `convert_image_source_to_url`
unfoldable pub convert_image_source_to_url : MessagesImageSource → String
convert_image_source_to_url (MessagesImageSource.base64 media_type base64_data) =
    "data:" <> (media_type <> (";base64," <> base64_data))
convert_image_source_to_url (MessagesImageSource.url u) = u

-- `SplitForOpenAIResult`: a result has the use that it answers, its text and whether it is an error.
pub record Split : Type 0 where
  pub content_parts : List ContentPart
  pub tool_calls : List ToolCall
  pub tool_results : List (String × String × Bool)

abbrev pub add_part : ContentPart → Split → Split
add_part part s = record s { content_parts = part ∷ s.content_parts }

abbrev pub add_call : String → String → String → Split → Split
add_call id name input s = record s { tool_calls = function_call id name input ∷ s.tool_calls }

abbrev pub add_result : String → Option Bool → ToolResultContent → Split → Split
add_result id is_error content s = record s {
  tool_results = (id, result_text content, unwrap_or false is_error) ∷ s.tool_results;
}

-- One turn of the loop, on what the later turns add.
abbrev pub split_block : MessagesContentBlock → Split → Split
split_block (text t) s = add_part (ContentPart.text t) s
split_block (image_block source) s =
    add_part
      (ContentPart.image_url
        (record { url = convert_image_source_to_url source; detail = some "auto" }))
      s
split_block (tool_use_block id name input) s = add_call id name input s
split_block (server_tool_use_block id name input) s = add_call id name input s
split_block (mcp_tool_use_block id name input) s = add_call id name input s
split_block (tool_result_block id is_error content) s = add_result id is_error content s
split_block (web_search_tool_result_block id is_error content) s =
    add_result id is_error (ToolResultContent.blocks content) s
split_block (code_execution_tool_result_block id is_error content) s =
    add_result id is_error (ToolResultContent.blocks content) s
split_block (mcp_tool_result_block id is_error content) s =
    add_result id is_error (ToolResultContent.blocks content) s
split_block _ s = s

unfoldable pub split_for_openai : List MessagesContentBlock → Split
split_for_openai [] = record { content_parts = []; tool_calls = []; tool_results = [] }
split_for_openai (block ∷ blocks) = split_block block (split_for_openai blocks)

-- The content for one part and no call.
abbrev pub lone_part : ContentPart → MessageContent
lone_part (ContentPart.text t) = MessageContent.text t
lone_part (ContentPart.image_url image) = MessageContent.parts (ContentPart.image_url image ∷ [])

-- `build_openai_content`
unfoldable pub build_openai_content : List ContentPart → List ToolCall → Option MessageContent
build_openai_content [] [] = some (MessageContent.text "")
build_openai_content [] (call ∷ calls) = none
build_openai_content (part ∷ []) [] = some (lone_part part)
build_openai_content (part ∷ []) (call ∷ calls) = some (MessageContent.parts (part ∷ []))
build_openai_content (part ∷ q ∷ ps) calls = some (MessageContent.parts (part ∷ q ∷ ps))

-- `From<MessagesRole> for Role`
abbrev pub openai_role : MessagesRole → Role
openai_role MessagesRole.user = Role.user
openai_role MessagesRole.assistant = Role.assistant
openai_role MessagesRole.system = Role.system

abbrev pub result_message : String × String × Bool → Message
result_message (id, t, is_error) =
    plain_message Role.tool (some (MessageContent.text t)) none (some id)

-- The message behind the results, where there are parts or calls.
abbrev pub main_message : MessagesRole → List ContentPart → List ToolCall → List Message
main_message role [] [] = []
main_message role parts calls =
    plain_message (openai_role role) (build_openai_content parts calls) (if_any calls) none ∷ []

abbrev pub split_messages : MessagesRole → Split → List Message
split_messages role s =
    map result_message s.tool_results ++ main_message role s.content_parts s.tool_calls

abbrev pub content_messages : MessagesRole → MessagesMessageContent → List Message
content_messages role (MessagesMessageContent.single t) =
    plain_message (openai_role role) (some (MessageContent.text t)) none none ∷ []
content_messages role (MessagesMessageContent.blocks bs) = split_messages role (split_for_openai bs)

-- `TryFrom<MessagesMessage> for Vec<Message>`, which does not fail.
unfoldable pub openai_messages_of : MessagesMessage → List Message
unfolding split_for_openai
openai_messages_of message = content_messages message.role message.content

-- `From<MessagesSystemPrompt> for Message`
unfoldable pub system_message : MessagesSystemPrompt → Message
system_message prompt =
    plain_message Role.system (some (MessageContent.text (prompt_text prompt))) none none

abbrev pub system_messages : Option MessagesSystemPrompt → List Message
system_messages none = []
system_messages (some prompt) = system_message prompt ∷ []

unfoldable pub all_openai_messages : List MessagesMessage → List Message
all_openai_messages [] = []
all_openai_messages (message ∷ ms) = openai_messages_of message ++ all_openai_messages ms

abbrev pub openai_tool : MessagesTool → Tool
openai_tool tool = record {
  tool_type = "function";
  function = record {
    name = tool.name;
    description = tool.description;
    parameters = tool.input_schema;
    strict = none;
  };
}

unfoldable pub convert_anthropic_tools : List MessagesTool → List Tool
convert_anthropic_tools tools = map openai_tool tools

abbrev pub named_tool : Option String → ToolChoice
named_tool none = ToolChoice.of_type ToolChoiceType.auto
named_tool (some name) = ToolChoice.function "function" name

abbrev pub openai_choice : MessagesToolChoiceType → Option String → ToolChoice
openai_choice MessagesToolChoiceType.auto name = ToolChoice.of_type ToolChoiceType.auto
openai_choice MessagesToolChoiceType.anything name = ToolChoice.of_type ToolChoiceType.required
openai_choice MessagesToolChoiceType.never name = ToolChoice.of_type ToolChoiceType.never
openai_choice MessagesToolChoiceType.tool name = named_tool name

unfoldable pub convert_anthropic_tool_choice :
    Option MessagesToolChoice → Option ToolChoice × Option Bool
convert_anthropic_tool_choice none = (none, none)
convert_anthropic_tool_choice (some choice) =
    (some (openai_choice choice.kind choice.name), Option.map not choice.disable_parallel_tool_use)

abbrev pub chat_fields : MessagesRequest → ChatCompletionsRequest
chat_fields req = record default_request {
  model = req.model;
  messages = system_messages req.system_prompt ++ all_openai_messages req.messages;
  temperature = req.temperature;
  top_p = req.top_p;
  max_completion_tokens = some req.max_tokens;
  stream = req.stream;
  stop = req.stop_sequences;
  tools = Option.map convert_anthropic_tools req.tools;
  tool_choice = (convert_anthropic_tool_choice req.tool_choice).0;
  parallel_tool_calls = (convert_anthropic_tool_choice req.tool_choice).1;
}

-- `TryFrom<MessagesRequest> for ChatCompletionsRequest`
unfoldable pub messages_request_to_chat :
    MessagesRequest → Result TransformError ChatCompletionsRequest
messages_request_to_chat req =
    ok (fix_temperature_if_gpt5 (suppress_max_tokens_if_o3 (chat_fields req)))
