-- ===== src/Requests/FromMessages/ToConverse.antt =====
-- A request of the Messages API as a Converse request: transforms/request/from_anthropic.rs.
use mathlib.Core.Option
use plano.Prelude.{
  Bool, true, false, Option, none, some, List, [], ◌∷◌, ◌++◌, map, String, is_empty, if◌then◌else◌,
}
use plano.State.{Result, ok, err}
use plano.Streaming.Converse.{ConversationRole}
use plano.Streaming.Sse.{
  MessagesRole, MessagesContentBlock, MessagesImageSource, ResultBlock, ToolResultContent, text,
  tool_use_block, image_block, tool_result_block,
}
use plano.Streaming.Transforms.{TransformError, unsupported_conversion}
use plano.Completions.{
  ConverseMessage, ContentBlock, ImageSource, ToolResultStatus, ToolResultContentBlock,
}
use plano.Requests.Messages.{
  MessagesMessage, MessagesMessageContent, MessagesTool, MessagesToolChoice, MessagesToolChoiceType,
  MessagesRequest, prompt_text,
}
use plano.Requests.Converse.{
  SystemContentBlock, ToolSpecDefinition, BedrockToolChoice, ToolConfiguration, ConverseRequest,
  converse_request,
}

abbrev pub converse_role : MessagesRole → Result TransformError ConversationRole
converse_role MessagesRole.user = ok ConversationRole.user
converse_role MessagesRole.assistant = ok ConversationRole.assistant
converse_role MessagesRole.system =
    err (unsupported_conversion "System messages must be set via the system prompt, not messages")

unfoldable pub result_blocks : List ResultBlock → List ToolResultContentBlock
result_blocks [] = []
result_blocks (ResultBlock.text t ∷ bs) = ToolResultContentBlock.text t ∷ result_blocks bs
result_blocks (ResultBlock.other_block json ∷ bs) = result_blocks bs

abbrev pub result_content : ToolResultContent → List ToolResultContentBlock
result_content (ToolResultContent.text t) = ToolResultContentBlock.text t ∷ []
result_content (ToolResultContent.blocks bs) = result_blocks bs

-- A text in place of no content.
abbrev pub final_content : List ToolResultContentBlock → List ToolResultContentBlock
final_content [] = ToolResultContentBlock.text " " ∷ []
final_content (b ∷ bs) = b ∷ bs

abbrev pub result_status : Option Bool → ToolResultStatus
result_status (some true) = ToolResultStatus.error
result_status _ = ToolResultStatus.success

abbrev pub if_text : String → List ContentBlock
if_text t = if is_empty t then [] else ContentBlock.text t ∷ []

abbrev pub image_content : MessagesImageSource → List ContentBlock
image_content (MessagesImageSource.base64 media_type base64_data) =
    ContentBlock.image (ImageSource.base64 media_type base64_data) ∷ []
image_content (MessagesImageSource.url u) = []

-- The blocks that one block becomes.
abbrev pub converse_block : MessagesContentBlock → List ContentBlock
converse_block (text t) = if_text t
converse_block (tool_use_block id name input) =
    ContentBlock.tool_use (record { tool_use_id = id; name = name; input = input }) ∷ []
converse_block (tool_result_block id is_error content) =
    ContentBlock.tool_result (record {
      tool_use_id = id;
      content = final_content (result_content content);
      status = some (result_status is_error);
    })
    ∷ []
converse_block (image_block source) = image_content source
converse_block _ = []

unfoldable pub converse_blocks : List MessagesContentBlock → List ContentBlock
converse_blocks [] = []
converse_blocks (block ∷ blocks) = converse_block block ++ converse_blocks blocks

abbrev pub converse_content : MessagesMessageContent → List ContentBlock
converse_content (MessagesMessageContent.single t) = if_text t
converse_content (MessagesMessageContent.blocks bs) = converse_blocks bs

-- A text in place of no block.
abbrev pub at_least_one : List ContentBlock → List ContentBlock
at_least_one [] = ContentBlock.text " " ∷ []
at_least_one (b ∷ bs) = b ∷ bs

abbrev pub with_role :
    Result TransformError ConversationRole
    → List ContentBlock
    → Result TransformError ConverseMessage
with_role (ok role) content = ok (record { role = role; content = content })
with_role (err e) content = err e

-- `TryFrom<MessagesMessage> for BedrockMessage`
unfoldable pub messages_message_to_converse :
    MessagesMessage → Result TransformError ConverseMessage
unfolding converse_blocks result_blocks
messages_message_to_converse message =
    with_role (converse_role message.role) (at_least_one (converse_content message.content))

abbrev pub prepend : {A E : Type 0} → Result E A → Result E (List A) → Result E (List A)
prepend (ok a) (ok rest) = ok (a ∷ rest)
prepend (ok a) (err e) = err e
prepend (err e) rest = err e

-- The first message that cannot be converted ends the loop.
unfoldable pub converse_messages :
    List MessagesMessage → Result TransformError (List ConverseMessage)
converse_messages [] = ok []
converse_messages (message ∷ messages) =
    prepend (messages_message_to_converse message) (converse_messages messages)

abbrev pub some_messages : List ConverseMessage → Option (List ConverseMessage)
some_messages [] = none
some_messages (m ∷ ms) = some (m ∷ ms)

abbrev pub tool_spec : MessagesTool → ToolSpecDefinition
tool_spec tool = record {
  name = tool.name;
  description = tool.description;
  input_schema = tool.input_schema;
}

abbrev pub named_choice : Option String → BedrockToolChoice
named_choice none = BedrockToolChoice.auto
named_choice (some name) = BedrockToolChoice.tool name

abbrev pub converse_choice : MessagesToolChoiceType → Option String → BedrockToolChoice
converse_choice MessagesToolChoiceType.auto name = BedrockToolChoice.auto
converse_choice MessagesToolChoiceType.anything name = BedrockToolChoice.anything
converse_choice MessagesToolChoiceType.never name = BedrockToolChoice.auto
converse_choice MessagesToolChoiceType.tool name = named_choice name

-- The configuration, where there is at least one tool.
abbrev pub tool_configuration :
    Option (List MessagesTool) → Option MessagesToolChoice → Option ToolConfiguration
tool_configuration none choice = none
tool_configuration (some []) choice = none
tool_configuration (some (tool ∷ tools)) choice = some (record {
  tools = some (map tool_spec (tool ∷ tools));
  tool_choice = Option.map (λ (c : MessagesToolChoice). converse_choice c.kind c.name) choice;
})

-- `unwrap_or(false)`
abbrev pub is_true : Option Bool → Bool
is_true none = false
is_true (some b) = b

abbrev pub converse_fields : MessagesRequest → List ConverseMessage → ConverseRequest
converse_fields req messages =
    converse_request req.model (some_messages messages)
      (Option.map (λ p. SystemContentBlock.text (prompt_text p) ∷ []) req.system_prompt)
      (some (record {
        max_tokens = some req.max_tokens;
        temperature = req.temperature;
        top_p = req.top_p;
        stop_sequences = req.stop_sequences;
      }))
      (tool_configuration req.tools req.tool_choice) (is_true req.stream)

abbrev pub mapped : {A B E : Type 0} → (A → B) → Result E A → Result E B
mapped f (ok a) = ok (f a)
mapped f (err e) = err e

-- `TryFrom<MessagesRequest> for ConverseRequest`; no message gives no list.
unfoldable pub messages_request_to_converse :
    MessagesRequest → Result TransformError ConverseRequest
messages_request_to_converse req = mapped (converse_fields req) (converse_messages req.messages)
