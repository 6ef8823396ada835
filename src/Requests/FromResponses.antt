-- ===== src/Requests/FromResponses.antt =====
-- A request of the Responses API as chat completions: transforms/request/from_openai.rs.
pub mod Told
use mathlib.Core.Option
use mathlib.Core.List.{reverse}
use plano.Prelude.{
  ℕ, ◌+◌, Bool, false, Option, none, some, List, [], ◌∷◌, ◌++◌, map, String, ◌<>◌, str_eq,
  string_key, get, insert, if◌then◌else◌,
}
use plano.State
use plano.State.{Result, ok, err, MessageRole, InputContent, InputMessage, InputItem, InputParam}
use plano.Streaming.Chat.{Role}
use plano.Streaming.Transforms.{TransformError, unsupported_conversion}
use plano.Completions.{ToolCall}
use plano.Completions.Transforms.{function_call}
use plano.Requests.{
  ContentPart, MessageContent, Message, Tool, ToolChoice, ToolChoiceType, ChatCompletionsRequest,
  default_request, plain_message,
}
use plano.Requests.Responses.{
  Modality, ReasoningEffort, UserLocation, ResponsesTool, ResponsesToolChoice, ResponsesApiRequest,
}
use plano.Requests.ResponsesTools.{Json, Converted, tools_of}

abbrev pub openai_role : MessageRole → Role
openai_role MessageRole.user = Role.user
openai_role MessageRole.assistant = Role.assistant
openai_role MessageRole.system = Role.system
openai_role MessageRole.developer = Role.developer
openai_role MessageRole.tool = Role.tool

-- Files and audio are skipped.
unfoldable pub content_parts : List InputContent → List ContentPart
content_parts [] = []
content_parts (InputContent.input_text t ∷ items) = ContentPart.text t ∷ content_parts items
content_parts (InputContent.input_image url detail ∷ items) =
    ContentPart.image_url (record { url = url; detail = none }) ∷ content_parts items
content_parts (_ ∷ items) = content_parts items

abbrev pub openai_content : State.MessageContent → MessageContent
openai_content (State.MessageContent.text t) = MessageContent.text t
openai_content (State.MessageContent.items (InputContent.input_text t ∷ [])) = MessageContent.text t
openai_content (State.MessageContent.items items) = MessageContent.parts (content_parts items)

abbrev pub more_calls : ToolCall → Option (List ToolCall) → List ToolCall
more_calls call none = call ∷ []
more_calls call (some calls) = calls ++ call ∷ []

abbrev pub call_message : ToolCall → Message
call_message call = plain_message Role.assistant none (some (call ∷ [])) none

abbrev pub attach_to : Role → ToolCall → Message → List Message → List Message
attach_to Role.assistant call last before =
    record last { tool_calls = some (more_calls call last.tool_calls) } ∷ before
attach_to _ call last before = call_message call ∷ last ∷ before

-- A call joins the message in front of it where that is the assistant's. The newest message is first.
abbrev pub attach : ToolCall → List Message → List Message
attach call [] = call_message call ∷ []
attach call (last ∷ before) = attach_to last.role call last before

abbrev pub instruction_messages : Option String → List Message
instruction_messages none = []
instruction_messages (some t) =
    plain_message Role.system (some (MessageContent.text t)) none none ∷ []

abbrev pub modality_name : Modality → String
modality_name Modality.text = "text"
modality_name Modality.audio = "audio"

abbrev pub effort_name : ReasoningEffort → String
effort_name ReasoningEffort.low = "low"
effort_name ReasoningEffort.medium = "medium"
effort_name ReasoningEffort.high = "high"

abbrev pub choice_named : String → ToolChoiceType
choice_named s =
    if str_eq s "required"
    then ToolChoiceType.required
    else if str_eq s "none"
    then ToolChoiceType.never
    else ToolChoiceType.auto

abbrev pub chat_choice : ResponsesToolChoice → ToolChoice
chat_choice (ResponsesToolChoice.of_text s) = ToolChoice.of_type (choice_named s)
chat_choice (ResponsesToolChoice.named tool_type name) = ToolChoice.function "function" name

abbrev pub some_tools : List Tool → Option (List Tool)
some_tools [] = none
some_tools (tool ∷ tools) = some (tool ∷ tools)

module _ (json : Json) where
  abbrev pub output_text : String → String
  output_text output = elim (json.read_string output) [ none ↦ output | some s ↦ s ]

  abbrev pub add_item : InputItem → List Message → List Message
  add_item (InputItem.message m) before =
      plain_message (openai_role m.role) (some (openai_content m.content)) none none ∷ before
  add_item (InputItem.function_call_output item_type call_id output) before =
      plain_message Role.tool (some (MessageContent.text (output_text output))) none (some call_id)
      ∷ before
  add_item (InputItem.function_call item_type name arguments call_id) before =
      attach (function_call call_id name arguments) before
  add_item (InputItem.item_reference item_type id) before = before

  -- The loop over the items, on the messages so far, the newest first.
  unfoldable pub add_items : List InputItem → List Message → List Message
  add_items [] before = before
  add_items (item ∷ items) before = add_items items (add_item item before)

  abbrev pub items_messages : Option String → List InputItem → List Message
  items_messages instructions items = reverse (add_items items (instruction_messages instructions))

  -- `TryFrom<ResponsesInputConverter> for Vec<Message>`, which does not fail.
  unfoldable pub input_messages : InputParam → Option String → List Message
  input_messages (InputParam.text t) instructions =
      instruction_messages instructions
      ++ plain_message Role.user (some (MessageContent.text t)) none none ∷ []
  input_messages (InputParam.single_item item) instructions =
      items_messages instructions (item ∷ [])
  input_messages (InputParam.items items) instructions = items_messages instructions items

  abbrev pub chat_fields_of :
      ResponsesApiRequest
      → Result TransformError Converted
      → Result TransformError ChatCompletionsRequest
  chat_fields_of req (err e) = err e
  chat_fields_of req (ok (tools, options)) = ok (record default_request {
    model = req.model;
    messages = input_messages req.input req.instructions;
    temperature = req.temperature;
    top_p = req.top_p;
    max_completion_tokens = req.max_output_tokens;
    stream = req.stream;
    metadata = req.metadata;
    user = req.user;
    store = req.store;
    service_tier = req.service_tier;
    top_logprobs = req.top_logprobs;
    modalities = Option.map (map modality_name) req.modalities;
    stream_options = req.stream_options;
    reasoning_effort = Option.map effort_name req.reasoning_effort;
    tools = some_tools tools;
    tool_choice = Option.map chat_choice req.tool_choice;
    parallel_tool_calls = req.parallel_tool_calls;
    web_search_options = options;
  })

  -- `TryFrom<ResponsesAPIRequest> for ChatCompletionsRequest`
  unfoldable pub responses_request_to_chat :
      ResponsesApiRequest → Result TransformError ChatCompletionsRequest
  responses_request_to_chat req = chat_fields_of req (tools_of json req.tools)
