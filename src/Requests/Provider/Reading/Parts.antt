-- ===== src/Requests/Provider/Reading/Parts.antt =====
-- What the gateway reads of the messages and tools of each API: the implementations of
-- `ProviderRequest` in apis/openai.rs, apis/anthropic.rs, apis/amazon_bedrock.rs and
-- apis/openai_responses.rs.
use mathlib.Core.List.{reverse}
use plano.Prelude.{Option, none, some, List, [], ◌∷◌, ◌++◌, map, String, ◌<>◌, string_key}
use plano.State
use plano.State.{Result, ok, err, MessageRole, InputContent, InputMessage, InputItem, InputParam}
use plano.Streaming.Chat.{Role}
use plano.Streaming.Converse.{ConversationRole}
use plano.Streaming.Sse.{MessagesRole}
use plano.Completions.{ConverseMessage, ContentBlock}
use plano.Completions.Transforms.{join_parts}
use plano.Requests.{
  ContentPart, MessageContent, Message, Tool, ChatCompletionsRequest, plain_message,
}
use plano.Requests.Messages.{
  MessagesMessage, MessagesMessageContent, MessagesSystemPrompt, block_texts,
}
use plano.Requests.Converse.{SystemContentBlock, ConverseRequest}
use plano.Requests.Responses.{ResponsesTool}

-- `join(" ")`
unfoldable pub join_words : List String → String
join_words [] = ""
join_words (t ∷ []) = t
join_words (t ∷ u ∷ words) = t <> (" " <> join_words (u ∷ words))

abbrev pub first_text : List String → Option String
first_text [] = none
first_text (t ∷ ts) = some t

abbrev pub options_of : {A B : Type 0} → (A → List B) → Option A → List B
options_of f none = []
options_of f (some a) = f a

-- `bind`
abbrev pub and_then : {A B : Type 0} → Option A → (A → Option B) → Option B
and_then none f = none
and_then (some a) f = f a

-- Chat completions.
abbrev pub shown_part : ContentPart → String
shown_part (ContentPart.text t) = t
shown_part (ContentPart.image_url image) = "[Image]"

abbrev pub shown_content : Option MessageContent → String
shown_content none = ""
shown_content (some (MessageContent.text t)) = t
shown_content (some (MessageContent.parts ps)) = join_words (map shown_part ps)

unfoldable pub fold_text : String → List Message → String
fold_text acc [] = acc
fold_text acc (m ∷ ms) = fold_text ((acc <> " ") <> shown_content m.content) ms

abbrev pub plain_text : Option MessageContent → Option String
plain_text (some (MessageContent.text t)) = some t
plain_text _ = none

abbrev pub last_message : List Message → Option String
last_message [] = none
last_message (m ∷ ms) = plain_text m.content

abbrev pub tool_name : Tool → String
tool_name tool = tool.function.name

abbrev pub names_or : List String → Option (List String) → Option (List String)
names_or [] rest = rest
names_or (name ∷ names) rest = some (name ∷ names)

abbrev pub chat_tool_names : ChatCompletionsRequest → Option (List String)
chat_tool_names req =
    names_or (options_of (map tool_name) req.tools)
      (names_or (options_of (map tool_name) req.functions) none)

-- The Messages API.
abbrev pub prompt_texts : Option MessagesSystemPrompt → List String
prompt_texts none = []
prompt_texts (some (MessagesSystemPrompt.single s)) = s ∷ []
prompt_texts (some (MessagesSystemPrompt.blocks bs)) = block_texts bs

abbrev pub message_texts : MessagesMessageContent → List String
message_texts (MessagesMessageContent.single t) = t ∷ []
message_texts (MessagesMessageContent.blocks bs) = block_texts bs

unfoldable pub all_texts : List MessagesMessage → List String
all_texts [] = []
all_texts (m ∷ ms) = message_texts m.content ++ all_texts ms

-- The first text of the user, where the newest message is first.
abbrev pub user_texts : MessagesMessage → List String
user_texts m = elim m.role [ MessagesRole.user ↦ message_texts m.content | _ ↦ [] ]

unfoldable pub recent_text : List MessagesMessage → Option String
recent_text [] = none
recent_text (m ∷ ms) =
    let rest = recent_text ms in elim (user_texts m) [ [] ↦ rest | t ∷ ts ↦ some t ]

-- Converse.
abbrev pub converse_text : ContentBlock → List String
converse_text (ContentBlock.text t) = t ∷ []
converse_text (ContentBlock.guard_content (some t)) = t ∷ []
converse_text _ = []

abbrev pub system_text : SystemContentBlock → List String
system_text (SystemContentBlock.text t) = t ∷ []
system_text (SystemContentBlock.guard_content (some t)) = t ∷ []
system_text (SystemContentBlock.guard_content none) = []

unfoldable pub concat_map : {A B : Type 0} → (A → List B) → List A → List B
concat_map f [] = []
concat_map f (a ∷ as') = f a ++ concat_map f as'

abbrev pub converse_message_texts : ConverseMessage → List String
converse_message_texts m = concat_map converse_text m.content

-- The texts without the guarded ones.
abbrev pub only_text : ContentBlock → List String
only_text (ContentBlock.text t) = t ∷ []
only_text _ = []

-- The first text of the newest message of the user, which is not sought further back.
unfoldable pub recent_converse : List ConverseMessage → Option String
recent_converse [] = none
recent_converse (m ∷ ms) =
    let rest = recent_converse ms in
    elim m.role [
      | ConversationRole.user ↦ first_text (concat_map only_text m.content)
      | ConversationRole.assistant ↦ rest
    ]

abbrev pub chat_system : SystemContentBlock → List Message
chat_system (SystemContentBlock.text t) =
    plain_message Role.system (some (MessageContent.text t)) none none ∷ []
chat_system (SystemContentBlock.guard_content t) = []

abbrev pub chat_role : ConversationRole → Role
chat_role ConversationRole.user = Role.user
chat_role ConversationRole.assistant = Role.assistant

abbrev pub chat_message : ConverseMessage → Message
chat_message m =
    plain_message (chat_role m.role)
      (some (MessageContent.text (join_parts (concat_map only_text m.content)))) none none

abbrev pub converse_chat_messages : ConverseRequest → List Message
converse_chat_messages req =
    options_of (concat_map chat_system) req.system_blocks
    ++ options_of (map chat_message) req.messages

-- The Responses API.
abbrev pub input_text : InputContent → List String
input_text (InputContent.input_text t) = t ∷ []
input_text _ = []

abbrev pub first_input : State.MessageContent → Option String
first_input (State.MessageContent.text t) = some t
first_input (State.MessageContent.items items) = first_text (concat_map input_text items)

abbrev pub user_input : InputItem → Option String
user_input (InputItem.message m) = elim m.role [
  | MessageRole.user ↦ first_input m.content
  | _ ↦ none
]
user_input _ = none

unfoldable pub recent_input : List InputItem → Option String
recent_input [] = none
recent_input (item ∷ items) =
    let rest = recent_input items in elim (user_input item) [ none ↦ rest | some t ↦ some t ]

abbrev pub recent_of_input : InputParam → Option String
recent_of_input (InputParam.text t) = some t
recent_of_input (InputParam.single_item item) = user_input item
recent_of_input (InputParam.items items) = recent_input (reverse items)

abbrev pub responses_tool_name : ResponsesTool → List String
responses_tool_name (ResponsesTool.function name description parameters strict) = name ∷ []
responses_tool_name (ResponsesTool.custom (some name) description format) = name ∷ []
responses_tool_name _ = []

-- `append_message_content_text`: what is put behind a text.
abbrev pub shown_input : InputContent → String
shown_input (InputContent.input_text t) = t
shown_input (InputContent.input_image url detail) = "[Image]"
shown_input (InputContent.input_file url) = "[File]"
shown_input (InputContent.input_audio audio format) = "[Audio]"

unfoldable pub shown_inputs : List InputContent → String
shown_inputs [] = ""
shown_inputs (item ∷ items) = (" " <> shown_input item) <> shown_inputs items

abbrev pub shown_message : State.MessageContent → String
shown_message (State.MessageContent.text t) = t
shown_message (State.MessageContent.items items) = shown_inputs items

unfoldable pub shown_items : List InputItem → String
shown_items [] = ""
shown_items (InputItem.message m ∷ items) = (" " <> shown_message m.content) <> shown_items items
shown_items (_ ∷ items) = shown_items items

abbrev pub input_shown : InputParam → String
input_shown (InputParam.text t) = t
input_shown (InputParam.single_item (InputItem.message m)) = shown_message m.content
input_shown (InputParam.single_item _) = ""
input_shown (InputParam.items items) = shown_items items
