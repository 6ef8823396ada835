-- ===== src/Requests/Provider/SetMessages.antt =====
-- Writing messages into a request: `set_messages` of the APIs' requests.
use plano.Prelude.{
  Bool, true, false, Option, some, List, [], ◌∷◌, ◌++◌, map, String, ◌<>◌, is_empty, if◌then◌else◌,
}
use plano.State.{Result, ok, err, InputParam}
use plano.Streaming.Chat.{Role}
use plano.Streaming.Converse.{ConversationRole}
use plano.Completions.{ConverseMessage, ContentBlock}
use plano.Completions.Transforms.{join_parts}
use plano.Requests.{MessageContent, Message}
use plano.Requests.Messages.{MessagesMessage, MessagesSystemPrompt, MessagesRequest}
use plano.Requests.Converse.{SystemContentBlock, ConverseRequest}
use plano.Requests.Responses.{ResponsesApiRequest}
use plano.Requests.FromChat.{messages_message_of}
use plano.Requests.FromChat.ToConverse.{system_role}
use plano.Requests.Provider.{
  ProviderRequestType, chat_completions_request, messages_request, bedrock_converse,
  bedrock_converse_stream, responses_api_request,
}

abbrev pub is_system : Role → Bool
is_system Role.system = true
is_system _ = false

-- The text of a content that is a text.
abbrev pub text_only : Option MessageContent → List String
text_only (some (MessageContent.text t)) = t ∷ []
text_only _ = []

-- The texts of the messages whose role passes a test.
unfoldable pub role_texts : (Role → Bool) → List Message → List String
role_texts p [] = []
role_texts p (m ∷ ms) =
    let rest = role_texts p ms in if p m.role then text_only m.content ++ rest else rest

unfoldable pub has_role : (Role → Bool) → List Message → Bool
has_role p [] = false
has_role p (m ∷ ms) = let rest = has_role p ms in if p m.role then true else rest

abbrev pub if_ok : {A : Type 0} {E : Type 0} → Result E A → List A
if_ok (ok a) = a ∷ []
if_ok (err e) = []

abbrev pub text_content : Option MessageContent → List ContentBlock
text_content (some (MessageContent.text t)) = ContentBlock.text t ∷ []
text_content _ = []

-- The messages of a role that Converse has; the others are left out.
abbrev pub converse_message : Role → Option MessageContent → List ConverseMessage
converse_message Role.user content =
    record { role = ConversationRole.user; content = text_content content } ∷ []
converse_message Role.assistant content =
    record { role = ConversationRole.assistant; content = text_content content } ∷ []
converse_message _ content = []

unfoldable pub bedrock_messages : List Message → List ConverseMessage
bedrock_messages [] = []
bedrock_messages (m ∷ ms) = converse_message m.role m.content ++ bedrock_messages ms

unfoldable pub bedrock_system : List Message → List SystemContentBlock
bedrock_system [] = []
bedrock_system (m ∷ ms) =
    let rest = bedrock_system ms in
    if is_system m.role then map SystemContentBlock.text (text_only m.content) ++ rest else rest

abbrev pub if_blocks :
    List SystemContentBlock → Option (List SystemContentBlock) → Option (List SystemContentBlock)
if_blocks [] before = before
if_blocks (b ∷ bs) before = some (b ∷ bs)

abbrev pub set_converse : List Message → ConverseRequest → ConverseRequest
set_converse messages req = record req {
  system_blocks = if_blocks (bedrock_system messages) req.system_blocks;
  messages = some (bedrock_messages messages);
}

abbrev pub speaker : Role → String
speaker Role.user = "User"
speaker Role.assistant = "Assistant"
speaker _ = "Unknown"

unfoldable pub without_system : List Message → List Message
without_system [] = []
without_system (m ∷ ms) =
    let rest = without_system ms in if is_system m.role then rest else m ∷ rest

abbrev pub spoken : Message → List String
spoken m = map (λ t. speaker m.role <> (": " <> t)) (text_only m.content)

unfoldable pub all_spoken : List Message → List String
all_spoken [] = []
all_spoken (m ∷ ms) = spoken m ++ all_spoken ms

-- No message, or one that is not a text, leaves the input; several become one text.
abbrev pub combined_input : List Message → InputParam → InputParam
combined_input [] input = input
combined_input (m ∷ []) input = elim (text_only m.content) [
  | [] ↦ input
  | t ∷ ts ↦ InputParam.text t
]
combined_input ms input = InputParam.text (join_parts (all_spoken ms))

abbrev pub if_instructions : String → Option String → Option String
if_instructions t before = if is_empty t then before else some t

abbrev pub set_responses : List Message → ResponsesApiRequest → ResponsesApiRequest
set_responses messages req = record req {
  instructions = if_instructions (join_parts (role_texts is_system messages)) req.instructions;
  input = combined_input (without_system messages) req.input;
}

abbrev pub if_prompt : List Message → Option MessagesSystemPrompt → Option MessagesSystemPrompt
if_prompt messages before =
    if has_role system_role messages
    then some (MessagesSystemPrompt.single (join_parts (role_texts system_role messages)))
    else before

-- Reading the arguments of a call as a JSON value, which serde_json does.
module _ (read_value : String → Result String String) where
  -- A message that cannot be converted is left out.
  unfoldable pub regular_messages : List Message → List MessagesMessage
  regular_messages [] = []
  regular_messages (m ∷ ms) =
      let rest = regular_messages ms in
      if system_role m.role then rest else if_ok (messages_message_of read_value m) ++ rest

  abbrev pub set_anthropic : List Message → MessagesRequest → MessagesRequest
  set_anthropic messages req = record req {
    system_prompt = if_prompt messages req.system_prompt;
    messages = regular_messages messages;
  }

  unfoldable pub set_messages : List Message → ProviderRequestType → ProviderRequestType
  set_messages messages (chat_completions_request req) =
      chat_completions_request (record req { messages = messages })
  set_messages messages (messages_request req) = messages_request (set_anthropic messages req)
  set_messages messages (bedrock_converse req) = bedrock_converse (set_converse messages req)
  set_messages messages (bedrock_converse_stream req) =
      bedrock_converse_stream (set_converse messages req)
  set_messages messages (responses_api_request req) =
      responses_api_request (set_responses messages req)
