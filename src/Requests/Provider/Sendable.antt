-- ===== src/Requests/Provider/Sendable.antt =====
-- What Converse does not accept is not sent to it: a message without content, or with an empty block.
pub mod FromMessages
pub mod FromChat
pub mod Upstream
use plano.Prelude.{
  Bool, true, false, Option, none, some, List, [], ◌∷◌, ◌++◌, String, is_empty, null, All,
  All-append, starts_with, if◌then◌else◌, ◌≡◌, refl, inl, inr, Bool-cases,
}
use plano.State.{Result, ok, err}
use plano.Providers.Api.{SupportedUpstreamApis}
use plano.Streaming.Chat.{Role}
use plano.Streaming.Converse.{ConversationRole}
use plano.Streaming.Sse.{
  MessagesContentBlock, MessagesImageSource, MessagesRole, ResultBlock, ToolResultContent, text,
  tool_use_block, image_block, tool_result_block,
}
use plano.Streaming.Transforms.{TransformError}
use plano.Completions.{ToolCall, ConverseMessage, ContentBlock, ToolResultContentBlock}
use plano.Requests.{ContentPart, MessageContent, Message, ChatCompletionsRequest, extract_text}
use plano.Requests.Messages.{MessagesMessage, MessagesMessageContent, MessagesRequest}
use plano.Requests.Converse.{ConverseRequest}
use plano.Requests.FromMessages.ToConverse.{
  if_text, at_least_one, final_content, result_content, image_content, converse_role,
  converse_block, converse_blocks, converse_content, with_role, messages_message_to_converse,
  prepend, converse_messages, some_messages, mapped, converse_fields, messages_request_to_converse,
}
use plano.Requests.FromChat.ToConverse.{
  system_role, parsed_image, parse_data_url, part_content, append, parts_content, user_content,
  assistant_text, result_texts, tool_content, as_message, use_of, uses_of, call_uses,
  message_of_role, chat_message_to_converse, conversation_of, converse_fields_of,
  chat_request_to_converse,
}
use plano.Requests.ResponsesTools.{Json, tools_of}
use plano.Requests.FromResponses.{chat_fields_of, responses_request_to_chat}
use plano.Requests.Provider.{
  ProviderRequestType, chat_completions_request, messages_request, bedrock_converse,
  bedrock_converse_stream, responses_api_request, ProviderRequestError, converted, by_chat,
  chat_upstream, messages_upstream, responses_upstream, for_upstream,
}

abbrev pub HasWords : ToolResultContentBlock → Type 0
HasWords (ToolResultContentBlock.text t) = is_empty t ≡ false
HasWords _ = Unit

-- A text that is not empty, or a result of a tool with blocks and no empty text among them.
abbrev pub IsFilled : ContentBlock → Type 0
IsFilled (ContentBlock.text t) = is_empty t ≡ false
IsFilled (ContentBlock.tool_result r) = (null r.content ≡ false) × All HasWords r.content
IsFilled _ = Unit

abbrev pub AreFilled : List ContentBlock → Type 0
AreFilled bs = All IsFilled bs

abbrev pub IsSendable : ConverseMessage → Type 0
IsSendable m = (null m.content ≡ false) × AreFilled m.content

abbrev pub AreSendable : Option (List ConverseMessage) → Type 0
AreSendable none = Unit
AreSendable (some ms) = All IsSendable ms

abbrev pub IsSendableRequest : ProviderRequestType → Type 0
IsSendableRequest (bedrock_converse req) = AreSendable req.messages
IsSendableRequest (bedrock_converse_stream req) = AreSendable req.messages
IsSendableRequest _ = Unit

-- A request of the Messages API whose tool results have no empty text.
abbrev pub IsWordy : ResultBlock → Type 0
IsWordy (ResultBlock.text t) = is_empty t ≡ false
IsWordy _ = Unit

abbrev pub IsWordyResult : ToolResultContent → Type 0
IsWordyResult (ToolResultContent.text t) = is_empty t ≡ false
IsWordyResult (ToolResultContent.blocks bs) = All IsWordy bs

abbrev pub IsWordyBlock : MessagesContentBlock → Type 0
IsWordyBlock (tool_result_block id is_error content) = IsWordyResult content
IsWordyBlock _ = Unit

abbrev pub IsWordyContent : MessagesMessageContent → Type 0
IsWordyContent (MessagesMessageContent.single t) = Unit
IsWordyContent (MessagesMessageContent.blocks bs) = All IsWordyBlock bs

abbrev pub IsWordyMessage : MessagesMessage → Type 0
IsWordyMessage m = IsWordyContent m.content

abbrev pub IsWordyRequest : ProviderRequestType → Type 0
IsWordyRequest (messages_request req) = All IsWordyMessage req.messages
IsWordyRequest _ = Unit

-- What holds of a result, if there is one.
abbrev pub IfOk : {E A : Type 0} → (A → Type 0) → Result E A → Type 0
IfOk P (ok a) = P a
IfOk P (err e) = Unit

pub if_text-AreFilled : (t : String) → AreFilled (if_text t)
if_text-AreFilled t = elim (Bool-cases (is_empty t)) [
  | inl empty ↦ rw empty tt
  | inr filled ↦ rw filled (filled, tt)
]

pub at_least_one-IsSendable :
    (bs : List ContentBlock)
    → AreFilled bs
    → (null (at_least_one bs) ≡ false) × AreFilled (at_least_one bs)
at_least_one-IsSendable [] h = (refl, (refl, tt))
at_least_one-IsSendable (b ∷ bs) h = (refl, h)

pub prepend-All :
    {A E : Type 0} (P : A → Type 0) (first : Result E A) (rest : Result E (List A))
    → IfOk P first
    → IfOk (All P) rest
    → IfOk (All P) (prepend first rest)
prepend-All P (ok a) (ok as') h k = (h, k)
prepend-All P (ok a) (err e) h k = tt
prepend-All P (err e) rest h k = tt

pub some_messages-AreSendable :
    (ms : List ConverseMessage) → All IsSendable ms → AreSendable (some_messages ms)
some_messages-AreSendable [] h = tt
some_messages-AreSendable (m ∷ ms) h = h
