-- ===== src/Requests/Provider/Sendable/FromChat.antt =====
-- The messages that a chat completions request becomes: the parts, the texts of a tool and of the
-- assistant, and the calls.
use plano.Prelude.{
  false, Option, none, some, List, [], ◌∷◌, String, is_empty, null, All, All-append, starts_with,
  if◌then◌else◌, ◌≡◌, refl, inl, inr, Bool-cases,
}
use plano.State.{Result, ok, err}
use plano.Streaming.Chat.{Role}
use plano.Streaming.Converse.{ConversationRole}
use plano.Streaming.Transforms.{TransformError}
use plano.Completions.{ToolCall, ContentBlock}
use plano.Requests.{ContentPart, MessageContent, Message, extract_text}
use plano.Requests.FromMessages.ToConverse.{at_least_one, mapped}
use plano.Requests.FromChat.ToConverse.{
  system_role, parsed_image, parse_data_url, part_content, append, parts_content, user_content,
  assistant_text, result_texts, tool_content, as_message, use_of, uses_of, call_uses,
  message_of_role, chat_message_to_converse, conversation_of,
}
use plano.Requests.Provider.Sendable.{
  HasWords, IsFilled, AreFilled, IsSendable, IfOk, if_text-AreFilled, at_least_one-IsSendable,
  prepend-All,
}

parsed_image-AreFilled :
    (url : String) (image : Option (String × String)) → IfOk AreFilled (parsed_image url image)
parsed_image-AreFilled url none = tt
parsed_image-AreFilled url (some (media_type, base64_data)) = (tt, tt)

part_content-AreFilled : (part : ContentPart) → IfOk AreFilled (part_content part)
part_content-AreFilled (ContentPart.text t) = if_text-AreFilled t
part_content-AreFilled (ContentPart.image_url image) =
    elim (Bool-cases (starts_with image.url "data:")) [
      | inl inline ↦ rw inline (parsed_image-AreFilled image.url (parse_data_url image.url))
      | inr remote ↦ rw remote tt
    ]

append-AreFilled :
    (first rest : Result TransformError (List ContentBlock))
    → IfOk AreFilled first
    → IfOk AreFilled rest
    → IfOk AreFilled (append first rest)
append-AreFilled (ok bs) (ok cs) h k = All-append IsFilled bs cs h k
append-AreFilled (ok bs) (err e) h k = tt
append-AreFilled (err e) rest h k = tt

parts_content-AreFilled : (ps : List ContentPart) → IfOk AreFilled (parts_content ps)
unfolding parts_content
parts_content-AreFilled [] = tt
parts_content-AreFilled (part ∷ ps) =
    append-AreFilled (part_content part) (parts_content ps) (part_content-AreFilled part)
      (parts_content-AreFilled ps)

user_content-AreFilled : (content : Option MessageContent) → IfOk AreFilled (user_content content)
user_content-AreFilled none = tt
user_content-AreFilled (some (MessageContent.text t)) = if_text-AreFilled t
user_content-AreFilled (some (MessageContent.parts ps)) = parts_content-AreFilled ps

blank_or-AreFilled :
    (t : String)
    → AreFilled (if is_empty t then ContentBlock.text " " ∷ [] else ContentBlock.text t ∷ [])
blank_or-AreFilled t = elim (Bool-cases (is_empty t)) [
  | inl empty ↦ rw empty (refl, tt)
  | inr filled ↦ rw filled (filled, tt)
]

assistant_text-AreFilled :
    (t : String) (calls : Option (List ToolCall)) → AreFilled (assistant_text t calls)
assistant_text-AreFilled t (some (call ∷ calls)) = if_text-AreFilled t
assistant_text-AreFilled t (some []) = blank_or-AreFilled t
assistant_text-AreFilled t none = blank_or-AreFilled t

result_texts-HaveWords :
    (t : String) → (null (result_texts t) ≡ false) × All HasWords (result_texts t)
result_texts-HaveWords t = elim (Bool-cases (is_empty t)) [
  | inl empty ↦ rw empty (refl, (refl, tt))
  | inr filled ↦ rw filled (refl, (filled, tt))
]

as_message-IsSendable :
    (role : ConversationRole) (content : Result TransformError (List ContentBlock))
    → IfOk AreFilled content
    → IfOk IsSendable (as_message role (mapped at_least_one content))
as_message-IsSendable role (ok bs) h = at_least_one-IsSendable bs h
as_message-IsSendable role (err e) h = tt

tool_message-IsSendable :
    (t : String) (id : Option String)
    → IfOk IsSendable (as_message ConversationRole.user (tool_content t id))
tool_message-IsSendable t none = tt
tool_message-IsSendable t (some id) = (refl, (result_texts-HaveWords t, tt))

module _ (read_value : String → Result String String) where
  use_of-IsFilled :
      (call : ToolCall) (input : Result String String)
      → IfOk IsFilled (use_of read_value call input)
  use_of-IsFilled call (ok input) = tt
  use_of-IsFilled call (err e) = tt

  uses_of-AreFilled : (calls : List ToolCall) → IfOk AreFilled (uses_of read_value calls)
  unfolding uses_of
  uses_of-AreFilled [] = tt
  uses_of-AreFilled (call ∷ calls) =
      prepend-All IsFilled (use_of read_value call (read_value call.function.arguments))
        (uses_of read_value calls) (use_of-IsFilled call (read_value call.function.arguments))
        (uses_of-AreFilled calls)

  call_uses-AreFilled :
      (calls : Option (List ToolCall)) → IfOk AreFilled (call_uses read_value calls)
  call_uses-AreFilled none = tt
  call_uses-AreFilled (some calls) = uses_of-AreFilled calls

  message_of_role-IsSendable :
      (role : Role) (message : Message) → IfOk IsSendable (message_of_role read_value role message)
  message_of_role-IsSendable Role.user message =
      as_message-IsSendable ConversationRole.user (user_content message.content)
        (user_content-AreFilled message.content)
  message_of_role-IsSendable Role.assistant message =
      as_message-IsSendable ConversationRole.assistant _ (
        append-AreFilled (ok (assistant_text (extract_text message.content) message.tool_calls))
          (call_uses read_value message.tool_calls)
          (assistant_text-AreFilled (extract_text message.content) message.tool_calls)
          (call_uses-AreFilled message.tool_calls))
  message_of_role-IsSendable Role.tool message =
      tool_message-IsSendable (extract_text message.content) message.tool_call_id
  message_of_role-IsSendable Role.system message = tt
  message_of_role-IsSendable Role.developer message = tt

  pub conversation_of-AreSendable :
      (messages : List Message) → IfOk (All IsSendable) (conversation_of read_value messages)
  unfolding conversation_of chat_message_to_converse
  conversation_of-AreSendable [] = tt
  conversation_of-AreSendable (message ∷ messages) = elim (Bool-cases (system_role message.role)) [
    | inl is_system ↦ rw is_system (conversation_of-AreSendable messages)
    | inr other ↦ rw other (
        prepend-All IsSendable (message_of_role read_value message.role message)
          (conversation_of read_value messages) (message_of_role-IsSendable message.role message)
          (conversation_of-AreSendable messages))
  ]
