-- ===== src/Requests/Provider/Sendable/FromMessages.antt =====
-- The messages that a request of the Messages API becomes.
use plano.Prelude.{false, List, [], ◌∷◌, null, All, All-append, ◌≡◌, refl}
use plano.State.{Result, ok, err}
use plano.Streaming.Converse.{ConversationRole}
use plano.Streaming.Sse.{
  MessagesContentBlock, MessagesImageSource, ResultBlock, ToolResultContent, text, tool_use_block,
  image_block, tool_result_block,
}
use plano.Streaming.Transforms.{TransformError}
use plano.Completions.{ContentBlock, ToolResultContentBlock}
use plano.Requests.Messages.{MessagesMessage, MessagesMessageContent}
use plano.Requests.FromMessages.ToConverse.{
  at_least_one, final_content, result_blocks, result_content, image_content, converse_role,
  converse_block, converse_blocks, converse_content, with_role, messages_message_to_converse,
  converse_messages,
}
use plano.Requests.Provider.Sendable.{
  HasWords, IsWordy, IsWordyResult, IsWordyBlock, IsWordyContent, IsWordyMessage, IsFilled,
  AreFilled, IsSendable, IfOk, if_text-AreFilled, at_least_one-IsSendable, prepend-All,
}

final_content-HaveWords :
    (bs : List ToolResultContentBlock)
    → All HasWords bs
    → (null (final_content bs) ≡ false) × All HasWords (final_content bs)
final_content-HaveWords [] h = (refl, (refl, tt))
final_content-HaveWords (b ∷ bs) h = (refl, h)

result_blocks-HaveWords : (bs : List ResultBlock) → All IsWordy bs → All HasWords (result_blocks bs)
unfolding result_blocks
result_blocks-HaveWords [] h = tt
result_blocks-HaveWords (ResultBlock.text t ∷ bs) (p, h) = (p, result_blocks-HaveWords bs h)
result_blocks-HaveWords (ResultBlock.other_block json ∷ bs) (p, h) = result_blocks-HaveWords bs h

result_content-HaveWords :
    (content : ToolResultContent) → IsWordyResult content → All HasWords (result_content content)
result_content-HaveWords (ToolResultContent.text t) h = (h, tt)
result_content-HaveWords (ToolResultContent.blocks bs) h = result_blocks-HaveWords bs h

image_content-AreFilled : (source : MessagesImageSource) → AreFilled (image_content source)
image_content-AreFilled (MessagesImageSource.base64 media_type base64_data) = (tt, tt)
image_content-AreFilled (MessagesImageSource.url u) = tt

converse_block-AreFilled :
    (block : MessagesContentBlock) → IsWordyBlock block → AreFilled (converse_block block)
converse_block-AreFilled (text t) h = if_text-AreFilled t
converse_block-AreFilled (tool_use_block id name input) h = (tt, tt)
converse_block-AreFilled (tool_result_block id is_error content) h =
    (final_content-HaveWords (result_content content) (result_content-HaveWords content h), tt)
converse_block-AreFilled (image_block source) h = image_content-AreFilled source
converse_block-AreFilled _ h = tt

converse_blocks-AreFilled :
    (blocks : List MessagesContentBlock)
    → All IsWordyBlock blocks
    → AreFilled (converse_blocks blocks)
unfolding converse_blocks
converse_blocks-AreFilled [] h = tt
converse_blocks-AreFilled (block ∷ blocks) (p, h) =
    All-append IsFilled (converse_block block) (converse_blocks blocks)
      (converse_block-AreFilled block p) (converse_blocks-AreFilled blocks h)

converse_content-AreFilled :
    (content : MessagesMessageContent)
    → IsWordyContent content
    → AreFilled (converse_content content)
converse_content-AreFilled (MessagesMessageContent.single t) h = if_text-AreFilled t
converse_content-AreFilled (MessagesMessageContent.blocks bs) h = converse_blocks-AreFilled bs h

with_role-IsSendable :
    (role : Result TransformError ConversationRole) (content : List ContentBlock)
    → (null content ≡ false) × AreFilled content
    → IfOk IsSendable (with_role role content)
with_role-IsSendable (ok role) content h = h
with_role-IsSendable (err e) content h = tt

messages_message-IsSendable :
    (message : MessagesMessage)
    → IsWordyMessage message
    → IfOk IsSendable (messages_message_to_converse message)
unfolding messages_message_to_converse
messages_message-IsSendable message h =
    with_role-IsSendable (converse_role message.role)
      (at_least_one (converse_content message.content))
      (at_least_one-IsSendable (converse_content message.content)
        (converse_content-AreFilled message.content h))

pub converse_messages-AreSendable :
    (messages : List MessagesMessage)
    → All IsWordyMessage messages
    → IfOk (All IsSendable) (converse_messages messages)
unfolding converse_messages
converse_messages-AreSendable [] h = tt
converse_messages-AreSendable (message ∷ messages) (p, h) =
    prepend-All IsSendable (messages_message_to_converse message) (converse_messages messages)
      (messages_message-IsSendable message p) (converse_messages-AreSendable messages h)
