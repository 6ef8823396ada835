-- ===== src/Requests/FromChat/Errors.antt =====
-- When a chat completions request has no translation to the Messages API.
use plano.Prelude.{Option, none, some, List, [], ◌∷◌, String, All, ◌↔◌, if◌then◌else◌}
use plano.State.{Result, ok, err}
use plano.Streaming.Chat.{Role}
use plano.Streaming.Sse.{MessagesRole, MessagesContentBlock}
use plano.Streaming.Transforms.{TransformError}
use plano.Completions.{ToolCall}
use plano.Completions.Transforms.{call_block, call_blocks, calls_of, behind}
use plano.Requests.{Message, ChatCompletionsRequest, extract_text}
use plano.Requests.Messages.{MessagesMessage}
use plano.Requests.FromMessages.ToConverse.{prepend, mapped}
use plano.Requests.FromChat.{
  content_blocks, with_messages_role, tool_message, convert_openai_message_to_anthropic_content,
  of_role, messages_message_of, messages_of, messages_fields, chat_request_to_messages,
}
use plano.Requests.FromChat.ToConverse.{system_role}

abbrev pub IsOk : {E A : Type 0} → Result E A → Type 0
IsOk (ok a) = Unit
IsOk (err e) = ⊥

abbrev pub IsGiven : {A : Type 0} → Option A → Type 0
IsGiven none = ⊥
IsGiven (some a) = Unit

module _ (read_value : String → Result String String) where
  -- The arguments of a call are a JSON value.
  abbrev pub HasInput : ToolCall → Type 0
  HasInput call = IsOk (read_value call.function.arguments)

  abbrev pub HasTranslation : Role → Message → Type 0
  HasTranslation Role.user m = All HasInput (calls_of read_value m.tool_calls)
  HasTranslation Role.assistant m = All HasInput (calls_of read_value m.tool_calls)
  HasTranslation Role.tool m = IsGiven m.tool_call_id
  HasTranslation _ m = Unit

  abbrev pub IsTranslatable : Message → Type 0
  IsTranslatable m = HasTranslation m.role m

  call_block-IsOk :
      (call : ToolCall) (input : Result String String)
      (rest : Result TransformError (List MessagesContentBlock))
      → IsOk (call_block read_value call input rest) ↔ (IsOk input × IsOk rest)
  call_block-IsOk call (ok input) (ok blocks) = (λ h. (tt, tt), λ h. tt)
  call_block-IsOk call (ok input) (err e) = (λ h. (tt, h), λ h. h.1)
  call_block-IsOk call (err e) rest = (λ h. absurd h, λ h. h.0)

  call_blocks-IsOk :
      (calls : List ToolCall) → IsOk (call_blocks read_value calls) ↔ All HasInput calls
  unfolding call_blocks
  call_blocks-IsOk [] = (λ h. tt, λ h. tt)
  call_blocks-IsOk (call ∷ calls) =
      let this =
        call_block-IsOk call (read_value call.function.arguments) (call_blocks read_value calls) in
      let rest = call_blocks-IsOk calls in
      (λ h. ((this.0 h).0, rest.0 (this.0 h).1), λ h. this.1 (h.0, rest.1 h.1))

  content-IsOk :
      (role : MessagesRole) (first : List MessagesContentBlock)
      (rest : Result TransformError (List MessagesContentBlock))
      → IsOk (with_messages_role role (behind read_value first rest)) ↔ IsOk rest
  content-IsOk role first (ok blocks) = (λ h. tt, λ h. tt)
  content-IsOk role first (err e) = (λ h. h, λ h. h)

  converted-IsOk :
      (role : MessagesRole) (message : Message)
      → IsOk
          (with_messages_role role (convert_openai_message_to_anthropic_content read_value message))
        ↔ All HasInput (calls_of read_value message.tool_calls)
  unfolding convert_openai_message_to_anthropic_content
  converted-IsOk role message =
      let content =
        content-IsOk role (content_blocks message.content)
          (call_blocks read_value (calls_of read_value message.tool_calls)) in
      let calls = call_blocks-IsOk (calls_of read_value message.tool_calls) in
      (λ h. calls.0 (content.0 h), λ h. content.1 (calls.1 h))

  tool_message-IsOk :
      (content : String) (id : Option String) → IsOk (tool_message content id) ↔ IsGiven id
  tool_message-IsOk content none = (λ h. h, λ h. h)
  tool_message-IsOk content (some id) = (λ h. h, λ h. h)

  prepend-IsOk :
      {A : Type 0} (first : Result TransformError A) (rest : Result TransformError (List A))
      → IsOk (prepend first rest) ↔ (IsOk first × IsOk rest)
  prepend-IsOk (ok a) (ok as') = (λ h. (tt, tt), λ h. tt)
  prepend-IsOk (ok a) (err e) = (λ h. (tt, h), λ h. h.1)
  prepend-IsOk (err e) rest = (λ h. absurd h, λ h. h.0)

  mapped-IsOk :
      {A B : Type 0} (f : A → B) (r : Result TransformError A) → IsOk (mapped f r) ↔ IsOk r
  mapped-IsOk f (ok a) = (λ h. h, λ h. h)
  mapped-IsOk f (err e) = (λ h. h, λ h. h)

  -- The loop at a message of a role succeeds where the message is translatable and the rest succeeds.
  abbrev OkTurn : Role → Message → Result TransformError (List MessagesMessage) → Type 0
  OkTurn role message rest =
      IsOk (if system_role role then rest else prepend (of_role read_value role message) rest)
      ↔ (HasTranslation role message × IsOk rest)

  turn_lem :
      (role : Role) (message : Message) (rest : Result TransformError (List MessagesMessage))
      → OkTurn role message rest
  turn_lem Role.system message rest = (λ h. (tt, h), λ h. h.1)
  turn_lem Role.developer message rest = (λ h. (tt, h), λ h. h.1)
  turn_lem Role.user message rest =
      let this = prepend-IsOk (of_role read_value Role.user message) rest in
      let said = converted-IsOk MessagesRole.user message in
      (λ h. (said.0 (this.0 h).0, (this.0 h).1), λ h. this.1 (said.1 h.0, h.1))
  turn_lem Role.assistant message rest =
      let this = prepend-IsOk (of_role read_value Role.assistant message) rest in
      let said = converted-IsOk MessagesRole.assistant message in
      (λ h. (said.0 (this.0 h).0, (this.0 h).1), λ h. this.1 (said.1 h.0, h.1))
  turn_lem Role.tool message rest =
      let this = prepend-IsOk (of_role read_value Role.tool message) rest in
      let said = tool_message-IsOk (extract_text message.content) message.tool_call_id in
      (λ h. (said.0 (this.0 h).0, (this.0 h).1), λ h. this.1 (said.1 h.0, h.1))

  messages_of-IsOk :
      (messages : List Message)
      → IsOk (messages_of read_value messages) ↔ All IsTranslatable messages
  unfolding messages_of messages_message_of
  messages_of-IsOk [] = (λ h. tt, λ h. tt)
  messages_of-IsOk (message ∷ messages) =
      let this = turn_lem message.role message (messages_of read_value messages) in
      let rest = messages_of-IsOk messages in
      (λ h. ((this.0 h).0, rest.0 (this.0 h).1), λ h. this.1 (h.0, rest.1 h.1))

  -- A chat completions request is translated to the Messages API exactly when every message of a tool
  -- names the call that it answers, and the arguments of every call of the user or the assistant are
  -- a JSON value; otherwise the translation is an error.
  pub chat_request_to_messages-IsOk :
      (req : ChatCompletionsRequest)
      → IsOk (chat_request_to_messages read_value req) ↔ All IsTranslatable req.messages
  unfolding chat_request_to_messages
  chat_request_to_messages-IsOk req =
      let whole =
        mapped-IsOk (messages_fields read_value req) (messages_of read_value req.messages) in
      let loop = messages_of-IsOk req.messages in (λ h. loop.0 (whole.0 h), λ h. whole.1 (loop.1 h))
