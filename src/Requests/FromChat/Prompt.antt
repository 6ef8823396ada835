-- ===== src/Requests/FromChat/Prompt.antt =====
-- The system messages of a chat in a request of the Messages API and in a Converse request.
use plano.Prelude.{
  true, false, Option, none, some, List, [], ◌∷◌, ◌++◌, String, All, if◌then◌else◌, ◌≡◌, refl, ap,
  ◌∙◌,
}
use plano.State.{Result, ok, err}
use plano.Streaming.Transforms.{TransformError}
use plano.Requests.{Message, ChatCompletionsRequest, extract_text}
use plano.Requests.Messages.{MessagesMessage, MessagesSystemPrompt, MessagesRequest}
use plano.Requests.FromMessages.ToConverse.{mapped}
use plano.Requests.FromChat.{
  system_prompt_of, last_system, messages_of, messages_fields, chat_request_to_messages,
}
use plano.Requests.FromChat.ToConverse.{system_role}

last_system-said :
    (prompt : Option MessagesSystemPrompt) (ms : List Message)
    → All (λ (m : Message). system_role m.role ≡ false) ms
    → last_system prompt ms ≡ prompt
unfolding last_system
last_system-said prompt [] h = refl
last_system-said prompt (m ∷ ms) h = rw h.0 (last_system-said prompt ms h.1)

last_system-behind :
    (before : List Message) (s : Message) (rest : List Message)
    → system_role s.role ≡ true
    → All (λ (m : Message). system_role m.role ≡ false) rest
    → (prompt : Option MessagesSystemPrompt)
    → last_system prompt (before ++ s ∷ rest) ≡ some (system_prompt_of s)
unfolding last_system
last_system-behind [] s rest is h prompt =
    ap (λ b. last_system (if b then some (system_prompt_of s) else prompt) rest) is
    ∙ last_system-said (some (system_prompt_of s)) rest h
last_system-behind (m ∷ before) s rest is h prompt =
    last_system-behind before s rest is h
      (if system_role m.role then some (system_prompt_of m) else prompt)

module _ (read_value : String → Result String String) where
  prompt_of_fields :
      (req : ChatCompletionsRequest) (r : Result TransformError (List MessagesMessage))
      {q : MessagesRequest}
      → mapped (messages_fields read_value req) r ≡ ok q
      → q.system_prompt ≡ last_system none req.messages
  prompt_of_fields req (ok ms) h = cc
  prompt_of_fields req (err e) h = cc

  -- Of the system messages of a chat only the last reaches the Messages API: a translated request has
  -- its text as the system prompt, whatever the system messages in front of it say.
  pub chat_request_to_messages-last_prompt :
      (req : ChatCompletionsRequest) (before : List Message) (s : Message) (rest : List Message)
      (q : MessagesRequest)
      → req.messages ≡ before ++ s ∷ rest
      → system_role s.role ≡ true
      → All (λ (m : Message). system_role m.role ≡ false) rest
      → chat_request_to_messages read_value req ≡ ok q
      → q.system_prompt ≡ some (MessagesSystemPrompt.single (extract_text s.content))
  unfolding chat_request_to_messages
  chat_request_to_messages-last_prompt req before s rest q is is_system said made =
      prompt_of_fields req (messages_of read_value req.messages) made
      ∙ ap (last_system none) is
      ∙ last_system-behind before s rest is_system said none
