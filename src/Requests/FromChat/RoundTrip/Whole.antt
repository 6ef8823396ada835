-- ===== src/Requests/FromChat/RoundTrip/Whole.antt =====
-- A whole request of the Messages API, as chat completions and back.
use plano.Prelude.{
  ℕ, false, Option, none, some, List, [], ◌∷◌, ◌++◌, String, starts_with, All, if◌then◌else◌, ◌≡◌,
  refl, ap, ◌∙◌, Bool-cases, inl, inr,
}
use plano.State.{Result, ok, err}
use plano.Streaming.Transforms.{TransformError}
use plano.Requests.{
  Message, ChatCompletionsRequest, extract_text, content_text, is_o3, suppress_max_tokens_if_o3,
  fix_temperature_if_gpt5,
}
use plano.Requests.Messages.{
  MessagesMessage, MessagesSystemPrompt, MessagesTool, MessagesToolChoice, MessagesRequest,
  prompt_text,
}
use plano.Requests.FromMessages.{
  system_messages, openai_messages_of, all_openai_messages, system_message, chat_fields,
  messages_request_to_chat,
}
use plano.Requests.FromMessages.ToConverse.{prepend}
use plano.Requests.FromChat.{last_system, messages_of, chat_request_to_messages, system_prompt_of}
use plano.Requests.FromChat.RoundTrip.Messages.{IsShared, IsShared-Single, Single}
use plano.Requests.FromChat.RoundTrip.Options.{
  IsSharedOption, IsSharedPrompt, no_prompt, a_prompt, choice_back, some_tools_back,
}

module _ (read_value : String → Result String String) where
  messages_of-step :
      {message : MessagesMessage}
      → Single read_value message
      → (rest : List Message)
      → messages_of read_value (openai_messages_of message ++ rest)
        ≡ prepend (ok message) (messages_of read_value rest)
  unfolding messages_of
  messages_of-step s rest = rw (s.is_all, s.is_said, s.comes_back) refl

  last_system-step :
      {message : MessagesMessage}
      → Single read_value message
      → (prompt : Option MessagesSystemPrompt) (rest : List Message)
      → last_system prompt (openai_messages_of message ++ rest) ≡ last_system prompt rest
  unfolding last_system
  last_system-step s prompt rest =
      ap (λ ms. last_system prompt (ms ++ rest)) s.is_all
      ∙ ap (λ b. last_system (if b then some (system_prompt_of s.sent) else prompt) rest) s.is_said

  messages_back :
      (ms : List MessagesMessage)
      → All (IsShared read_value) ms
      → messages_of read_value (all_openai_messages ms) ≡ ok ms
  unfolding all_openai_messages messages_of
  messages_back [] h = refl
  messages_back (m ∷ ms) h =
      messages_of-step (IsShared-Single read_value h.0) (all_openai_messages ms)
      ∙ ap (prepend (ok m)) (messages_back ms h.1)

  prompt_kept :
      (prompt : Option MessagesSystemPrompt) (ms : List MessagesMessage)
      → All (IsShared read_value) ms
      → last_system prompt (all_openai_messages ms) ≡ prompt
  unfolding all_openai_messages last_system
  prompt_kept prompt [] h = refl
  prompt_kept prompt (m ∷ ms) h =
      last_system-step (IsShared-Single read_value h.0) prompt (all_openai_messages ms)
      ∙ prompt_kept prompt ms h.1

  messages_behind_prompt :
      {prompt : Option MessagesSystemPrompt} (ms : List MessagesMessage)
      → IsSharedPrompt prompt
      → All (IsShared read_value) ms
      → messages_of read_value (system_messages prompt ++ all_openai_messages ms) ≡ ok ms
  unfolding messages_of system_message
  messages_behind_prompt ms no_prompt h = messages_back ms h
  messages_behind_prompt ms (a_prompt t) h = messages_back ms h

  prompt_back :
      {prompt : Option MessagesSystemPrompt} (ms : List MessagesMessage)
      → IsSharedPrompt prompt
      → All (IsShared read_value) ms
      → last_system none (system_messages prompt ++ all_openai_messages ms) ≡ prompt
  unfolding last_system system_message prompt_text extract_text content_text
  prompt_back ms no_prompt h = prompt_kept none ms h
  prompt_back ms (a_prompt t) h = prompt_kept (some (MessagesSystemPrompt.single t)) ms h

  fields_kept :
      (req : MessagesRequest)
      → starts_with req.model "gpt-5" ≡ false
      → messages_request_to_chat req ≡ ok (chat_fields req)
  unfolding messages_request_to_chat suppress_max_tokens_if_o3 fix_temperature_if_gpt5
  fields_kept req other = elim (Bool-cases (is_o3 req.model)) [
    | inl o3 ↦ rw (o3, other) refl
    | inr plain ↦ rw (plain, other) refl
  ]

  -- A request with the fields that chat completions have.
  abbrev pub shared_request :
      String
      → Option MessagesSystemPrompt
      → List MessagesMessage
      → ℕ
      → Option (List MessagesTool)
      → Option MessagesToolChoice
      → MessagesRequest
      → MessagesRequest
  shared_request model prompt messages max_tokens tools choice sampling = record {
    model = model;
    messages = messages;
    max_tokens = max_tokens;
    container = none;
    mcp_servers = none;
    system_prompt = prompt;
    metadata = none;
    service_tier = none;
    thinking = none;
    temperature = sampling.temperature;
    top_p = sampling.top_p;
    top_k = none;
    stream = sampling.stream;
    stop_sequences = sampling.stop_sequences;
    tools = tools;
    tool_choice = choice;
  }

  abbrev pub then_messages :
      Result TransformError ChatCompletionsRequest → Result TransformError MessagesRequest
  then_messages (ok req) = chat_request_to_messages read_value req
  then_messages (err e) = err e

  -- A request of the Messages API comes back from chat completions as it was, where it has only what
  -- these have: no field of the Messages API alone, a system prompt that is a text, messages that are
  -- a text, texts and images in front of the calls, or the text that answers one call, and a tool
  -- choice that chat completions have. Its model is not one whose temperature is fixed.
  pub chat_request-messages_request :
      (model : String) {prompt : Option MessagesSystemPrompt} (messages : List MessagesMessage)
      (max_tokens : ℕ) (tools : Option (List MessagesTool)) {choice : Option MessagesToolChoice}
      (sampling : MessagesRequest)
      → starts_with model "gpt-5" ≡ false
      → IsSharedPrompt prompt
      → All (IsShared read_value) messages
      → IsSharedOption choice
      → then_messages (
          messages_request_to_chat
            (shared_request model prompt messages max_tokens tools choice sampling))
        ≡ ok (shared_request model prompt messages max_tokens tools choice sampling)
  unfolding chat_request_to_messages
  chat_request-messages_request model {prompt} messages max_tokens tools {choice} sampling other
        is_prompt are_shared is_choice =
      ap then_messages
        (fields_kept (shared_request model prompt messages max_tokens tools choice sampling) other)
      ∙ rw
          (
            messages_behind_prompt messages is_prompt are_shared,
            prompt_back messages is_prompt are_shared,
            some_tools_back tools,
            choice_back is_choice,
          )
          refl
