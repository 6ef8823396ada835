-- ===== src/Streaming/Responses/Delivery/Translated.antt =====
-- A chunk of a chat completion is transformed to an event that the buffer handles.
use plano.Prelude.{
  ℕ, Option, none, some, List, [], ◌∷◌, String, Bool-cases, inl, inr, is_empty, number_key,
  string_key,
}
use plano.State.{Result, ok, err}
use plano.Streaming.Chat.{
  Role, FinishReason, FunctionCallDelta, ToolCallDelta, StreamChoice, ChatCompletionsStreamResponse,
}
use plano.Streaming.ResponsesApi.{ResponsesApiStreamEvent}
use plano.Streaming.Transforms.{TransformError}
use plano.Streaming.Transforms.ToResponses.{
  chat_to_responses, choices_event, call_event, call_function_event, function_event, content_event,
  finish_event, role_event, first_of,
}
use plano.Streaming.Transforms.Deltas.{transformed}
use plano.Streaming.Responses.Runs.{IsTranslated, text, arguments, ending}
use plano.Streaming.Responses.Delivery.{AreTranslated, first}

-- A transform's result that the buffer can be handed.
pub data ResultIsTranslated : Result TransformError ResponsesApiStreamEvent → Type 0 where
  event : {e : ResponsesApiStreamEvent} → IsTranslated e → ResultIsTranslated (ok e)
  refused : {e : TransformError} → ResultIsTranslated (err e)

role_event_lem : (index : ℕ) (role : Option Role) → ResultIsTranslated (role_event index role)
role_event_lem index none = refused
role_event_lem index (some r) = event (text _ _ _ _ _ _ _)

finish_event_lem :
    (index : ℕ) (reason : Option FinishReason) (role : Option Role)
    → ResultIsTranslated (finish_event index reason role)
finish_event_lem index none role = role_event_lem index role
finish_event_lem index (some r) role = event (ending _)

content_event_lem :
    (index : ℕ) (content : Option String) (rest : Result TransformError ResponsesApiStreamEvent)
    → ResultIsTranslated rest
    → ResultIsTranslated (content_event index content rest)
content_event_lem index none rest t = t
content_event_lem index (some c) rest t = elim (Bool-cases (is_empty c)) [
  | inl no_text ↦ rw no_text t
  | inr some_text ↦ rw some_text (event (text _ _ _ _ _ _ _))
]

function_event_lem :
    (index : ℕ) (call_id name arguments : Option String)
    (rest : Result TransformError ResponsesApiStreamEvent)
    → ResultIsTranslated rest
    → ResultIsTranslated (first_of (function_event index call_id name arguments) rest)
function_event_lem index call_id name (some a) rest t = event (arguments _ _ _ _ _ _)
function_event_lem index call_id (some name) none rest t = event (arguments _ _ _ _ _ _)
function_event_lem index call_id none none rest t = t

call_function_lem :
    (index : ℕ) (call_id : Option String) (function : Option FunctionCallDelta)
    (rest : Result TransformError ResponsesApiStreamEvent)
    → ResultIsTranslated rest
    → ResultIsTranslated (first_of (call_function_event index call_id function) rest)
call_function_lem index call_id none rest t = t
call_function_lem index call_id (some f) rest t =
    function_event_lem index call_id f.name f.arguments rest t

call_event_lem :
    (index : ℕ) (calls : Option (List ToolCallDelta))
    (rest : Result TransformError ResponsesApiStreamEvent)
    → ResultIsTranslated rest
    → ResultIsTranslated (first_of (call_event index calls) rest)
call_event_lem index none rest t = t
call_event_lem index (some []) rest t = t
call_event_lem index (some (call ∷ calls)) rest t =
    call_function_lem index call.id call.function rest t

choices_event_lem : (choices : List StreamChoice) → ResultIsTranslated (choices_event choices)
choices_event_lem [] = refused
choices_event_lem (choice ∷ choices) = call_event_lem choice.index choice.delta.tool_calls _ (
    content_event_lem choice.index choice.delta.content _
      (finish_event_lem choice.index choice.finish_reason choice.delta.role))

-- What a chunk is transformed to is an event that the buffer handles.
pub chat_to_responses_lem :
    (chunk : ChatCompletionsStreamResponse) → ResultIsTranslated (chat_to_responses chunk)
unfolding chat_to_responses
chat_to_responses_lem chunk = choices_event_lem chunk.choices

pub transformed-AreTranslated :
    {r : Result TransformError ResponsesApiStreamEvent} {l : List ResponsesApiStreamEvent}
    → ResultIsTranslated r
    → AreTranslated l
    → AreTranslated (transformed r l)
transformed-AreTranslated (event t) rest = first t rest
transformed-AreTranslated refused rest = rest
