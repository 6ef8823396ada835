-- ===== src/Streaming/Responses/Delivery/Chain.antt =====
-- From the chunks of a chat completion to the events of the Responses API: the transform and the
-- buffer together.
use plano.Prelude.{
  ℕ, Option, none, some, List, [], ◌∷◌, ◌++◌, append-nil, String, ◌≡◌, refl, ap, sym, ◌∙◌,
  Bool-cases, inl, inr, is_empty, number_key, string_key,
}
use plano.State.{Result}
use plano.Streaming.Chat.{
  Role, MessageDelta, FinishReason, FunctionCallDelta, ToolCallDelta, StreamChoice,
  ChatCompletionsStreamResponse,
}
use plano.Streaming.ResponsesApi.{ResponsesApiStreamEvent}
use plano.Streaming.Transforms.{TransformError}
use plano.Streaming.Transforms.ToResponses.{
  chat_to_responses, choices_event, call_function_event, function_event, content_event,
  finish_event, first_of,
}
use plano.Streaming.Transforms.Deltas.{
  Delta, stream_deltas, called, responses_deltas, transform, result_deltas,
}
use plano.Streaming.Transforms.Deltas.Agreement.{transformed_lem}
use plano.Streaming.Responses.{Outside, ResponsesApiStreamBuffer}
use plano.Streaming.Transforms.Deltas.{chat_deltas, choice_deltas, said?, argued?, function_deltas}
use plano.Streaming.Responses.Delivery.{AreTranslated, nothing, handle_events, handle_events_lem}
use plano.Streaming.Responses.Delivery.Translated.{transformed-AreTranslated, chat_to_responses_lem}

-- A delta that has a text, or one call.
pub data IsSingleDelta (delta : MessageDelta) : Type 0 where
  texts : delta.tool_calls ≡ none → IsSingleDelta delta
  one_call :
      (call : ToolCallDelta)
      → said? delta.content ≡ []
      → delta.tool_calls ≡ some (call ∷ [])
      → IsSingleDelta delta

-- A chunk that has one choice at most.
pub data IsSingle : List StreamChoice → Type 0 where
  no_choice : IsSingle []
  one_choice : (choice : StreamChoice) → IsSingleDelta choice.delta → IsSingle (choice ∷ [])

pub data AreSingle : List ChatCompletionsStreamResponse → Type 0 where
  nothing_left : AreSingle []
  next :
      {chunk : ChatCompletionsStreamResponse} {l : List ChatCompletionsStreamResponse}
      → IsSingle chunk.choices
      → AreSingle l
      → AreSingle (chunk ∷ l)

abbrev told : Result TransformError ResponsesApiStreamEvent → List Delta
told r = result_deltas responses_deltas r

finish_event-told :
    (index : ℕ) (reason : Option FinishReason) (role : Option Role)
    → told (finish_event index reason role) ≡ []
finish_event-told index (some r) role = refl
finish_event-told index none (some r) = refl
finish_event-told index none none = refl

content_event-told :
    (index : ℕ) (content : Option String) (rest : Result TransformError ResponsesApiStreamEvent)
    → told rest ≡ []
    → told (content_event index content rest) ≡ said? content
content_event-told index none rest silent = silent
content_event-told index (some c) rest silent = elim (Bool-cases (is_empty c)) [
  | inl no_text ↦ rw no_text silent
  | inr some_text ↦ simp some_text refl
]

function_event-told :
    (index : ℕ) (id name arguments : Option String)
    (rest : Result TransformError ResponsesApiStreamEvent)
    → told rest ≡ []
    → told (first_of (function_event index id name arguments) rest)
      ≡ called id name ++ argued? arguments
function_event-told index id name (some a) rest silent = refl
function_event-told index id (some n) none rest silent = refl
function_event-told index (some i) none none rest silent = silent
function_event-told index none none none rest silent = silent

call_event-told :
    (index : ℕ) (id : Option String) (function : Option FunctionCallDelta)
    (rest : Result TransformError ResponsesApiStreamEvent)
    → told rest ≡ []
    → told (first_of (call_function_event index id function) rest) ≡ function_deltas id function
call_event-told index id none rest silent = silent
call_event-told index id (some f) rest silent =
    function_event-told index id f.name f.arguments rest silent

-- The content of a choice, its end or its role.
abbrev content_of : StreamChoice → Result TransformError ResponsesApiStreamEvent
content_of choice =
    content_event choice.index choice.delta.content
      (finish_event choice.index choice.finish_reason choice.delta.role)

content_of-told : (choice : StreamChoice) → told (content_of choice) ≡ said? choice.delta.content
content_of-told choice =
    content_event-told choice.index choice.delta.content _
      (finish_event-told choice.index choice.finish_reason choice.delta.role)

choices_event-told :
    {choices : List StreamChoice}
    → IsSingle choices
    → told (choices_event choices) ≡ choice_deltas choices
choices_event-told no_choice = refl
choices_event-told (one_choice choice (texts no_calls)) =
    rw no_calls (content_of-told choice ∙ sym (append-nil _ ∙ append-nil _))
choices_event-told (one_choice choice (one_call call silent is)) = rw is (
    call_event-told choice.index call.id call.function (content_of choice)
      (content_of-told choice ∙ silent)
    ∙ sym (
        ap (λ d. (d ++ (function_deltas call.id call.function ++ [])) ++ []) silent
        ∙ append-nil _
        ∙ append-nil _))

module _ (o : Outside) where
  AreSingle-AreTranslated :
      {l : List ChatCompletionsStreamResponse}
      → AreSingle l
      → AreTranslated (transform chat_to_responses l)
  AreSingle-AreTranslated nothing_left = nothing
  AreSingle-AreTranslated (next {chunk} s rest) =
      transformed-AreTranslated (chat_to_responses_lem chunk) (AreSingle-AreTranslated rest)

  AreSingle-told :
      {l : List ChatCompletionsStreamResponse}
      → AreSingle l
      → stream_deltas responses_deltas (transform chat_to_responses l) ≡ stream_deltas chat_deltas l
  unfolding chat_to_responses
  AreSingle-told nothing_left = refl
  AreSingle-told (next {chunk} {l} s rest) =
      transformed_lem responses_deltas (chat_to_responses chunk) (transform chat_to_responses l)
      ∙ ap (λ d. d ++ stream_deltas responses_deltas (transform chat_to_responses l))
          (choices_event-told s)
      ∙ ap (λ d. chat_deltas chunk ++ d) (AreSingle-told rest)

  -- The Responses API events that the buffer makes of a stream of chunks say what the chunks say,
  -- whatever the state of the buffer, if each chunk has one choice at most, with a text or with one
  -- call: the texts and the pieces of arguments, once and in order, as the delta events alone are read.
  pub chat-Delivered :
      (b : ResponsesApiStreamBuffer) {l : List ChatCompletionsStreamResponse}
      → AreSingle l
      → stream_deltas responses_deltas (handle_events o (transform chat_to_responses l) b)
        ≡ stream_deltas chat_deltas l
  chat-Delivered b s = handle_events_lem o b (AreSingle-AreTranslated s) ∙ AreSingle-told s
