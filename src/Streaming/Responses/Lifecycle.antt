-- ===== src/Streaming/Responses/Lifecycle.antt =====
-- What a client of the Responses API may be sent: created, in progress, numbered events, completed.
pub mod Steps
pub mod Prelude
use plano.Prelude.{ℕ, ◌+◌, Bool, true, false, Option, none, some, List, [], ◌∷◌, ◌++◌, ◌≡◌}
use plano.Streaming.ResponsesApi.{
  ResponsesApiResponse, ResponsesApiStreamEvent, response_created, response_in_progress,
  response_completed, response_output_item_added, response_output_item_done,
  response_output_text_delta, response_output_text_done, response_function_call_arguments_delta,
  response_function_call_arguments_done,
}

-- The number of an event between the first two and the last one.
abbrev pub number_of : ResponsesApiStreamEvent → Option ℕ
number_of (response_output_item_added i t n) = some n
number_of (response_output_item_done i t n) = some n
number_of (response_output_text_delta i o c d l f n) = some n
number_of (response_output_text_done i o c t l n) = some n
number_of (response_function_call_arguments_delta o i d n c m) = some n
number_of (response_function_call_arguments_done o i a n) = some n
number_of _ = none

-- The streams with the given next number, by whether they are opened and whether they are closed.
-- A stream opens with `response.created` and `response.in_progress`, numbered 0 and 1; every later
-- event has the next number, and one of them at most is `response.completed`.
pub data Stream : ℕ → Bool → Bool → List ResponsesApiStreamEvent → Type 0 where
  unopened : Stream 0 false false []
  opened :
      (first second : ResponsesApiResponse)
      → Stream 2 true false (response_created first 0 ∷ response_in_progress second 1 ∷ [])
  numbered :
      {n n' : ℕ} {closed : Bool} {events events' : List ResponsesApiStreamEvent}
      → Stream n true closed events
      → (event : ResponsesApiStreamEvent) → number_of event ≡ some n
      → n' ≡ n + 1
      → events' ≡ events ++ event ∷ []
      → Stream n' true closed events'
  closed :
      {n n' : ℕ} {events events' : List ResponsesApiStreamEvent}
      → Stream n true false events
      → (response : ResponsesApiResponse) → n' ≡ n + 1
      → events' ≡ events ++ response_completed response n ∷ []
      → Stream n' true true events'
