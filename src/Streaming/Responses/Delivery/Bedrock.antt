-- ===== src/Streaming/Responses/Delivery/Bedrock.antt =====
-- From a Converse stream to the events of the Responses API, through chunks of a chat completion: the
-- chain of providers/streaming_response.rs, and the buffer behind it.
use plano.Prelude.{
  ℕ, Option, none, List, [], ◌∷◌, String, ◌≡◌, refl, ap, ◌∙◌, number_key, string_key,
}
use plano.State.{Result, ok, err}
use plano.Streaming.Chat.{
  MessageDelta, Usage, FinishReason, ToolCallDelta, ChatCompletionsStreamResponse,
}
use plano.Streaming.Converse.{
  ConverseStreamEvent, ContentBlockStart, ContentBlockDelta, tool_use_start, tool_use_delta,
}
use plano.Streaming.ResponsesApi.{ResponsesApiStreamEvent}
use plano.Streaming.Transforms.{TransformError, Clock}
use plano.Streaming.Transforms.ToResponses.{chat_to_responses}
use plano.Streaming.Transforms.Deltas.{
  stream_deltas, responses_deltas, converse_deltas, transformed, transform,
}
use plano.Streaming.Transforms.Deltas.Agreement.{converse-Agree}
use plano.Streaming.Transforms.ToChat.{
  create_openai_chunk, create_empty_openai_chunk, stream_chunk, tool_delta, converse_to_chat,
  converse_block, converse_delta,
}
use plano.Streaming.Responses.{Outside, ResponsesApiStreamBuffer}
use plano.Streaming.Responses.Delivery.{handle_events}
use plano.Streaming.Responses.Delivery.Chain.{
  texts, one_call, IsSingle, one_choice, AreSingle, nothing_left, next, chat-Delivered,
}

abbrev pub then_responses :
    Result TransformError ChatCompletionsStreamResponse
    → Result TransformError ResponsesApiStreamEvent
then_responses (ok chunk) = chat_to_responses chunk
then_responses (err e) = err e

-- The chain of a Converse event: to a chunk of a chat completion, and on to the Responses API.
abbrev pub converse_to_responses :
    Clock → ConverseStreamEvent → Result TransformError ResponsesApiStreamEvent
converse_to_responses clock e = then_responses (converse_to_chat clock e)

-- A transform's result with one choice at most.
data ResultIsSingle : Result TransformError ChatCompletionsStreamResponse → Type 0 where
  chunk_of :
      {chunk : ChatCompletionsStreamResponse} → IsSingle chunk.choices → ResultIsSingle (ok chunk)
  refused : {e : TransformError} → ResultIsSingle (err e)

transformed-AreSingle :
    {r : Result TransformError ChatCompletionsStreamResponse}
    {l : List ChatCompletionsStreamResponse}
    → ResultIsSingle r
    → AreSingle l
    → AreSingle (transformed r l)
transformed-AreSingle (chunk_of s) rest = next s rest
transformed-AreSingle refused rest = rest

module _ (clock : Clock) where
  no_calls :
      (id model : String) (delta : MessageDelta) (reason : Option FinishReason)
      (usage : Option Usage)
      → delta.tool_calls ≡ none
      → ResultIsSingle (ok (create_openai_chunk clock id model delta reason usage))
  unfolding create_openai_chunk
  no_calls id model delta reason usage is = chunk_of (one_choice _ (texts is))

  a_call : (call : ToolCallDelta) → ResultIsSingle (ok (stream_chunk clock (tool_delta call)))
  unfolding create_openai_chunk
  a_call call = chunk_of (one_choice _ (one_call call refl refl))

  converse_block-IsSingle :
      (index : ℕ) (start : ContentBlockStart)
      → ResultIsSingle (ok (converse_block clock index start))
  converse_block-IsSingle index (tool_use_start s) = a_call _

  converse_delta-IsSingle :
      (index : ℕ) (delta : ContentBlockDelta)
      → ResultIsSingle (ok (converse_delta clock index delta))
  converse_delta-IsSingle index (ContentBlockDelta.text t) = no_calls _ _ _ _ _ refl
  converse_delta-IsSingle index (tool_use_delta d) = a_call _

  converse_to_chat-IsSingle : (e : ConverseStreamEvent) → ResultIsSingle (converse_to_chat clock e)
  unfolding converse_to_chat create_empty_openai_chunk
  converse_to_chat-IsSingle (ConverseStreamEvent.message_start e) = no_calls _ _ _ _ _ refl
  converse_to_chat-IsSingle (ConverseStreamEvent.content_block_start e) =
      converse_block-IsSingle e.content_block_index e.start
  converse_to_chat-IsSingle (ConverseStreamEvent.content_block_delta e) =
      converse_delta-IsSingle e.content_block_index e.delta
  converse_to_chat-IsSingle (ConverseStreamEvent.content_block_stop e) = no_calls _ _ _ _ _ refl
  converse_to_chat-IsSingle (ConverseStreamEvent.message_stop e) = no_calls _ _ _ _ _ refl
  converse_to_chat-IsSingle (ConverseStreamEvent.metadata e) = no_calls _ _ _ _ _ refl
  converse_to_chat-IsSingle (ConverseStreamEvent.internal_server_exception e) =
      no_calls _ _ _ _ _ refl
  converse_to_chat-IsSingle (ConverseStreamEvent.model_stream_error_exception e) =
      no_calls _ _ _ _ _ refl
  converse_to_chat-IsSingle (ConverseStreamEvent.service_unavailable_exception e) =
      no_calls _ _ _ _ _ refl
  converse_to_chat-IsSingle (ConverseStreamEvent.throttling_exception e) = no_calls _ _ _ _ _ refl
  converse_to_chat-IsSingle (ConverseStreamEvent.validation_exception e) = no_calls _ _ _ _ _ refl

  converse-AreSingle :
      (l : List ConverseStreamEvent) → AreSingle (transform (converse_to_chat clock) l)
  converse-AreSingle [] = nothing_left
  converse-AreSingle (e ∷ l) =
      transformed-AreSingle (converse_to_chat-IsSingle e) (converse-AreSingle l)

  -- The chain event by event is the two transforms of the stream, one after the other.
  then_lem :
      (r : Result TransformError ChatCompletionsStreamResponse) {l : List ResponsesApiStreamEvent}
      (m : List ChatCompletionsStreamResponse)
      → l ≡ transform chat_to_responses m
      → transformed (then_responses r) l ≡ transform chat_to_responses (transformed r m)
  then_lem (ok chunk) m same = ap (λ l. transformed (chat_to_responses chunk) l) same
  then_lem (err e) m same = same

  chain_lem :
      (l : List ConverseStreamEvent)
      → transform (converse_to_responses clock) l
        ≡ transform chat_to_responses (transform (converse_to_chat clock) l)
  chain_lem [] = refl
  chain_lem (e ∷ l) =
      then_lem (converse_to_chat clock e) (transform (converse_to_chat clock) l) (chain_lem l)

  -- The Responses API events that the buffer makes of a Converse stream say what the stream says:
  -- the texts and the pieces of arguments, once and in order, whatever the state of the buffer, as the
  -- delta events alone are read.
  pub converse-Delivered :
      (o : Outside) (b : ResponsesApiStreamBuffer) (l : List ConverseStreamEvent)
      → stream_deltas responses_deltas
          (handle_events o (transform (converse_to_responses clock) l) b)
        ≡ stream_deltas converse_deltas l
  converse-Delivered o b l =
      ap (λ events. stream_deltas responses_deltas (handle_events o events b)) (chain_lem l)
      ∙ chat-Delivered o b (converse-AreSingle l)
      ∙ (converse-Agree clock l).0
