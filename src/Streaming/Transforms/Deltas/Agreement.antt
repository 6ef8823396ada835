-- ===== src/Streaming/Transforms/Deltas/Agreement.antt =====
-- The transforms say what the events say that they are given.
use plano.Prelude.{ℕ, true, All, is_empty, List, [], ◌∷◌, ◌++◌, append-nil, ◌≡◌, refl, ap, ◌∙◌}
use plano.State.{Result, ok, err}
use plano.Streaming.Sse.{
  MessagesStreamEvent, message_start, content_block_start, content_block_delta, content_block_stop,
  message_stop, text,
}
use plano.Streaming.Converse.{
  ConverseStreamEvent, ContentBlockStart, ContentBlockDelta, tool_use_start, tool_use_delta,
}
use plano.Streaming.Transforms.{Clock}
use plano.Streaming.Transforms.ToChat.{
  create_openai_chunk, create_empty_openai_chunk, converse_to_chat, converse_block, converse_delta,
}
use plano.Streaming.Transforms.ToMessages.{
  converse_to_messages, converse_messages_block, converse_messages_delta,
}
use plano.Streaming.Transforms.Deltas.{
  Delta, said, argued, start_deltas, piece_deltas, content_deltas, transformed, chat_deltas,
  messages_deltas, converse_deltas, stream_deltas, transform, result_deltas,
}

pub transformed_lem :
    {E B : Type 0} (after : B → List Delta) (r : Result E B) (rest : List B)
    → stream_deltas after (transformed r rest) ≡ result_deltas after r ++ stream_deltas after rest
transformed_lem after (ok b) rest = refl
transformed_lem after (err e) rest = refl

-- A transform that says of each event what the event says does so of a stream.
pub stream_deltas-transform_of :
    {E A B : Type 0} (P : A → Type 0) (f : A → Result E B) (before : A → List Delta)
    (after : B → List Delta)
    → ((a : A) → P a → result_deltas after (f a) ≡ before a)
    → (l : List A) → All P l
    → stream_deltas after (transform f l) ≡ stream_deltas before l
stream_deltas-transform_of P f before after same [] h = refl
stream_deltas-transform_of P f before after same (a ∷ l) (p, h) =
    transformed_lem after (f a) (transform f l)
    ∙ ap (λ d. d ++ stream_deltas after (transform f l)) (same a p)
    ∙ ap (λ d. before a ++ d) (stream_deltas-transform_of P f before after same l h)

units : {A : Type 0} (l : List A) → All (λ (a : A). Unit {0}) l
units [] = tt
units (a ∷ l) = (tt, units l)

pub stream_deltas-transform :
    {E A B : Type 0} (f : A → Result E B) (before : A → List Delta) (after : B → List Delta)
    → ((a : A) → result_deltas after (f a) ≡ before a)
    → (l : List A) → stream_deltas after (transform f l) ≡ stream_deltas before l
stream_deltas-transform f before after same l =
    stream_deltas-transform_of (λ a. Unit {0}) f before after (λ a u. same a) l (units l)

-- A text block that starts has no text yet, which its deltas bring.
abbrev pub StartsEmpty : MessagesStreamEvent → Type 0
StartsEmpty (content_block_start index (text t)) = is_empty t ≡ true
StartsEmpty _ = Unit {0}

-- The deltas of the one choice of a chunk.
one_choice : (d : List Delta) → (d ++ []) ++ [] ≡ d
one_choice d = append-nil (d ++ []) ∙ append-nil d

converse_messages_block_lem :
    (index : ℕ) (start : ContentBlockStart)
    → messages_deltas (converse_messages_block index start) ≡ start_deltas start
converse_messages_block_lem index (tool_use_start start) = refl

converse_messages_delta_lem :
    (delta : ContentBlockDelta)
    → content_deltas (converse_messages_delta delta) ≡ piece_deltas delta
converse_messages_delta_lem (ContentBlockDelta.text t) = refl
converse_messages_delta_lem (tool_use_delta d) = refl

module _ (clock : Clock) where
  converse_block_lem :
      (index : ℕ) (start : ContentBlockStart)
      → chat_deltas (converse_block clock index start) ≡ start_deltas start
  unfolding create_openai_chunk
  converse_block_lem index (tool_use_start start) = refl

  converse_delta_lem :
      (index : ℕ) (delta : ContentBlockDelta)
      → chat_deltas (converse_delta clock index delta) ≡ piece_deltas delta
  unfolding create_openai_chunk
  converse_delta_lem index (ContentBlockDelta.text t) = one_choice (said t)
  converse_delta_lem index (tool_use_delta d) = one_choice (argued d.input)

  converse_to_chat_lem :
      (e : ConverseStreamEvent)
      → result_deltas chat_deltas (converse_to_chat clock e) ≡ converse_deltas e
  unfolding converse_to_chat create_openai_chunk create_empty_openai_chunk
  converse_to_chat_lem (ConverseStreamEvent.message_start e) = refl
  converse_to_chat_lem (ConverseStreamEvent.content_block_start e) =
      converse_block_lem e.content_block_index e.start
  converse_to_chat_lem (ConverseStreamEvent.content_block_delta e) =
      converse_delta_lem e.content_block_index e.delta
  converse_to_chat_lem (ConverseStreamEvent.content_block_stop e) = refl
  converse_to_chat_lem (ConverseStreamEvent.message_stop e) = refl
  converse_to_chat_lem (ConverseStreamEvent.metadata e) = refl
  converse_to_chat_lem (ConverseStreamEvent.internal_server_exception e) = refl
  converse_to_chat_lem (ConverseStreamEvent.model_stream_error_exception e) = refl
  converse_to_chat_lem (ConverseStreamEvent.service_unavailable_exception e) = refl
  converse_to_chat_lem (ConverseStreamEvent.throttling_exception e) = refl
  converse_to_chat_lem (ConverseStreamEvent.validation_exception e) = refl

  converse_to_messages_lem :
      (e : ConverseStreamEvent)
      → result_deltas messages_deltas (converse_to_messages clock e) ≡ converse_deltas e
  unfolding converse_to_messages
  converse_to_messages_lem (ConverseStreamEvent.message_start e) = refl
  converse_to_messages_lem (ConverseStreamEvent.content_block_start e) =
      converse_messages_block_lem e.content_block_index e.start
  converse_to_messages_lem (ConverseStreamEvent.content_block_delta e) =
      converse_messages_delta_lem e.delta
  converse_to_messages_lem (ConverseStreamEvent.content_block_stop e) = refl
  converse_to_messages_lem (ConverseStreamEvent.message_stop e) = refl
  converse_to_messages_lem (ConverseStreamEvent.metadata e) = refl
  converse_to_messages_lem (ConverseStreamEvent.internal_server_exception e) = refl
  converse_to_messages_lem (ConverseStreamEvent.model_stream_error_exception e) = refl
  converse_to_messages_lem (ConverseStreamEvent.service_unavailable_exception e) = refl
  converse_to_messages_lem (ConverseStreamEvent.throttling_exception e) = refl
  converse_to_messages_lem (ConverseStreamEvent.validation_exception e) = refl

  pub converse-Agree :
      (l : List ConverseStreamEvent)
      → (stream_deltas chat_deltas (transform (converse_to_chat clock) l)
          ≡ stream_deltas converse_deltas l)
        × (stream_deltas messages_deltas (transform (converse_to_messages clock) l)
            ≡ stream_deltas converse_deltas l)
  converse-Agree l = (
    stream_deltas-transform (converse_to_chat clock) converse_deltas chat_deltas
        converse_to_chat_lem l,
    stream_deltas-transform (converse_to_messages clock) converse_deltas messages_deltas
        converse_to_messages_lem l,
  )
