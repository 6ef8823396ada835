-- ===== src/Streaming/Responses/Delivery.antt =====
-- What the buffer makes of a translated stream says what the stream says.
pub mod Translated
pub mod Chain
pub mod Bedrock
use plano.Prelude.{
  ℕ, Bool, true, false, Option, none, some, List, [], ◌∷◌, ◌++◌, append-nil, append_assoc, String,
  ◌≡◌, refl, ap, sym, ◌∙◌, Bool-cases, inl, inr, is_empty, if◌then◌else◌, get, number_key,
  string_key,
}
use plano.State.{Result, ok, err}
use plano.Streaming.Chat.{
  Role, FinishReason, FunctionCallDelta, ToolCallDelta, StreamChoice, ChatCompletionsStreamResponse,
}
use plano.Streaming.Converse.{
  ConverseStreamEvent, ContentBlockStart, ContentBlockDelta, tool_use_start, tool_use_delta,
}
use plano.State.Outputs.{OutputItem}
use plano.Streaming.ResponsesApi.{ResponsesApiStreamEvent}
use plano.Streaming.Transforms.{TransformError, Clock}
use plano.Streaming.Transforms.ToChat.{
  create_openai_chunk, create_empty_openai_chunk, converse_to_chat, converse_block, converse_delta,
}
use plano.Streaming.Transforms.ToResponses.{
  chat_to_responses, choices_event, call_event, call_function_event, function_event, content_event,
  finish_event, role_event, first_of,
}
use plano.Streaming.Transforms.Deltas.{
  Delta, stream_deltas, said, argued, called, responses_deltas, converse_deltas, start_deltas,
  piece_deltas, transformed, transform, result_deltas,
}
use plano.Streaming.Transforms.Deltas.Agreement.{stream_deltas-transform}
use plano.Streaming.Responses.{
  Outside, ResponsesApiStreamBuffer, Work, emit, emit_created, emit_in_progress, emit_prelude,
  add_item, on_text_delta, on_arguments_delta,
}
use plano.Streaming.Responses.Finalize.{
  begin, extend, finalized_work, finalize_work, emit_completed, text_done, arguments_done,
}
use plano.Streaming.Responses.Events.{handle_event}
use plano.Streaming.Responses.Runs.{IsTranslated, text, arguments, ending}

abbrev said_of : Work → List Delta
said_of w = stream_deltas responses_deltas w.events

stream_deltas-append :
    {A : Type 0} (f : A → List Delta) (l m : List A)
    → stream_deltas f (l ++ m) ≡ stream_deltas f l ++ stream_deltas f m
stream_deltas-append f [] m = refl
stream_deltas-append f (a ∷ l) m =
    ap (λ d. f a ++ d) (stream_deltas-append f l m)
    ∙ sym (append_assoc (f a) (stream_deltas f l) (stream_deltas f m))

emit_lem :
    (event : ℕ → ResponsesApiStreamEvent) (w : Work)
    → said_of (emit event w)
      ≡ said_of w ++ (responses_deltas (event w.buffer.sequence_number) ++ [])
unfolding emit
emit_lem event w =
    stream_deltas-append responses_deltas w.events (event w.buffer.sequence_number ∷ [])

-- An event that says nothing.
emit-silent :
    (event : ℕ → ResponsesApiStreamEvent) (w : Work)
    → responses_deltas (event w.buffer.sequence_number) ≡ []
    → said_of (emit event w) ≡ said_of w
emit-silent event w silent =
    emit_lem event w ∙ ap (λ d. said_of w ++ (d ++ [])) silent ∙ append-nil (said_of w)

-- What the events of a method's work say.
record Says (d : List Delta) (w : Work) : Type 0 where
  same : said_of w ≡ d

with_buffer-Says :
    {d : List Delta} (w : Work) (b : ResponsesApiStreamBuffer)
    → Says d w
    → Says d (record w { buffer = b })
with_buffer-Says w b s = record { same = s.same }

emit-Says :
    {d : List Delta} (more : List Delta) (event : ℕ → ResponsesApiStreamEvent) (w : Work)
    → ((n : ℕ) → responses_deltas (event n) ≡ more)
    → Says d w
    → Says (d ++ (more ++ [])) (emit event w)
emit-Says {d} more event w is s = record {
  same =
      emit_lem event w
      ∙ ap (λ l. l ++ (responses_deltas (event w.buffer.sequence_number) ++ [])) s.same
      ∙ ap (λ l. d ++ (l ++ [])) (is w.buffer.sequence_number);
}

-- The events of a translated stream.
pub data AreTranslated : List ResponsesApiStreamEvent → Type 0 where
  nothing : AreTranslated []
  first :
      {e : ResponsesApiStreamEvent} {l : List ResponsesApiStreamEvent}
      → IsTranslated e
      → AreTranslated l
      → AreTranslated (e ∷ l)

module _ (o : Outside) where
  emit_created-silent : (w : Work) → said_of (emit_created o w) ≡ said_of w
  unfolding emit_created
  emit_created-silent w = elim (Bool-cases w.buffer.created_emitted) [
    | inl old ↦ rw old refl
    | inr new ↦ rw new (emit-silent _ _ refl)
  ]

  emit_in_progress-silent : (w : Work) → said_of (emit_in_progress o w) ≡ said_of w
  unfolding emit_in_progress
  emit_in_progress-silent w = elim (Bool-cases w.buffer.in_progress_emitted) [
    | inl old ↦ rw old refl
    | inr new ↦ rw new (emit-silent _ _ refl)
  ]

  emit_prelude-silent : (w : Work) → said_of (emit_prelude o w) ≡ said_of w
  unfolding emit_prelude
  emit_prelude-silent w = emit_in_progress-silent (emit_created o w) ∙ emit_created-silent w

  text_done-silent : (l : List (String × String)) (w : Work) → said_of (text_done o l w) ≡ said_of w
  unfolding text_done
  text_done-silent [] w = refl
  text_done-silent ((item_id, content) ∷ items) w =
      text_done-silent items _ ∙ emit-silent _ _ refl ∙ emit-silent _ _ refl

  arguments_done-silent :
      (l : List (String × String)) (w : Work) → said_of (arguments_done o l w) ≡ said_of w
  unfolding arguments_done
  arguments_done-silent [] w = refl
  arguments_done-silent ((item_id, content) ∷ items) w =
      arguments_done-silent items _ ∙ emit-silent _ _ refl ∙ emit-silent _ _ refl

  finalized_work-silent : (b : ResponsesApiStreamBuffer) → said_of (finalized_work o b) ≡ []
  unfolding finalized_work finalize_work emit_completed
  finalized_work-silent b = elim (Bool-cases b.finalized) [
    | inl old ↦ rw old refl
    | inr new ↦ rw new (
        emit-silent _ _ refl
        ∙ arguments_done-silent _ _
        ∙ text_done-silent _ _
        ∙ emit_prelude-silent (begin o (record b { finalized = true })))
  ]

  add_item-Says :
      {d : List Delta} (old : Option String) (output_index : ℕ) (item_id : String)
      (item : OutputItem) (w : Work)
      → Says d w
      → Says d (add_item o old output_index item_id item w)
  add_item-Says none output_index item_id item w s = record { same = emit-silent _ _ refl ∙ s.same }
  add_item-Says (some id) output_index item_id item w s = s

  opened-Says : (b : ResponsesApiStreamBuffer) → Says [] (emit_prelude o (begin o b))
  opened-Says b = record { same = emit_prelude-silent (begin o b) }

  handle_event_lem :
      (b : ResponsesApiStreamBuffer) {e : ResponsesApiStreamEvent}
      → IsTranslated e
      → said_of (handle_event o e b) ≡ responses_deltas e
  unfolding handle_event on_text_delta on_arguments_delta
  handle_event_lem b (text id i c d l f n) =
      (emit-Says _ _ _ (λ n. refl)
        (with_buffer-Says _ _ (
          add_item-Says _ i _ _ _
            (with_buffer-Says (emit_prelude o (begin o b)) _ (opened-Says b))))).same
      ∙ append-nil (said d)
  handle_event_lem b (arguments i id d n call_id name) =
      (emit-Says _ _ _ (λ n. refl)
        (with_buffer-Says _ _ (
          add_item-Says _ i _ _ _
            (with_buffer-Says (emit_prelude o (begin o b)) _ (opened-Says b))))).same
      ∙ append-nil (called call_id name ++ argued d)
  handle_event_lem b (ending n) = finalized_work-silent b

  -- Events handed to the buffer one after another: what it makes of them.
  unfoldable pub handle_events :
      List ResponsesApiStreamEvent → ResponsesApiStreamBuffer → List ResponsesApiStreamEvent
  handle_events [] b = []
  handle_events (e ∷ l) b = let w = handle_event o e b in w.events ++ handle_events l (extend o w)

  handle_events_lem :
      {l : List ResponsesApiStreamEvent} (b : ResponsesApiStreamBuffer)
      → AreTranslated l
      → stream_deltas responses_deltas (handle_events l b) ≡ stream_deltas responses_deltas l
  unfolding handle_events
  handle_events_lem b nothing = refl
  handle_events_lem b (first {e} {l} t rest) =
      stream_deltas-append responses_deltas (handle_event o e b).events
        (handle_events l (extend o (handle_event o e b)))
      ∙ ap
          (λ d.
            d ++ stream_deltas responses_deltas (handle_events l (extend o (handle_event o e b))))
          (handle_event_lem b t)
      ∙ ap (λ d. responses_deltas e ++ d) (handle_events_lem (extend o (handle_event o e b)) rest)
