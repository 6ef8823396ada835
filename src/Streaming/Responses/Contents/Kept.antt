-- ===== src/Streaming/Responses/Contents/Kept.antt =====
-- Every run of the buffer keeps of each item what its deltas said.
use plano.Prelude.{
  ℕ, true, Option, none, some, List, [], ◌∷◌, append-nil, String, ◌≡◌, refl, sym, ap, ◌∙◌,
  Bool-cases, Option-cases, inl, inr, get, string_key, number_key,
}
use plano.State.Outputs.{OutputItem}
use plano.Streaming.ResponsesApi.{ResponsesApiStreamEvent}
use plano.Streaming.Sse.{response_api_stream_event, SseEvent, is_done, should_skip}
use plano.Streaming.Responses.{
  Outside, ResponsesApiStreamBuffer, Work, new, with_identity, emit_created, emit_in_progress,
  emit_prelude, get_or_create_item_id, with_metadata, add_item, on_text_delta, on_arguments_delta,
}
use plano.Streaming.Responses.Finalize.{
  begin, extend, text_done, arguments_done, emit_completed, finalize_work, finalized_work,
}
use plano.Streaming.Responses.Events.{handle_event, process, add_transformed_event, to_bytes}
use plano.Streaming.Responses.Runs.{IsTranslated, text, arguments, ending, Run, start, add, flush}
use plano.Streaming.Responses.Contents.{
  Hears, with_buffer-Hears, emit-Hears, emit_text-Hears, emit_arguments-Hears, text_of,
  arguments_of,
}

-- The contents of two buffers are the same.
abbrev IsAlike : ResponsesApiStreamBuffer → ResponsesApiStreamBuffer → Type 0
IsAlike b b' = (b'.text_content ≡ b.text_content) × (b'.function_arguments ≡ b.function_arguments)

module _ (o : Outside) where
  with_identity-IsAlike :
      (id : Option String) (b : ResponsesApiStreamBuffer) → IsAlike b (with_identity o id b)
  with_identity-IsAlike none b = (refl, refl)
  with_identity-IsAlike (some id) b = (refl, refl)

  get_or_create_item_id-IsAlike :
      (output_index : ℕ) (prefix : String) (b : ResponsesApiStreamBuffer)
      → IsAlike b (get_or_create_item_id o output_index prefix b)
  unfolding get_or_create_item_id
  get_or_create_item_id-IsAlike output_index prefix b =
      elim (Option-cases (get b.item_ids output_index)) [
        | inl e ↦ rw e (refl, refl)
        | inr (id, e) ↦ rw e (refl, refl)
      ]

  with_metadata-IsAlike :
      (call_id name : Option String) (output_index : ℕ) (b : ResponsesApiStreamBuffer)
      → IsAlike b (with_metadata o call_id name output_index b)
  with_metadata-IsAlike (some c) (some n) output_index b = (refl, refl)
  with_metadata-IsAlike (some c) none output_index b = (refl, refl)
  with_metadata-IsAlike none name output_index b = (refl, refl)

  module _ {before : List ResponsesApiStreamEvent} where
    emit_created-Hears : (w : Work) → Hears before w → Hears before (emit_created o w)
    unfolding emit_created
    emit_created-Hears w h = elim (Bool-cases w.buffer.created_emitted) [
      | inl old ↦ simp old h
      | inr fresh ↦ simp fresh (
          with_buffer-Hears _ _ (refl, refl)
            (emit-Hears _ _ (λ n id heard. (refl, refl))
              (with_buffer-Hears w _ (with_identity-IsAlike w.buffer.response_id w.buffer) h)))
    ]

    emit_in_progress-Hears : (w : Work) → Hears before w → Hears before (emit_in_progress o w)
    unfolding emit_in_progress
    emit_in_progress-Hears w h = elim (Bool-cases w.buffer.in_progress_emitted) [
      | inl old ↦ simp old h
      | inr fresh ↦
          simp fresh
            (with_buffer-Hears _ _ (refl, refl) (emit-Hears _ w (λ n id heard. (refl, refl)) h))
    ]

    emit_prelude-Hears : (w : Work) → Hears before w → Hears before (emit_prelude o w)
    unfolding emit_prelude
    emit_prelude-Hears w h = emit_in_progress-Hears _ (emit_created-Hears w h)

    add_item-Hears :
        (old : Option String) (output_index : ℕ) (item_id : String) (item : OutputItem) (w : Work)
        → Hears before w
        → Hears before (add_item o old output_index item_id item w)
    add_item-Hears (some old) output_index item_id item w h = h
    add_item-Hears none output_index item_id item w h =
        emit-Hears _ _ (λ n id heard. (refl, refl)) (with_buffer-Hears w _ (refl, refl) h)

    text_done-Hears :
        (items : List (String × String)) (w : Work)
        → Hears before w
        → Hears before (text_done o items w)
    unfolding text_done
    text_done-Hears [] w h = h
    text_done-Hears ((item_id, content) ∷ items) w h = text_done-Hears items _ (
        emit-Hears _ _ (λ n id heard. (refl, refl)) (emit-Hears _ w (λ n id heard. (refl, refl)) h))

    arguments_done-Hears :
        (items : List (String × String)) (w : Work)
        → Hears before w
        → Hears before (arguments_done o items w)
    unfolding arguments_done
    arguments_done-Hears [] w h = h
    arguments_done-Hears ((item_id, content) ∷ items) w h = arguments_done-Hears items _ (
        emit-Hears _ _ (λ n id heard. (refl, refl)) (emit-Hears _ w (λ n id heard. (refl, refl)) h))

    finalized_work-Hears :
        (b : ResponsesApiStreamBuffer)
        → Hears before (begin o b)
        → Hears before (finalized_work o b)
    unfolding finalized_work finalize_work emit_completed
    finalized_work-Hears b h = elim (Bool-cases b.finalized) [
      | inl old ↦ simp old h
      | inr fresh ↦ simp fresh (
          emit-Hears _ _ (λ n id heard. (refl, refl))
            (with_buffer-Hears _ _ (refl, refl)
              (arguments_done-Hears _ _ (
                text_done-Hears _ _ (
                  emit_prelude-Hears (begin o (record b { finalized = true }))
                    (with_buffer-Hears (begin o b) _ (refl, refl) h))))))
    ]

    handle_event-Hears :
        (b : ResponsesApiStreamBuffer) {event : ResponsesApiStreamEvent}
        → IsTranslated event
        → Hears before (begin o b)
        → Hears before (handle_event o event b)
    unfolding handle_event on_text_delta on_arguments_delta
    handle_event-Hears b (text id i c d l f n) h = emit_text-Hears _ d i c l f _ (
        add_item-Hears _ i _ _ _ (
          with_buffer-Hears (emit_prelude o (begin o b)) _ (get_or_create_item_id-IsAlike i "msg" _)
            (emit_prelude-Hears (begin o b) h)))
    handle_event-Hears b (arguments i id d n call_id name) h =
        emit_arguments-Hears _ d i call_id name _ (
          add_item-Hears _ i _ _ _ (
            with_buffer-Hears
              (record (emit_prelude o (begin o b)) {
                buffer = get_or_create_item_id o i "fc" (emit_prelude o (begin o b)).buffer;
              })
              _ (with_metadata-IsAlike call_id name i _)
              (with_buffer-Hears (emit_prelude o (begin o b)) _
                (get_or_create_item_id-IsAlike i "fc" _) (emit_prelude-Hears (begin o b) h))))
    handle_event-Hears b (ending n) h = finalized_work-Hears b h

    process-Hears :
        (b : ResponsesApiStreamBuffer) (event : SseEvent) {translated : ResponsesApiStreamEvent}
        → event.provider_stream_response ≡ some (response_api_stream_event translated)
        → IsTranslated translated
        → Hears before (begin o b)
        → Hears before (process o event b)
    unfolding process
    process-Hears b event carries t h = elim (Bool-cases (should_skip event)) [
      | inl skip ↦ rw skip h
      | inr keep ↦ elim (Bool-cases (is_done event)) [
        | inl last ↦ rw (keep, last) (finalized_work-Hears b h)
        | inr more ↦ rw (keep, more) (simp carries (handle_event-Hears b t h))
      ]
    ]

module _ {to_json : ResponsesApiStreamEvent → String} where
  -- In every run, what the buffer keeps of an item is the text of the item's text deltas, joined in
  -- the order in which they were made, and likewise the arguments of its argument deltas; nothing is
  -- kept of an item that had none.
  pub Run-kept :
      {b : ResponsesApiStreamBuffer} {sent : String} {made : List ResponsesApiStreamEvent}
      → Run to_json b sent made
      → (id : String)
      → (get b.text_content id ≡ text_of id made)
        × (get b.function_arguments id ≡ arguments_of id made)
  unfolding new add_transformed_event to_bytes extend get
  Run-kept start id = (refl, refl)
  Run-kept (add {b} {sent} {made} r o event translated same carries t) id =
      let h = process-Hears o {before = made} b event carries t (record {
        texts = λ id. (Run-kept r id).0 ∙ ap (text_of id) (sym (append-nil made));
        calls = λ id. (Run-kept r id).1 ∙ ap (arguments_of id) (sym (append-nil made));
      }) in
      (h.texts id, h.calls id)
  Run-kept (flush r) id = Run-kept r id
