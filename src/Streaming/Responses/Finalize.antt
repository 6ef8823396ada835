-- ===== src/Streaming/Responses/Finalize.antt =====
-- Ending a response: `finalize` of responses_api_streaming_buffer.rs.
use plano.Prelude.{
  ℕ, zero, suc, ◌+◌, max, true, Option, none, some, List, [], ◌∷◌, ◌++◌, map, String, ◌<>◌, str_eq,
  get, number_key, string_key, if◌then◌else◌,
}
use plano.State.Outputs.{
  OutputItem, OutputItemStatus, output_message, output_function_call, output_text,
}
use plano.Streaming.ResponsesApi.{
  ResponseStatus, ResponsesApiResponse, response_completed, response_output_item_done,
  response_output_text_done, response_function_call_arguments_done,
}
use plano.Streaming.Responses.{
  Outside, ResponsesApiStreamBuffer, Work, emit, emit_prelude, build_response, or_default,
  event_to_sse,
}

-- `output_items_added.iter().find(…)`, which has one index at most for an identifier.
unfoldable pub index_of : List (ℕ × String) → String → ℕ
index_of [] item_id = 0
index_of ((index, id) ∷ added) item_id = if str_eq id item_id then index else index_of added item_id

abbrev pub done_text_item : String → OutputItem
done_text_item item_id = output_message item_id OutputItemStatus.completed "assistant" []

abbrev pub done_call_item : String → String × String → String → OutputItem
done_call_item item_id (call_id, name) arguments =
    output_function_call item_id OutputItemStatus.completed call_id (some name) (some arguments)

module _ (o : Outside) where
  unfoldable pub text_done : List (String × String) → Work → Work
  text_done [] w = w
  text_done ((item_id, content) ∷ items) w =
      let output_index = index_of w.buffer.output_items_added item_id in
      let w1 = emit (response_output_text_done item_id output_index 0 content []) w in
      text_done items (emit (response_output_item_done output_index (done_text_item item_id)) w1)

  unfoldable pub arguments_done : List (String × String) → Work → Work
  arguments_done [] w = w
  arguments_done ((item_id, arguments) ∷ items) w =
      let output_index = index_of w.buffer.output_items_added item_id in
      let w1 = emit (response_function_call_arguments_done output_index item_id arguments) w in
      let call =
        or_default (get w1.buffer.tool_call_metadata output_index)
          ("call_" <> o.done_call_uuid item_id, "unknown") in
      arguments_done items
        (emit (response_output_item_done output_index (done_call_item item_id call arguments)) w1)

  -- The item of an index: a call if it has arguments, or else a message if it has text.
  abbrev pub message_output : String → Option String → List OutputItem
  message_output item_id none = []
  message_output item_id (some t) =
      output_message item_id OutputItemStatus.completed "assistant" (output_text t [] none ∷ [])
      ∷ []

  abbrev pub item_output : ResponsesApiStreamBuffer → ℕ → String → Option String → List OutputItem
  item_output b output_index item_id (some arguments) =
      done_call_item item_id
        (or_default (get b.tool_call_metadata output_index)
          ("call_" <> o.output_call_uuid output_index, "unknown"))
        arguments
      ∷ []
  item_output b output_index item_id none = message_output item_id (get b.text_content item_id)

  abbrev pub index_output : ResponsesApiStreamBuffer → ℕ → Option String → List OutputItem
  index_output b output_index none = []
  index_output b output_index (some item_id) =
      item_output b output_index item_id (get b.function_arguments item_id)

  -- The loop from an index on, by the indices that are left.
  unfoldable pub outputs_from : ResponsesApiStreamBuffer → ℕ → ℕ → List OutputItem
  outputs_from b output_index zero = []
  outputs_from b output_index (suc left) =
      index_output b output_index (get b.output_items_added output_index)
      ++ outputs_from b (output_index + 1) left

  -- The number of indices up to the largest that was added.
  unfoldable pub index_count : List (ℕ × String) → ℕ
  index_count [] = 0
  index_count ((output_index, id) ∷ added) = max (output_index + 1) (index_count added)

  unfoldable pub output_items : ResponsesApiStreamBuffer → List OutputItem
  output_items b = outputs_from b 0 (index_count b.output_items_added)

  unfoldable pub final_response : ResponsesApiStreamBuffer → ResponsesApiResponse
  final_response b = record (build_response ResponseStatus.completed b) { output = output_items b }

  unfoldable pub emit_completed : Work → Work
  emit_completed w =
      let response = final_response w.buffer in
      emit (response_completed response)
        (record w { buffer = record w.buffer { completed_response = some response } })

  abbrev pub walk_text : Work → Work
  walk_text w = text_done (o.walk w.buffer.text_content) w

  abbrev pub walk_arguments : Work → Work
  walk_arguments w = arguments_done (o.walk w.buffer.function_arguments) w

  -- The events of an end, for a response that is not finalized.
  unfoldable pub finalize_work : Work → Work
  finalize_work w = emit_completed (walk_arguments (walk_text (emit_prelude o w)))

  unfoldable pub extend : Work → ResponsesApiStreamBuffer
  extend w = record w.buffer {
    buffered_events = w.buffer.buffered_events ++ map (event_to_sse o.to_json) w.events;
  }

  abbrev pub begin : ResponsesApiStreamBuffer → Work
  begin b = record { buffer = b; events = [] }

  unfoldable pub finalized_work : ResponsesApiStreamBuffer → Work
  finalized_work b =
      if b.finalized then begin b else finalize_work (begin (record b { finalized = true }))

  unfoldable pub finalize : ResponsesApiStreamBuffer → ResponsesApiStreamBuffer
  finalize b = extend (finalized_work b)
