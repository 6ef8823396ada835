-- ===== src/Streaming/Responses/Events.antt =====
-- Adding an event to the buffer of Responses API streams, and flushing it.
use plano.Prelude.{Option, none, some, [], ◌∷◌, ◌++◌, String, if◌then◌else◌}
use plano.Streaming.ResponsesApi.{
  ResponsesApiResponse, ResponsesApiStreamEvent, response_created, response_in_progress,
  response_output_text_delta, response_function_call_arguments_delta, done,
}
use plano.Streaming.Sse.{
  ProviderStreamResponseType, response_api_stream_event, SseEvent, is_done, should_skip,
}
use plano.Streaming.Anthropic.Events.{drain}
use plano.Streaming.Responses.{
  Outside, ResponsesApiStreamBuffer, Work, emit_prelude, on_text_delta, on_arguments_delta,
}
use plano.Streaming.Responses.Finalize.{begin, finalized_work, extend}

abbrev pub with_upstream :
    Option ResponsesApiResponse
    → ResponsesApiResponse
    → ResponsesApiStreamBuffer
    → ResponsesApiStreamBuffer
with_upstream (some old) response b = b
with_upstream none response b = record b {
  upstream_response_metadata = some response;
  response_id = some response.id;
  model = some response.model;
  created_at = some response.created_at;
}

-- An event that passes through keeps its own number.
abbrev pub pass_through : ResponsesApiStreamEvent → Work → Work
pass_through event w = record w { events = w.events ++ event ∷ [] }

module _ (o : Outside) where
  -- What a parsed event does.
  unfoldable pub handle_event : ResponsesApiStreamEvent → ResponsesApiStreamBuffer → Work
  handle_event (done n) b = finalized_work o b
  handle_event (response_created response n) b =
      begin o (with_upstream b.upstream_response_metadata response b)
  handle_event (response_in_progress response n) b =
      begin o (with_upstream b.upstream_response_metadata response b)
  handle_event
        (response_output_text_delta id output_index content_index delta logprobs obfuscation n) b =
      on_text_delta o output_index content_index delta logprobs obfuscation
        (emit_prelude o (begin o b))
  handle_event (response_function_call_arguments_delta output_index id delta n call_id name) b =
      on_arguments_delta o output_index delta call_id name (emit_prelude o (begin o b))
  handle_event event b = pass_through event (emit_prelude o (begin o b))

  abbrev pub handle_response : Option ProviderStreamResponseType → ResponsesApiStreamBuffer → Work
  handle_response (some (response_api_stream_event evt)) b = handle_event evt b
  handle_response _ b = begin o b

  -- The buffer after an event, and the events that it makes.
  unfoldable pub process : SseEvent → ResponsesApiStreamBuffer → Work
  process event b =
      if should_skip event
      then begin o b
      else if is_done event
      then finalized_work o b
      else handle_response event.provider_stream_response b

  unfoldable pub add_transformed_event :
      SseEvent → ResponsesApiStreamBuffer → ResponsesApiStreamBuffer
  add_transformed_event event b = extend o (process event b)

unfoldable pub to_bytes : ResponsesApiStreamBuffer → String × ResponsesApiStreamBuffer
to_bytes b = (drain b.buffered_events, record b { buffered_events = [] })
