-- ===== src/Streaming/Responses/Examples.antt =====
-- The buffer of the Responses API at concrete streams.
use plano.Prelude.{◌<>◌, get, string_key, none, some, ◌++◌, map, List, [], ◌∷◌, ◌≡◌, refl}
use plano.Streaming.Chat.{FinishReason, ChatCompletionsStreamResponse}
use plano.Streaming.Sse.{SseEvent, response_api_stream_event}
use plano.Streaming.ResponsesApi.{ResponsesApiStreamEvent, done}
use plano.Streaming.Transforms.ToChat.{
  create_openai_chunk, content_delta, tool_delta, call_start, stream_chunk,
}
use plano.Streaming.Transforms.ToResponses.{text_event}
use plano.Streaming.Transforms.Deltas.Examples.{noon}
use plano.Streaming.Responses.{Outside, ResponsesApiStreamBuffer, new, event_to_sse}
use plano.Streaming.Responses.Events.{add_transformed_event, process, to_bytes}
use plano.Streaming.Responses.Lifecycle.{Stream}
use plano.Streaming.Responses.Runs.{
  Run, start, add, flush, text, ending, bytes, Run-Stream, Run-sent,
}
use plano.Streaming.Responses.Contents.{text_of, arguments_of}
use plano.Streaming.Responses.Contents.Kept.{Run-kept}

abbrev outside : Outside
outside = record {
  now = 1700000000;
  response_uuid = "r";
  item_uuid = "i";
  added_call_uuid = "c1";
  done_call_uuid = λ id. "c2";
  output_call_uuid = λ i. "c3";
  walk = λ l. l;
  to_json = λ e. "{}";
}

abbrev carried : ResponsesApiStreamEvent → SseEvent
carried e = record {
  data_field = some "{}";
  event = none;
  raw_line = "data: {}";
  sse_transformed_lines = "data: {}";
  provider_stream_response = some (response_api_stream_event e);
}

-- A text, a flush, and the end.
abbrev after_text : ResponsesApiStreamBuffer
after_text = add_transformed_event outside (carried (text_event 0 "Hello")) new

abbrev flushed : ResponsesApiStreamBuffer
flushed = (to_bytes after_text).1

abbrev ended : ResponsesApiStreamBuffer
ended = add_transformed_event outside (carried (done 0)) flushed

abbrev text_made : List ResponsesApiStreamEvent
text_made = (process outside (carried (text_event 0 "Hello")) new).events

abbrev end_made : List ResponsesApiStreamEvent
end_made = (process outside (carried (done 0)) flushed).events

text_then_end :
    Run (λ e. "{}") ended ("" <> (to_bytes after_text).0) (([] ++ text_made) ++ end_made)
text_then_end =
    add (flush (add start outside _ _ refl refl (text "" 0 0 "Hello" [] none 0))) outside _ _ refl
      refl (ending 0)

Run-Stream_example :
    Stream ended.sequence_number ended.created_emitted ended.finalized
      (([] ++ text_made) ++ end_made)
Run-Stream_example = Run-Stream text_then_end

Run-sent_example :
    ("" <> (to_bytes after_text).0) <> bytes ended.buffered_events
    ≡ bytes (map (event_to_sse (λ e. "{}")) (([] ++ text_made) ++ end_made))
Run-sent_example = Run-sent text_then_end

abbrev chat_stream : List ChatCompletionsStreamResponse
chat_stream =
    stream_chunk noon (content_delta "Let me look.")
    ∷ create_openai_chunk noon "id" "gpt" (tool_delta (call_start 0 "t1" "search"))
        (some FinishReason.tool_calls) none
    ∷ []

Run-kept_example :
    (get ended.text_content "msg_i" ≡ text_of "msg_i" (([] ++ text_made) ++ end_made))
    × (get ended.function_arguments "msg_i" ≡ arguments_of "msg_i" (([] ++ text_made) ++ end_made))
Run-kept_example = Run-kept text_then_end "msg_i"
