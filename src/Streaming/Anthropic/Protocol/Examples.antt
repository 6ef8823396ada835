-- ===== src/Streaming/Anthropic/Protocol/Examples.antt =====
-- The protocol's theorems at concrete streams.
use mathlib.Core.Option
use plano.Prelude.{true, false, none, some, List, [], ◌∷◌, ◌++◌, ◌≡◌, refl, any, all}
use plano.Streaming.Sse.{
  MessagesUsage, MessagesMessageDelta, end_turn, text_delta, MessagesStreamEvent,
  content_block_delta, message_delta, message_stop, messages_stream_event, SseEvent, should_skip,
  Serde, to_sse_string,
}
use plano.Streaming.Anthropic.{
  AnthropicMessagesStreamBuffer, new, create_content_block_start_event,
  has_content_block_start_been_sent, set_content_block_start_sent, ensure_message_started,
  push_synthetic_message_delta, create_content_block_stop_event, create_message_start_event,
  push_message_stop,
}
use plano.Streaming.Anthropic.Events.{
  add_transformed_event, finalize, to_bytes, learn_model, handle_event, open_content_block,
  close_content_block, synthesize_ending, push_empty_block, merge_or_push,
}
use plano.Streaming.Anthropic.Protocol.{
  Kind, start, block_start, block_delta, block_stop, delta, stop, accepts, phase, kind, kinds, Run,
  begin, add, flush,
}
use plano.Streaming.Anthropic.Protocol.Ending.{is_start, is_delta, is_other, stop-Run}
use plano.Streaming.Anthropic.Protocol.Starts.{is_block_start}
use plano.Streaming.Anthropic.Protocol.Blocks.{block_delta-Run}

-- A printer that writes no JSON, and a reader that finds no model.
abbrev serde : Serde
serde = record { to_json = λ evt. "{}"; model_of_json = λ s. none }

abbrev translated : MessagesStreamEvent → SseEvent
translated evt = record {
  data_field = some "{}";
  event = none;
  raw_line = "data: {}";
  sse_transformed_lines = to_sse_string serde evt;
  provider_stream_response = some (messages_stream_event evt);
}

abbrev usage_of : Unit {0} → MessagesUsage
usage_of _ = record {
  input_tokens = 3;
  output_tokens = 5;
  cache_creation_input_tokens = none;
  cache_read_input_tokens = none;
}

abbrev turn_end : MessagesMessageDelta
turn_end = record { stop_reason = end_turn; stop_sequence = none }

abbrev hello : SseEvent
hello = translated (content_block_delta 0 (text_delta "hi"))

abbrev done : SseEvent
done = translated message_stop

abbrev finish : SseEvent
finish = translated (message_delta turn_end (usage_of tt))

-- One chunk of text, flushed, and then the end of the stream.
abbrev two_chunks : AnthropicMessagesStreamBuffer
two_chunks =
    add_transformed_event serde "u2" done
      (to_bytes serde (add_transformed_event serde "u1" hello new)).1

abbrev first_chunk : List Kind
first_chunk = start ∷ block_start ∷ block_delta ∷ []

two_chunks-Run :
    Run serde
      ([] ++ kinds (finalize serde (add_transformed_event serde "u1" hello new)).buffered_events)
      two_chunks
two_chunks-Run =
    add "u2" done (messages_stream_event message_stop, refl)
      (flush (
        add "u1" hello (messages_stream_event (content_block_delta 0 (text_delta "hi")), refl)
          begin))

streaming : Unit {0}
unfolding Option.bind new phase kinds kind accepts should_skip has_content_block_start_been_sent
    set_content_block_start_sent ensure_message_started push_synthetic_message_delta
    create_content_block_stop_event create_content_block_start_event create_message_start_event
    add_transformed_event finalize to_bytes push_message_stop learn_model handle_event
    open_content_block close_content_block synthesize_ending push_empty_block merge_or_push
streaming = tt

two_chunks_kinds : kinds two_chunks.buffered_events ≡ block_stop ∷ delta ∷ stop ∷ []
unfolding streaming
two_chunks_kinds = refl

stop-Run_example :
    (any is_start (start ∷ block_start ∷ block_delta ∷ block_stop ∷ delta ∷ []) ≡ true)
    × (any is_delta (start ∷ block_start ∷ block_delta ∷ block_stop ∷ delta ∷ []) ≡ true)
    × (all is_other [] ≡ true)
unfolding streaming
stop-Run_example =
    stop-Run serde
      ([] ++ kinds (finalize serde (add_transformed_event serde "u1" hello new)).buffered_events)
      (start ∷ block_start ∷ block_delta ∷ block_stop ∷ delta ∷ []) [] two_chunks two_chunks-Run
      refl

block_delta-Run_example : any is_block_start (start ∷ block_start ∷ []) ≡ true
unfolding streaming
block_delta-Run_example =
    block_delta-Run serde
      ([] ++ kinds (finalize serde (add_transformed_event serde "u1" hello new)).buffered_events)
      (start ∷ block_start ∷ []) (block_stop ∷ delta ∷ stop ∷ []) two_chunks two_chunks-Run refl

abbrev started : AnthropicMessagesStreamBuffer
started = add_transformed_event serde "u1" hello new

-- A buffer whose last event is a `message_delta`.
abbrev finished : AnthropicMessagesStreamBuffer
finished = record {
  buffered_events = finish ∷ [];
  message_started = true;
  message_stopped = false;
  content_block_start_indices = 0 ∷ [];
  needs_content_block_stop = false;
  seen_message_delta = true;
  model = none;
}

abbrev late_delta : SseEvent
late_delta = translated (content_block_delta 2 (text_delta "hi"))
