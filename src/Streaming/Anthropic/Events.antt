-- ===== src/Streaming/Anthropic/Events.antt =====
-- Adding an event to the buffer, and flushing it: the `SseStreamBufferTrait` methods of
-- streaming_shapes/anthropic_streaming_buffer.rs.
use mathlib.Core.Option
use plano.Prelude.{
  ℕ, ltb, true, false, not, ◌&&◌, ◌||◌, Option, none, some, List, [], ◌∷◌, null, String, ◌<>◌,
  if◌then◌else◌,
}
use plano.Streaming.Sse.{
  MessagesUsage, MessagesStreamEvent, message_start, content_block_start, content_block_delta,
  content_block_stop, message_delta, message_stop, ping, ProviderStreamResponseType,
  messages_stream_event, SseEvent, should_skip, Serde, to_wire,
}
use plano.Streaming.Anthropic.{
  AnthropicMessagesStreamBuffer, push_event, create_content_block_start_event,
  create_content_block_stop_event, ensure_message_started, push_synthetic_message_delta,
  push_message_stop, has_content_block_start_been_sent, set_content_block_start_sent,
}

-- The usage of a `MessageDelta` is replaced in the parsed response alone, unless it counts nothing.
abbrev pub merge_usage : MessagesUsage → MessagesStreamEvent → Option MessagesStreamEvent
merge_usage usage (message_delta delta last_usage) = some (
    message_delta delta
      (if ltb 0 usage.input_tokens || ltb 0 usage.output_tokens then usage else last_usage))
merge_usage usage _ = none

abbrev pub merge_response :
    MessagesUsage → Option ProviderStreamResponseType → Option ProviderStreamResponseType
merge_response usage (some (messages_stream_event evt)) =
    Option.map messages_stream_event (merge_usage usage evt)
merge_response usage _ = none

abbrev pub merge_event : MessagesUsage → SseEvent → Option SseEvent
merge_event usage e =
    Option.map (λ r. record e { provider_stream_response = some r })
      (merge_response usage e.provider_stream_response)

-- `self.buffered_events.last_mut()` and the merge: `none` where there is nothing to merge with.
unfoldable pub merge_last : MessagesUsage → List SseEvent → Option (List SseEvent)
merge_last usage [] = none
merge_last usage (e ∷ []) = Option.map (λ e'. e' ∷ []) (merge_event usage e)
merge_last usage (e ∷ f ∷ es) = Option.map (λ es'. e ∷ es') (merge_last usage (f ∷ es))

-- The model is read from the raw data of the first event that names one.
unfoldable pub learn_model :
    Serde → SseEvent → AnthropicMessagesStreamBuffer → AnthropicMessagesStreamBuffer
learn_model serde event b = elim b.model [
  | some m ↦ b
  | none ↦ record b { model = Option.bind event.data_field serde.model_of_json }
]

-- Merge a `MessageDelta` into the last buffered event if that is one too, or push it.
unfoldable pub merge_or_push :
    SseEvent → MessagesUsage → AnthropicMessagesStreamBuffer → AnthropicMessagesStreamBuffer
merge_or_push event usage b = elim (merge_last usage b.buffered_events) [
  | some merged ↦ record b { buffered_events = merged; seen_message_delta = true }
  | none ↦ record (push_event event b) { seen_message_delta = true }
]

module _ (serde : Serde) where
  -- Close an open content block before a message ends.
  unfoldable pub close_content_block : AnthropicMessagesStreamBuffer → AnthropicMessagesStreamBuffer
  close_content_block b =
      if b.needs_content_block_stop
      then record (push_event (create_content_block_stop_event serde) b) {
        needs_content_block_stop = false;
      }
      else b

  unfoldable pub open_content_block :
      ℕ → AnthropicMessagesStreamBuffer → AnthropicMessagesStreamBuffer
  open_content_block index b =
      if has_content_block_start_been_sent index b
      then b
      else record (set_content_block_start_sent index
          (push_event (create_content_block_start_event serde) b)) {
            needs_content_block_stop = true;
          }

  -- An empty block, for a message that never opened one.
  unfoldable pub push_empty_block : AnthropicMessagesStreamBuffer → AnthropicMessagesStreamBuffer
  push_empty_block b =
      if null b.content_block_start_indices
      then push_event (create_content_block_stop_event serde)
          (set_content_block_start_sent 0 (push_event (create_content_block_start_event serde) b))
      else b

  unfoldable pub synthesize_ending : AnthropicMessagesStreamBuffer → AnthropicMessagesStreamBuffer
  synthesize_ending b =
      if b.seen_message_delta then b else push_synthetic_message_delta serde (push_empty_block b)

  -- The cases of `match evt`, for a message that is not closed.
  unfoldable pub handle_event :
      String
      → SseEvent
      → MessagesStreamEvent
      → AnthropicMessagesStreamBuffer
      → AnthropicMessagesStreamBuffer
  handle_event uuid event (message_start m) b = record (push_event event b) {
    message_started = true;
  }
  handle_event uuid event (content_block_start index block) b =
      record (set_content_block_start_sent index
        (push_event event (ensure_message_started serde uuid b))) {
          needs_content_block_stop = true;
        }
  handle_event uuid event (content_block_delta index delta) b =
      push_event event (open_content_block index (ensure_message_started serde uuid b))
  handle_event uuid event (message_delta delta usage) b =
      merge_or_push event usage (close_content_block (ensure_message_started serde uuid b))
  handle_event uuid event (content_block_stop index) b =
      push_event event
        (record (ensure_message_started serde uuid b) { needs_content_block_stop = false })
  handle_event uuid event message_stop b =
      record (push_event event
        (synthesize_ending (close_content_block (ensure_message_started serde uuid b)))) {
          message_stopped = true;
          seen_message_delta = false;
        }
  handle_event uuid event ping b = push_event event b

  abbrev pub dispatch :
      String
      → SseEvent
      → Option ProviderStreamResponseType
      → AnthropicMessagesStreamBuffer
      → AnthropicMessagesStreamBuffer
  dispatch uuid event (some (messages_stream_event evt)) b =
      if b.message_stopped then b else handle_event uuid event evt b
  dispatch uuid event _ b = push_event event b

  -- `uuid` is the identifier that a `message_start` made by this call would carry.
  unfoldable pub add_transformed_event :
      String → SseEvent → AnthropicMessagesStreamBuffer → AnthropicMessagesStreamBuffer
  add_transformed_event uuid event b =
      if should_skip event
      then b
      else dispatch uuid event event.provider_stream_response (learn_model serde event b)

  -- What a flush does before it drains the buffer.
  unfoldable pub finalize : AnthropicMessagesStreamBuffer → AnthropicMessagesStreamBuffer
  finalize b =
      if b.seen_message_delta && not b.message_stopped then push_message_stop serde b else b

-- The drain loop of `to_bytes`.
unfoldable pub drain : List SseEvent → String
drain [] = ""
drain (e ∷ es) = to_wire e <> drain es

unfoldable pub to_bytes :
    Serde → AnthropicMessagesStreamBuffer → String × AnthropicMessagesStreamBuffer
to_bytes serde b =
    let b' = finalize serde b in (drain b'.buffered_events, record b' { buffered_events = [] })
