-- ===== src/Streaming/Anthropic/Protocol/Wire.antt =====
-- What a client receives for the events that the buffer merges or puts in front of others.
use mathlib.Core.Option
use package.text.Mathlib.TextLemmas
use plano.Prelude.{
  ℕ, true, false, some, List, [], ◌∷◌, ◌++◌, ◌≡◌, refl, String, arith, ap, ◌<>◌, append_assoc,
  Option-cases, inl, inr,
}
use plano.Streaming.Sse.{
  MessagesUsage, MessagesMessageDelta, MessagesContentDelta, SseEvent, Serde, text,
  content_block_start, content_block_delta, message_delta, messages_stream_event, should_skip,
  to_sse_string, to_wire,
}
use plano.Streaming.Anthropic.{
  AnthropicMessagesStreamBuffer, ensure_message_started, create_content_block_start_event,
  has_content_block_start_been_sent, set_content_block_start_sent, push_message_stop, stop_event,
}
use plano.Streaming.Anthropic.Events.{
  add_transformed_event, close_content_block, open_content_block, drain, handle_event, learn_model,
  finalize, merge_event, merge_last, merge_or_push, to_bytes,
}

drain-append : (es fs : List SseEvent) → drain (es ++ fs) ≡ drain es <> drain fs
unfolding drain
drain-append [] fs = rw TextLemmas.nil-append
drain-append (e ∷ es) fs = rw (drain-append es fs, TextLemmas.append_assoc)

-- The last event alone is merged into.
merge_last-append :
    (usage : MessagesUsage) (es : List SseEvent) (l : SseEvent)
    → merge_last usage (es ++ l ∷ []) ≡ Option.map (λ l'. es ++ l' ∷ []) (merge_event usage l)
unfolding merge_last
merge_last-append usage [] l = refl
merge_last-append usage (e ∷ []) l = ground arith
merge_last-append usage (e ∷ f ∷ es) l = ground (arith, merge_last-append usage (f ∷ es) l)

to_wire-merge_event :
    (usage : MessagesUsage) (l : SseEvent) {l' : SseEvent}
    → merge_event usage l ≡ some l'
    → to_wire l' ≡ to_wire l
unfolding to_wire
to_wire-merge_event usage l h = ground arith

drain-merge_last :
    (usage : MessagesUsage) (es : List SseEvent) (l : SseEvent) {l' : SseEvent}
    → merge_event usage l ≡ some l'
    → drain (es ++ l' ∷ []) ≡ drain (es ++ l ∷ [])
unfolding drain
drain-merge_last usage es l {l'} h =
    rw (drain-append es (l' ∷ []), drain-append es (l ∷ []))
      (ap (λ s. drain es <> (s <> "")) (to_wire-merge_event usage l h))

-- The event that `merge_event` makes of a `message_delta`.
merge_event_of_delta :
    (usage last_usage : MessagesUsage) (d : MessagesMessageDelta) (l : SseEvent)
    → l.provider_stream_response ≡ some (messages_stream_event (message_delta d last_usage))
    → (l' : SseEvent) × (merge_event usage l ≡ some l')
merge_event_of_delta usage last_usage d l e = elim (Option-cases (merge_event usage l)) [
  | inl apart ↦ absurd (ground arith)
  | inr found ↦ found
]

-- Adding a `message_delta` behind a buffered one leaves the bytes of the next flush as they are:
-- the usage that is merged in never reaches the client. This holds in an open message with no open
-- block, for an event that is not skipped.
pub merged_usage_not_sent :
    (serde : Serde) (uuid : String) (e l : SseEvent) (es : List SseEvent)
    (d last_d : MessagesMessageDelta) (usage last_usage : MessagesUsage)
    (b : AnthropicMessagesStreamBuffer)
    → e.provider_stream_response ≡ some (messages_stream_event (message_delta d usage))
    → should_skip e ≡ false
    → b.buffered_events ≡ es ++ l ∷ []
    → l.provider_stream_response ≡ some (messages_stream_event (message_delta last_d last_usage))
    → b.message_started ≡ true
    → b.message_stopped ≡ false
    → b.needs_content_block_stop ≡ false
    → b.seen_message_delta ≡ true
    → (to_bytes serde (add_transformed_event serde uuid e b)).0 ≡ (to_bytes serde b).0
unfolding add_transformed_event handle_event learn_model close_content_block ensure_message_started
    merge_or_push finalize to_bytes push_message_stop drain
merged_usage_not_sent serde uuid e l es d last_d usage last_usage b response kept buffered last
      started running needs seen =
    let (l', merged) = merge_event_of_delta usage last_usage last_d l last in
    ground (
      arith,
      merge_last-append usage es l,
      merged,
      drain-merge_last usage es l merged,
      drain-append (es ++ l ∷ []) (stop_event serde ∷ []),
      drain-append (es ++ l' ∷ []) (stop_event serde ∷ []),
    )

-- Where a delta comes for a block that has not been opened, in an open message, the event put in
-- front of it opens block 0, whatever the delta's index.
pub injected_block_is_zero :
    (serde : Serde) (uuid : String) (e : SseEvent) (index : ℕ) (d : MessagesContentDelta)
    (b : AnthropicMessagesStreamBuffer)
    → e.provider_stream_response ≡ some (messages_stream_event (content_block_delta index d))
    → should_skip e ≡ false
    → b.message_started ≡ true
    → b.message_stopped ≡ false
    → has_content_block_start_been_sent index b ≡ false
    → (drain (add_transformed_event serde uuid e b).buffered_events
        ≡ drain b.buffered_events
          <> (to_wire (create_content_block_start_event serde) <> (to_wire e <> "")))
      × ((create_content_block_start_event serde).sse_transformed_lines
          ≡ to_sse_string serde (content_block_start 0 (text "")))
unfolding add_transformed_event handle_event learn_model open_content_block ensure_message_started
    has_content_block_start_been_sent set_content_block_start_sent create_content_block_start_event
    drain
injected_block_is_zero serde uuid e index d b response kept started running unsent = (
  ground (
    arith,
    append_assoc b.buffered_events (create_content_block_start_event serde ∷ []) (e ∷ []),
    drain-append b.buffered_events (create_content_block_start_event serde ∷ e ∷ []),
  ),
  refl,
)
