-- ===== src/Streaming/Responses/Runs.antt =====
-- Streams of a chat completion's chunks through the buffer of the Responses API.
use package.text.Mathlib.TextLemmas as Text
use plano.Prelude.{
  ℕ, Bool, true, Option, some, List, [], ◌∷◌, ◌++◌, ◌<>◌, map, map-append, append-nil, String, ◌≡◌,
  ◌∙◌, refl, sym, ap, Bool-cases, inl, inr,
}
use plano.Streaming.ResponsesApi.{
  ResponsesApiStreamEvent, response_output_text_delta, response_function_call_arguments_delta, done,
}
use plano.Streaming.Sse.{response_api_stream_event, SseEvent, is_done, should_skip, to_wire}
use plano.Streaming.Anthropic.Events.{drain}
use plano.Streaming.Responses.{Outside, ResponsesApiStreamBuffer, Work, new, event_to_sse}
use plano.Streaming.Responses.Finalize.{begin, extend, finalized_work, finalize_work}
use plano.Streaming.Responses.Events.{handle_event, process, add_transformed_event, to_bytes}
use plano.Streaming.Responses.Lifecycle.{Stream, unopened}
use plano.Streaming.Responses.Lifecycle.Prelude.{emit_prelude-Continues}
use plano.Streaming.Responses.Lifecycle.Steps.{
  Continues, on_text_delta-Continues, on_arguments_delta-Continues, text_done-Continues,
  arguments_done-Continues, emit_completed-Continues,
}

-- The events that a chunk is translated to, and those of an upstream response that are absorbed.
pub data IsTranslated : ResponsesApiStreamEvent → Type 0 where
  text :
      (id : String) (i c : ℕ) (d : String) (l : List String) (f : Option String) (n : ℕ)
      → IsTranslated (response_output_text_delta id i c d l f n)
  arguments :
      (i : ℕ) (id d : String) (n : ℕ) (call_id name : Option String)
      → IsTranslated (response_function_call_arguments_delta i id d n call_id name)
  ending : (n : ℕ) → IsTranslated (done n)

-- The bytes of events one behind the other.
abbrev pub bytes : List SseEvent → String
bytes [] = ""
bytes (e ∷ es) = to_wire e <> bytes es

-- The runs of the buffer, with the bytes that were flushed and the events that were made.
pub data Run (to_json : ResponsesApiStreamEvent → String)
    : ResponsesApiStreamBuffer → String → List ResponsesApiStreamEvent → Type 0 where
  start : Run to_json new "" []
  add :
      {b : ResponsesApiStreamBuffer} {sent : String} {made : List ResponsesApiStreamEvent}
      → Run to_json b sent made
      → (o : Outside) (event : SseEvent) (translated : ResponsesApiStreamEvent)
      → o.to_json ≡ to_json
      → event.provider_stream_response ≡ some (response_api_stream_event translated)
      → IsTranslated translated
      → Run to_json (add_transformed_event o event b) sent (made ++ (process o event b).events)
  flush :
      {b : ResponsesApiStreamBuffer} {sent : String} {made : List ResponsesApiStreamEvent}
      → Run to_json b sent made
      → Run to_json ((to_bytes b).1) (sent <> (to_bytes b).0) made

-- The stream so far, the flags that go together, and the events that wait for a flush.
pub record Keeps (made : List ResponsesApiStreamEvent) (waiting : List SseEvent)
    (b : ResponsesApiStreamBuffer) : Type 0 where
  pub stream : Stream b.sequence_number b.created_emitted b.finalized made
  pub together : b.in_progress_emitted ≡ b.created_emitted
  pub unsent : b.buffered_events ≡ waiting

-- The work of a method keeps a run, with what it makes behind the events that wait.
abbrev KeepsOn : Outside → List ResponsesApiStreamEvent → List SseEvent → Work → Type 0
KeepsOn o made waiting w =
    Keeps (made ++ w.events) (waiting ++ map (event_to_sse o.to_json) w.events) (extend o w)

Continues-Keeps :
    (o : Outside) {made : List ResponsesApiStreamEvent} {is_final : Bool} {waiting : List SseEvent}
    (w : Work)
    → Continues made is_final is_final waiting w
    → KeepsOn o made waiting w
unfolding extend
Continues-Keeps o w c = record {
  stream = rw (c.created, c.final) c.stream;
  together = c.in_progress ∙ sym c.created;
  unsent = ap (λ l. l ++ map (event_to_sse o.to_json) w.events) c.unsent;
}

begin-Keeps :
    (o : Outside) {made : List ResponsesApiStreamEvent} (b : ResponsesApiStreamBuffer)
    → Keeps made b.buffered_events b
    → KeepsOn o made b.buffered_events (begin o b)
unfolding extend
begin-Keeps o {made} b k = record {
  stream = rw (append-nil made) k.stream;
  together = k.together;
  unsent = ap (λ l. l ++ []) k.unsent;
}

finalized_work-Keeps :
    (o : Outside) {made : List ResponsesApiStreamEvent} (b : ResponsesApiStreamBuffer)
    → Keeps made b.buffered_events b
    → KeepsOn o made b.buffered_events (finalized_work o b)
unfolding finalized_work finalize_work
finalized_work-Keeps o {made} b k = elim (Bool-cases b.finalized) [
  | inl old ↦ simp old (begin-Keeps o b k)
  | inr new ↦ simp new (
      Continues-Keeps o _ (
        emit_completed-Continues o _ (
          arguments_done-Continues o _ _ (
            text_done-Continues o _ _ (
              emit_prelude-Continues o (record b { finalized = true }) (rw (← new) k.stream)
                k.together)))))
]

handle_event-Keeps :
    (o : Outside) {made : List ResponsesApiStreamEvent} (b : ResponsesApiStreamBuffer)
    {event : ResponsesApiStreamEvent}
    → IsTranslated event
    → Keeps made b.buffered_events b
    → KeepsOn o made b.buffered_events (handle_event o event b)
unfolding handle_event
handle_event-Keeps o b (text id i c d l f n) k =
    Continues-Keeps o _
      (on_text_delta-Continues o i c d l f _ (emit_prelude-Continues o b k.stream k.together))
handle_event-Keeps o b (arguments i id d n call_id name) k = Continues-Keeps o _ (
    on_arguments_delta-Continues o i d call_id name _
      (emit_prelude-Continues o b k.stream k.together))
handle_event-Keeps o b (ending n) k = finalized_work-Keeps o b k

process-Keeps :
    (o : Outside) {made : List ResponsesApiStreamEvent} (b : ResponsesApiStreamBuffer)
    (event : SseEvent) {translated : ResponsesApiStreamEvent}
    → event.provider_stream_response ≡ some (response_api_stream_event translated)
    → IsTranslated translated
    → Keeps made b.buffered_events b
    → KeepsOn o made b.buffered_events (process o event b)
unfolding process
process-Keeps o b event carries t k = elim (Bool-cases (should_skip event)) [
  | inl skip ↦ rw skip (begin-Keeps o b k)
  | inr keep ↦ elim (Bool-cases (is_done event)) [
    | inl last ↦ rw (keep, last) (finalized_work-Keeps o b k)
    | inr more ↦ rw (keep, more) (simp carries (handle_event-Keeps o b t k))
  ]
]

bytes-append : (es fs : List SseEvent) → bytes (es ++ fs) ≡ bytes es <> bytes fs
bytes-append [] fs = sym (Text.nil-append (bytes fs))
bytes-append (e ∷ es) fs =
    ap (λ t. to_wire e <> t) (bytes-append es fs)
    ∙ sym (Text.append_assoc (to_wire e) (bytes es) (bytes fs))

drain_lem : (es : List SseEvent) → drain es ≡ bytes es
unfolding drain
drain_lem [] = refl
drain_lem (e ∷ es) = ap (λ t. to_wire e <> t) (drain_lem es)

module _ {to_json : ResponsesApiStreamEvent → String} where
  Run-Keeps :
      {b : ResponsesApiStreamBuffer} {sent : String} {made : List ResponsesApiStreamEvent}
      → Run to_json b sent made
      → Keeps made b.buffered_events b
  unfolding new add_transformed_event to_bytes
  Run-Keeps start = record { stream = unopened; together = refl; unsent = refl }
  Run-Keeps (add {b} r o event translated same carries t) =
      let k = process-Keeps o b event carries t (Run-Keeps r) in
      record { stream = k.stream; together = k.together; unsent = refl }
  Run-Keeps (flush r) =
      let k = Run-Keeps r in record { stream = k.stream; together = k.together; unsent = refl }

  -- Whatever chunks are translated and added, and whenever the buffer is flushed, the events made
  -- are a stream of the Responses API: it opens with `response.created` and `response.in_progress`,
  -- its events are numbered from 0 without a gap, and it has one `response.completed` if the buffer
  -- was finalized, and none before.
  pub Run-Stream :
      {b : ResponsesApiStreamBuffer} {sent : String} {made : List ResponsesApiStreamEvent}
      → Run to_json b sent made
      → Stream b.sequence_number b.created_emitted b.finalized made
  Run-Stream r = (Run-Keeps r).stream

  -- Nothing that is made is lost, sent twice or reordered: the bytes that the flushes gave, with those
  -- of the events that wait for the next flush behind them, are the bytes of all events made, as they
  -- are rendered, in their order.
  pub Run-sent :
      {b : ResponsesApiStreamBuffer} {sent : String} {made : List ResponsesApiStreamEvent}
      → Run to_json b sent made
      → sent <> bytes b.buffered_events ≡ bytes (map (event_to_sse to_json) made)
  unfolding new add_transformed_event to_bytes
  Run-sent start = refl
  Run-sent (add {b} {sent} {made} r o event translated same carries t) =
      let k = process-Keeps o b event carries t (Run-Keeps r) in
      let new_events = (process o event b).events in
      let rendered = map (event_to_sse o.to_json) new_events in
      ap (λ l. sent <> bytes l) k.unsent
      ∙ ap (λ u. sent <> u) (bytes-append b.buffered_events rendered)
      ∙ sym (Text.append_assoc sent (bytes b.buffered_events) (bytes rendered))
      ∙ ap (λ u. u <> bytes rendered) (Run-sent r)
      ∙ ap (λ j. bytes (map (event_to_sse to_json) made) <> bytes (map (event_to_sse j) new_events))
          same
      ∙ sym (bytes-append (map (event_to_sse to_json) made) (map (event_to_sse to_json) new_events))
      ∙ ap bytes (sym (map-append (event_to_sse to_json) made new_events))
  Run-sent (flush {b} {sent} r) =
      Text.append-nil (sent <> drain b.buffered_events)
      ∙ ap (λ u. sent <> u) (drain_lem b.buffered_events)
      ∙ Run-sent r
