-- ===== src/Streaming/Anthropic/Protocol/Handlers.antt =====
-- Each case of `match evt` keeps the automaton and the flags in step.
use plano.Prelude.{
  ℕ, Bool, true, false, Option, some, List, [], ◌∷◌, ◌++◌, ◌≡◌, refl, String, arith, inl, inr,
  Option-cases, ap, Bool-cases,
}
use plano.Streaming.Sse.{
  SseEvent, Serde, MessagesUsage, MessagesStreamEvent, message_start, content_block_start,
  content_block_delta, content_block_stop, message_delta, message_stop, ping,
}
use plano.Streaming.Anthropic.{
  AnthropicMessagesStreamBuffer, push_event, push_synthetic_message_delta, synthetic_delta,
  ensure_message_started, set_content_block_start_sent, create_content_block_start_event,
  create_content_block_stop_event,
}
use plano.Streaming.Anthropic.Events.{
  merge_event, merge_last, merge_or_push, push_empty_block, synthesize_ending, handle_event,
  close_content_block, open_content_block,
}
use plano.Streaming.Anthropic.Protocol.{
  Kind, Phase, idle, ending, delta, stop, tag, step, accepts, phase, kind, kinds,
}
use plano.Streaming.Anthropic.Protocol.Steps.{
  InStep, InMessage, accepts-push, push_event-InMessage, ensure_message_started-InMessage,
  close_content_block-InMessage, open_content_block-InMessage, advance,
}

-- Merging changes no kind, and happens behind a `message_delta` only.
kind-merge_event :
    (usage : MessagesUsage) (e : SseEvent) {e' : SseEvent}
    → merge_event usage e ≡ some e'
    → (kind e' ≡ kind e) × (kind e ≡ delta)
unfolding kind
kind-merge_event usage e h = (ground arith, ground arith)

pub kinds-merge_last :
    (usage : MessagesUsage) (es : List SseEvent) {es' : List SseEvent}
    → merge_last usage es ≡ some es'
    → kinds es' ≡ kinds es
unfolding merge_last kinds
kinds-merge_last usage [] h = ground arith
kinds-merge_last usage (e ∷ []) h = elim (Option-cases (merge_event usage e)) [
  | inl no_merge ↦ ground arith
  | inr (e', merged) ↦ ground (arith, kind-merge_event usage e {e' = e'})
]
kinds-merge_last usage (e ∷ f ∷ es) h = elim (Option-cases (merge_last usage (f ∷ es))) [
  | inl no_merge ↦ ground arith
  | inr (es', merged) ↦ ground (arith, kinds-merge_last usage (f ∷ es) merged)
]

merge_last-snoc :
    (usage : MessagesUsage) (es : List SseEvent) {es' : List SseEvent}
    → merge_last usage es ≡ some es'
    → (init : List SseEvent) × (e : SseEvent) × (es ≡ init ++ e ∷ []) × (kind e ≡ delta)
unfolding merge_last
merge_last-snoc usage [] h = absurd (cc)
merge_last-snoc usage (e ∷ []) h = elim (Option-cases (merge_event usage e)) [
  | inl no_merge ↦ absurd (ground arith)
  | inr (e', merged) ↦ ([], e, refl, (kind-merge_event usage e merged).1)
]
merge_last-snoc usage (e ∷ f ∷ es) h = elim (Option-cases (merge_last usage (f ∷ es))) [
  | inl no_merge ↦ absurd (ground arith)
  | inr (es', merged) ↦
      let (init, last, same, is_delta) = merge_last-snoc usage (f ∷ es) merged in
      (e ∷ init, last, ap (λ t. e ∷ t) same, is_delta)
]

advance_delta : (o : Option Phase) {q : Phase} → advance o delta ≡ some q → q ≡ ending
unfolding step
advance_delta o h = ground arith

module _ (out : List Kind) (b : AnthropicMessagesStreamBuffer) where
  phase_of_merge :
      (usage : MessagesUsage) {es' : List SseEvent}
      → InMessage out b
      → merge_last usage b.buffered_events ≡ some es'
      → phase b ≡ ending
  phase_of_merge usage h merged =
      let (init, e, same, is_delta) = merge_last-snoc usage b.buffered_events merged in
      advance_delta (accepts idle (out ++ kinds init))
        (cc (h.accepted, same, is_delta, accepts-push out init e))

  merge_or_push-InStep :
      (event : SseEvent) (usage : MessagesUsage)
      → InMessage out b
      → kind event ≡ delta
      → InStep out (merge_or_push event usage b)
  unfolding merge_or_push phase step
  merge_or_push-InStep event usage h k = elim (Option-cases (merge_last usage b.buffered_events)) [
    | inl apart ↦ record {
      accepted = ground (arith, h, accepts-push out b.buffered_events event);
      delta_inside = ground arith;
    }
    | inr (es', merged) ↦ record {
      accepted = ground (
        arith,
        h,
        kinds-merge_last usage b.buffered_events merged,
        phase_of_merge usage h merged,
      );
      delta_inside = ground arith;
    }
  ]

module _ (serde : Serde) (out : List Kind) (b : AnthropicMessagesStreamBuffer) where
  push_empty_block-InMessage : InMessage out b → InMessage out (push_empty_block serde b)
  unfolding push_empty_block phase step kind create_content_block_start_event
      create_content_block_stop_event set_content_block_start_sent
  push_empty_block-InMessage h = record {
    accepted = ground (
      arith,
      h,
      accepts-push out b.buffered_events (create_content_block_start_event serde),
      accepts-push out (b.buffered_events ++ create_content_block_start_event serde ∷ [])
          (create_content_block_stop_event serde),
    );
    started = ground arith;
    running = ground arith;
  }

  push_synthetic_message_delta-InMessage :
      InMessage out b → InMessage out (push_synthetic_message_delta serde b)
  unfolding push_synthetic_message_delta phase step kind
  push_synthetic_message_delta-InMessage h = record {
    accepted = ground (arith, h, accepts-push out b.buffered_events (synthetic_delta serde));
    started = ground arith;
    running = ground arith;
  }

synthesize_ending-InMessage :
    (serde : Serde) (out : List Kind) (b : AnthropicMessagesStreamBuffer)
    → InMessage out b
    → InMessage out (synthesize_ending serde b)
      × ((synthesize_ending serde b).seen_message_delta ≡ true)
unfolding synthesize_ending push_synthetic_message_delta
synthesize_ending-InMessage serde out b h = elim (Bool-cases b.seen_message_delta) [
  | inl seen ↦ simp seen (h, refl)
  | inr unseen ↦ simp unseen (
    push_synthetic_message_delta-InMessage serde out (push_empty_block serde b)
        (push_empty_block-InMessage serde out b h),
    refl,
  )
]

-- The last step of the `MessageStop` case.
push_stop-InStep :
    (out : List Kind) (event : SseEvent) (b : AnthropicMessagesStreamBuffer)
    → InMessage out b
    → b.seen_message_delta ≡ true
    → kind event ≡ stop
    → InStep out
        (record (push_event event b) { message_stopped = true; seen_message_delta = false })
unfolding phase step
push_stop-InStep out event b h seen k = record {
  accepted = ground (arith, h, accepts-push out b.buffered_events event);
  delta_inside = ground arith;
}

InMessage-InStep :
    {out : List Kind} {b : AnthropicMessagesStreamBuffer} → InMessage out b → InStep out b
InMessage-InStep h = record { accepted = h.accepted; delta_inside = λ _. h.started }

-- Flags that only say which blocks are open do not matter to the automaton.
set_block_flags :
    (out : List Kind) (b : AnthropicMessagesStreamBuffer) (flag : Bool) (indices : List ℕ)
    → InMessage out b
    → InMessage out
        (record b { needs_content_block_stop = flag; content_block_start_indices = indices })
unfolding phase
set_block_flags out b flag indices h = record {
  accepted = h.accepted;
  started = h.started;
  running = h.running;
}

module _ (serde : Serde) (out : List Kind) (uuid : String) where
  pub handle_event-InStep :
      (event : SseEvent) (evt : MessagesStreamEvent) (b : AnthropicMessagesStreamBuffer)
      → kind event ≡ tag evt
      → b.message_stopped ≡ false
      → InStep out b
      → InStep out (handle_event serde uuid event evt b)
  unfolding handle_event phase step set_content_block_start_sent
  handle_event-InStep event (message_start m) b k running h = record {
    accepted = ground (arith, h, accepts-push out b.buffered_events event);
    delta_inside = ground arith;
  }
  handle_event-InStep event (content_block_start index block) b k running h =
      let started = ensure_message_started serde uuid b in
      InMessage-InStep (
        set_block_flags out (push_event event started) true
          (index ∷ started.content_block_start_indices)
          (push_event-InMessage out event started
            (ensure_message_started-InMessage serde out b uuid h running) (inl k)))
  handle_event-InStep event (content_block_delta index d) b k running h =
      let started = ensure_message_started serde uuid b in
      InMessage-InStep (
        push_event-InMessage out event (open_content_block serde index started)
          (open_content_block-InMessage serde out started index
            (ensure_message_started-InMessage serde out b uuid h running))
          (inr (inl k)))
  handle_event-InStep event (content_block_stop index) b k running h =
      let started = ensure_message_started serde uuid b in
      InMessage-InStep (
        push_event-InMessage out event (record started { needs_content_block_stop = false })
          (set_block_flags out started false started.content_block_start_indices
            (ensure_message_started-InMessage serde out b uuid h running))
          (inr (inr k)))
  handle_event-InStep event (message_delta d usage) b k running h =
      let started = ensure_message_started serde uuid b in
      merge_or_push-InStep out (close_content_block serde started) event usage
        (close_content_block-InMessage serde out started
          (ensure_message_started-InMessage serde out b uuid h running))
        k
  handle_event-InStep event message_stop b k running h =
      let started = ensure_message_started serde uuid b in
      let (inside, seen) =
        synthesize_ending-InMessage serde out (close_content_block serde started) (
          close_content_block-InMessage serde out started
            (ensure_message_started-InMessage serde out b uuid h running)) in
      push_stop-InStep out event (synthesize_ending serde (close_content_block serde started))
        inside seen k
  handle_event-InStep event ping b k running h = record {
    accepted = ground (arith, h, accepts-push out b.buffered_events event);
    delta_inside = h.delta_inside;
  }
