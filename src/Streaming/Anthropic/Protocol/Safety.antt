-- ===== src/Streaming/Anthropic/Protocol/Safety.antt =====
-- Every run of the buffer is accepted by the protocol's automaton.
use plano.Prelude.{some, List, [], ◌++◌, ◌≡◌, refl, String, arith, inl, inr, Bool-cases, append-nil}
use plano.Streaming.Sse.{
  SseEvent, Serde, ProviderStreamResponseType, messages_stream_event, should_skip,
}
use plano.Streaming.Anthropic.{
  AnthropicMessagesStreamBuffer, new, push_event, push_message_stop, stop_event,
}
use plano.Streaming.Anthropic.Events.{
  add_transformed_event, dispatch, finalize, learn_model, to_bytes,
}
use plano.Streaming.Anthropic.Protocol.{
  Kind, idle, other, step, accepts, phase, kind, kinds, IsTranslated, Run, begin, add, flush,
}
use plano.Streaming.Anthropic.Protocol.Steps.{InStep, accepts-push}
use plano.Streaming.Anthropic.Protocol.Handlers.{handle_event-InStep}

learn_model-InStep :
    (serde : Serde) (out : List Kind) (event : SseEvent) (b : AnthropicMessagesStreamBuffer)
    → InStep out b
    → InStep out (learn_model serde event b)
unfolding learn_model phase
learn_model-InStep serde out event b h = record {
  accepted = ground (arith, h);
  delta_inside = ground (arith, h);
}

-- An event of another protocol is buffered as it is.
push_other-InStep :
    (out : List Kind) (event : SseEvent) (b : AnthropicMessagesStreamBuffer)
    → kind event ≡ other
    → InStep out b
    → InStep out (push_event event b)
unfolding phase step
push_other-InStep out event b k h = record {
  accepted = ground (arith, h, accepts-push out b.buffered_events event);
  delta_inside = h.delta_inside;
}

module _ (serde : Serde) (out : List Kind) (uuid : String) where
  dispatch-InStep :
      (event : SseEvent) (r : ProviderStreamResponseType) (b : AnthropicMessagesStreamBuffer)
      → event.provider_stream_response ≡ some r
      → InStep out b
      → InStep out (dispatch serde uuid event (some r) b)
  unfolding kind
  dispatch-InStep event (messages_stream_event evt) b e h = elim (Bool-cases b.message_stopped) [
    | inl stopped ↦ simp stopped h
    | inr running ↦ simp running (handle_event-InStep serde out uuid event evt b (rw e) running h)
  ]
  dispatch-InStep event _ b e h = push_other-InStep out event b (rw e) h

  add_transformed_event-InStep :
      (event : SseEvent) (b : AnthropicMessagesStreamBuffer)
      → IsTranslated event
      → InStep out b
      → InStep out (add_transformed_event serde uuid event b)
  unfolding add_transformed_event
  add_transformed_event-InStep event b (r, e) h = elim (Bool-cases (should_skip event)) [
    | inl skipped ↦ simp skipped h
    | inr kept ↦
        simp (kept, e)
          (dispatch-InStep event r (learn_model serde event b) e
            (learn_model-InStep serde out event b h))
  ]

finalize-InStep :
    (serde : Serde) (out : List Kind) (b : AnthropicMessagesStreamBuffer)
    → InStep out b
    → InStep out (finalize serde b)
unfolding finalize push_message_stop phase step kind
finalize-InStep serde out b h = record {
  accepted = ground (arith, h, accepts-push out b.buffered_events (stop_event serde));
  delta_inside = ground (arith, h);
}

-- Draining moves the buffered events to the flushed ones.
drained-InStep :
    (serde : Serde) (out : List Kind) (b : AnthropicMessagesStreamBuffer)
    → InStep out (finalize serde b)
    → InStep (out ++ kinds (finalize serde b).buffered_events) (to_bytes serde b).1
unfolding to_bytes phase kinds
drained-InStep serde out b h = record {
  accepted = rw append-nil (h.accepted);
  delta_inside = h.delta_inside;
}

new-InStep : InStep [] new
unfolding new phase accepts kinds
new-InStep = record { accepted = refl; delta_inside = λ h. cc }

pub Run-InStep :
    {serde : Serde} {out : List Kind} {b : AnthropicMessagesStreamBuffer}
    → Run serde out b
    → InStep out b
Run-InStep begin = new-InStep
Run-InStep {serde} (add {out} {b} uuid e translated r) =
    add_transformed_event-InStep serde out uuid e b translated (Run-InStep r)
Run-InStep {serde} (flush {out} {b} r) =
    drained-InStep serde out b (finalize-InStep serde out b (Run-InStep r))

-- Whatever translated events are added, and whenever the buffer is flushed, the events flushed so
-- far and those still buffered are accepted by the protocol's automaton from its first phase, and
-- take it to the phase that the buffer's flags stand for.
pub accepts-Run :
    (serde : Serde) (out : List Kind) (b : AnthropicMessagesStreamBuffer)
    → Run serde out b
    → accepts idle (out ++ kinds b.buffered_events) ≡ some (phase b)
accepts-Run serde out b r = (Run-InStep r).accepted
