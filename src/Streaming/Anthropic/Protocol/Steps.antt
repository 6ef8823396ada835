-- ===== src/Streaming/Anthropic/Protocol/Steps.antt =====
-- Each part of the buffer's methods keeps the automaton and the flags in step.
use mathlib.Core.Option
use mathlib.Core.Path.{fun_ext}
use mathlib.Core.List.{map-append}
use plano.Prelude.{
  ℕ, true, false, Option, none, some, List, [], ◌∷◌, ◌++◌, ◌≡◌, ◌⊎◌, refl, String, arith,
  append_assoc,
}
use plano.Streaming.Sse.{SseEvent, Serde}
use plano.Streaming.Anthropic.{
  AnthropicMessagesStreamBuffer, push_event, ensure_message_started, create_message_start_event,
  create_content_block_stop_event, create_content_block_start_event, set_content_block_start_sent,
}
use plano.Streaming.Anthropic.Events.{close_content_block, open_content_block}
use plano.Streaming.Anthropic.Protocol.{
  Kind, block_start, block_delta, block_stop, Phase, idle, step, accepts, phase, kind, kinds,
}

-- Everything written so far, flushed or not, is accepted up to the phase of the flags.
pub record InStep (out : List Kind) (b : AnthropicMessagesStreamBuffer) : Type 0 where
  pub accepted : accepts idle (out ++ kinds b.buffered_events) ≡ some (phase b)
  pub delta_inside : b.seen_message_delta ≡ true → b.message_started ≡ true

bind_accepts :
    (o : Option Phase) (ks ls : List Kind)
    → Option.bind o (λ q. Option.bind (accepts q ks) (λ r. accepts r ls))
      ≡ Option.bind (Option.bind o (λ q. accepts q ks)) (λ r. accepts r ls)
unfolding Option.bind
bind_accepts none ks ls = refl
bind_accepts (some q) ks ls = refl

pub accepts-append :
    (p : Phase) (ks ls : List Kind)
    → accepts p (ks ++ ls) ≡ Option.bind (accepts p ks) (λ q. accepts q ls)
unfolding accepts Option.bind
accepts-append p [] ls = refl
accepts-append p (k ∷ ks) ls =
    rw (fun_ext (λ q. accepts-append q ks ls)) (bind_accepts (step p k) ks ls)

abbrev pub advance : Option Phase → Kind → Option Phase
advance none k = none
advance (some p) k = step p k

bind_one : (o : Option Phase) (k : Kind) → Option.bind o (λ q. accepts q (k ∷ [])) ≡ advance o k
unfolding accepts Option.bind
bind_one none k = refl
bind_one (some p) k = elim (step p k) as (λ o. Option.bind o some ≡ o) [
  | none ↦ refl
  | some q ↦ refl
]

module _ (out : List Kind) where
  -- One more event is one more step of the automaton.
  pub accepts-push :
      (es : List SseEvent) (e : SseEvent)
      → accepts idle (out ++ kinds (es ++ e ∷ []))
        ≡ advance (accepts idle (out ++ kinds es)) (kind e)
  unfolding kinds
  accepts-push es e = rw (map-append, ← append_assoc, accepts-append) (bind_one _ (kind e))

-- The same, with the message open.
pub record InMessage (out : List Kind) (b : AnthropicMessagesStreamBuffer) : Type 0 where
  pub accepted : accepts idle (out ++ kinds b.buffered_events) ≡ some (phase b)
  pub started : b.message_started ≡ true
  pub running : b.message_stopped ≡ false

-- A block event leaves an open message as it is.
pub push_event-InMessage :
    (out : List Kind) (e : SseEvent) (b : AnthropicMessagesStreamBuffer)
    → InMessage out b
    → (kind e ≡ block_start) ⊎ ((kind e ≡ block_delta) ⊎ (kind e ≡ block_stop))
    → InMessage out (push_event e b)
unfolding phase step
push_event-InMessage out e b h k = record {
  accepted = ground (arith, h, accepts-push out b.buffered_events e);
  started = h.started;
  running = h.running;
}

module _ (serde : Serde) (out : List Kind) (b : AnthropicMessagesStreamBuffer) where
  pub ensure_message_started-InMessage :
      (uuid : String)
      → InStep out b
      → b.message_stopped ≡ false
      → InMessage out (ensure_message_started serde uuid b)
  unfolding ensure_message_started phase step kind create_message_start_event
  ensure_message_started-InMessage uuid h running = record {
    accepted = ground (
      arith,
      h,
      accepts-push out b.buffered_events
          (create_message_start_event serde uuid (Option.get_or b.model "unknown")),
    );
    started = ground arith;
    running = ground arith;
  }

  pub close_content_block-InMessage : InMessage out b → InMessage out (close_content_block serde b)
  unfolding close_content_block phase step kind create_content_block_stop_event
  close_content_block-InMessage h = record {
    accepted =
        ground
          (arith, h, accepts-push out b.buffered_events (create_content_block_stop_event serde));
    started = ground arith;
    running = ground arith;
  }

  pub open_content_block-InMessage :
      (index : ℕ) → InMessage out b → InMessage out (open_content_block serde index b)
  unfolding open_content_block phase step kind create_content_block_start_event
      set_content_block_start_sent
  open_content_block-InMessage index h = record {
    accepted =
        ground
          (arith, h, accepts-push out b.buffered_events (create_content_block_start_event serde));
    started = ground arith;
    running = ground arith;
  }
