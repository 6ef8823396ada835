-- ===== src/Streaming/Anthropic/Protocol/Ending.antt =====
-- How a message ends: what stands before and behind `message_stop`, and that it comes.
use mathlib.Core.Option
use plano.Prelude.{
  Bool, true, false, Option, none, some, List, [], ◌∷◌, ◌++◌, ◌≡◌, refl, String, arith, any, all,
  ◌∙◌, ap, sym, null, if◌then◌else◌,
}
use plano.Streaming.Sse.{
  SseEvent, Serde, messages_stream_event, message_delta, MessagesMessageDelta, MessagesUsage,
  message_stop, should_skip,
}
use plano.Streaming.Anthropic.{
  AnthropicMessagesStreamBuffer, ensure_message_started, push_synthetic_message_delta,
  create_message_start_event, create_content_block_start_event, create_content_block_stop_event,
  set_content_block_start_sent, push_message_stop,
}
use plano.Streaming.Anthropic.Events.{
  add_transformed_event, close_content_block, push_empty_block, synthesize_ending, handle_event,
  learn_model, finalize, to_bytes, merge_or_push,
}
use plano.Streaming.Anthropic.Protocol.{
  Kind, start, block_start, block_stop, delta, stop, alive, other, Phase, idle, opened, ending,
  closed, step, accepts, phase, kind, kinds, Run,
}
use plano.Streaming.Anthropic.Protocol.Steps.{accepts-append}
use plano.Streaming.Anthropic.Protocol.Safety.{accepts-Run}

abbrev pub is_start : Kind → Bool
is_start start = true
is_start _ = false

abbrev pub is_delta : Kind → Bool
is_delta delta = true
is_delta _ = false

abbrev pub is_other : Kind → Bool
is_other other = true
is_other _ = false

start_of_ending : (ks : List Kind) → accepts idle ks ≡ some ending → any is_start ks ≡ true
unfolding accepts step Option.bind
start_of_ending [] h = absurd (ground arith)
start_of_ending (alive ∷ ks) h = start_of_ending ks h
start_of_ending (other ∷ ks) h = start_of_ending ks h
start_of_ending (k ∷ ks) h = ground arith

delta_of_opened : (ks : List Kind) → accepts opened ks ≡ some ending → any is_delta ks ≡ true
unfolding accepts step Option.bind
delta_of_opened [] h = absurd (ground arith)
delta_of_opened (delta ∷ ks) h = refl
delta_of_opened (stop ∷ ks) h = absurd (ground arith)
delta_of_opened (start ∷ ks) h = delta_of_opened ks h
delta_of_opened (k ∷ ks) h = delta_of_opened ks h

delta_of_ending : (ks : List Kind) → accepts idle ks ≡ some ending → any is_delta ks ≡ true
unfolding accepts step Option.bind
delta_of_ending [] h = absurd (ground arith)
delta_of_ending (start ∷ ks) h = delta_of_opened ks h
delta_of_ending (alive ∷ ks) h = delta_of_ending ks h
delta_of_ending (other ∷ ks) h = delta_of_ending ks h
delta_of_ending (k ∷ ks) h = ground arith

other_of_closed : (ks : List Kind) {q : Phase} → accepts closed ks ≡ some q → all is_other ks ≡ true
unfolding accepts step Option.bind
other_of_closed [] h = refl
other_of_closed (other ∷ ks) h = other_of_closed ks h
other_of_closed (k ∷ ks) h = ground arith

ending_of_stop :
    (o : Option Phase) (ls : List Kind) {q : Phase}
    → Option.bind o (λ p. accepts p (stop ∷ ls)) ≡ some q
    → (o ≡ some ending) × (accepts closed ls ≡ some q)
unfolding accepts step Option.bind
ending_of_stop none ls h = absurd (cc)
ending_of_stop (some ending) ls h = (refl, h)
ending_of_stop (some p) ls h = absurd (ground arith)

-- In whatever a run has written, flushed or not, a `message_stop` has a `message_start` and a
-- `message_delta` before it, and nothing of the protocol behind it, so no second `message_stop`.
pub stop-Run :
    (serde : Serde) (out ks ls : List Kind) (b : AnthropicMessagesStreamBuffer)
    → Run serde out b
    → out ++ kinds b.buffered_events ≡ ks ++ stop ∷ ls
    → (any is_start ks ≡ true) × (any is_delta ks ≡ true) × (all is_other ls ≡ true)
stop-Run serde out ks ls b r e =
    let (before, behind) = ending_of_stop (accepts idle ks) ls (
      sym (accepts-append idle ks (stop ∷ ls))
      ∙ ap (accepts idle) (sym e)
      ∙ accepts-Run serde out b r) in
    (start_of_ending ks before, delta_of_ending ks before, other_of_closed ls behind)

-- A stream that the upstream ends before any message event is closed by a whole envelope: from a
-- buffer that has opened nothing, an upstream `message_stop` that is not skipped adds a
-- `message_start`, an empty block, a `message_delta` and the `message_stop`.
pub empty_stream_envelope :
    (serde : Serde) (uuid : String) (e : SseEvent) (b : AnthropicMessagesStreamBuffer)
    → e.provider_stream_response ≡ some (messages_stream_event message_stop)
    → should_skip e ≡ false
    → phase b ≡ idle
    → b.buffered_events ≡ []
    → b.content_block_start_indices ≡ []
    → b.needs_content_block_stop ≡ false
    → b.seen_message_delta ≡ false
    → kinds (add_transformed_event serde uuid e b).buffered_events
      ≡ start ∷ block_start ∷ block_stop ∷ delta ∷ stop ∷ []
unfolding add_transformed_event handle_event learn_model synthesize_ending close_content_block
    push_empty_block push_synthetic_message_delta set_content_block_start_sent
    ensure_message_started phase kinds kind create_message_start_event
    create_content_block_start_event create_content_block_stop_event
empty_stream_envelope serde uuid e b response kept p buffered indices needs seen = ground arith

-- What a message that is not closed still lacks, by whether it has begun, whether a block is open,
-- whether it had its `message_delta` and whether it had no block: its `message_start`, the end of the
-- open block, an empty block and a `message_delta` where it had none, and its `message_stop`.
abbrev pub lacks : Bool → Bool → Bool → Bool → List Kind
lacks begun open_block has_delta is_empty =
    (if begun then [] else start ∷ [])
    ++ ((if open_block then block_stop ∷ [] else [])
        ++ ((if has_delta
              then []
              else (if is_empty then block_start ∷ block_stop ∷ [] else []) ++ delta ∷ [])
            ++ stop ∷ []))

abbrev pub missing : AnthropicMessagesStreamBuffer → List Kind
missing b =
    lacks b.message_started b.needs_content_block_stop b.seen_message_delta
      (null b.content_block_start_indices)

-- A step keeps what comes next and writes these kinds.
record Writes (b c : AnthropicMessagesStreamBuffer) (ks : List Kind) : Type 0 where
  writes : kinds c.buffered_events ≡ kinds b.buffered_events ++ ks

pub learn_model-keeps :
    (serde : Serde) (e : SseEvent) (b : AnthropicMessagesStreamBuffer)
    → (m : Option String) × (learn_model serde e b ≡ record b { model = m })
unfolding learn_model
learn_model-keeps serde e b = learned b.model refl
  where
    learned :
        (o : Option String)
        → b.model ≡ o
        → (m : Option String) × ((elim o [
          | some m ↦ b
          | none ↦ record b { model = Option.bind e.data_field serde.model_of_json }
        ])
            ≡ record b { model = m })
    learned none unknown = (Option.bind e.data_field serde.model_of_json, refl)
    learned (some m) known = (b.model, refl)

-- Behind a `message_delta` that is not skipped the next flush ends the message.
pub flush_closes :
    (serde : Serde) (uuid : String) (e : SseEvent) (d : MessagesMessageDelta) (u : MessagesUsage)
    (b : AnthropicMessagesStreamBuffer)
    → e.provider_stream_response ≡ some (messages_stream_event (message_delta d u))
    → should_skip e ≡ false
    → phase (to_bytes serde (add_transformed_event serde uuid e b)).1 ≡ closed
unfolding add_transformed_event handle_event learn_model merge_or_push finalize to_bytes
    push_message_stop phase
flush_closes serde uuid e d u b response kept = ground arith
