-- ===== src/Streaming/Anthropic/Protocol/Blocks.antt =====
-- The deltas of blocks stand behind the start of a block.
use plano.Prelude.{
  ℕ, ◌==◌, Bool, true, false, ◌&&◌, ◌||◌, Option, none, some, List, [], ◌∷◌, ◌++◌, null, any,
  String, ◌≡◌, ◌∙◌, refl, sym, ap, arith, append-nil, Bool-cases, inl, inr,
}
use plano.Streaming.Sse.{
  MessagesStreamEvent, message_start, content_block_start, content_block_delta, content_block_stop,
  message_delta, message_stop, ping, ProviderStreamResponseType, messages_stream_event, SseEvent,
  Serde, should_skip, MessagesUsage,
}
use plano.Streaming.Anthropic.{
  AnthropicMessagesStreamBuffer, new, push_event, ensure_message_started,
  push_synthetic_message_delta, create_message_start_event, create_content_block_start_event,
  create_content_block_stop_event, set_content_block_start_sent, push_message_stop,
  has_content_block_start_been_sent,
}
use plano.Streaming.Anthropic.Events.{
  add_transformed_event, close_content_block, open_content_block, push_empty_block,
  synthesize_ending, handle_event, dispatch, finalize, to_bytes, merge_last, merge_or_push,
}
use plano.Streaming.Anthropic.Protocol.{
  Kind, start, block_start, block_delta, block_stop, delta, stop, alive, other, tag, kind, kinds,
  IsTranslated, Run, begin, add, flush,
}
use plano.Streaming.Anthropic.Protocol.Handlers.{kinds-merge_last}
use plano.Streaming.Anthropic.Protocol.Ending.{learn_model-keeps}
use plano.Streaming.Anthropic.Protocol.Starts.{
  Blocks, follows, follows_pushed, is_block_delta, is_block_start, push-Blocks, same-Blocks,
  start-Blocks, start_pushed, written,
}

any-null : (index : ℕ) (l : List ℕ) → any (λ i. i == index) l ≡ true → null l ≡ false
any-null index [] h = ground (arith, h)
any-null index (i ∷ l) h = refl

module _ (out : List Kind) where
  module _ (serde : Serde) where
    ensure-Blocks :
        (uuid : String) (b : AnthropicMessagesStreamBuffer)
        → Blocks out b
        → Blocks out (ensure_message_started serde uuid b)
    unfolding ensure_message_started create_message_start_event kind
    ensure-Blocks uuid b h = elim (Bool-cases b.message_started) [
      | inl old ↦ simp old h
      | inr fresh ↦
          simp fresh (same-Blocks out (push_event _ b) _ refl refl (push-Blocks out _ b refl h))
    ]

    close-Blocks :
        (b : AnthropicMessagesStreamBuffer)
        → Blocks out b
        → Blocks out (close_content_block serde b)
    unfolding close_content_block create_content_block_stop_event kind
    close-Blocks b h = elim (Bool-cases b.needs_content_block_stop) [
      | inl needed ↦
          simp needed (same-Blocks out (push_event _ b) _ refl refl (push-Blocks out _ b refl h))
      | inr shut ↦ simp shut h
    ]

    -- Where a start is written, any event may be pushed.
    any-Blocks :
        (e : SseEvent) (b : AnthropicMessagesStreamBuffer)
        → any is_block_start (written out b.buffered_events) ≡ true
        → Blocks out b
        → Blocks out (push_event e b)
    any-Blocks e b has h = record {
      behind = ground (arith, follows_pushed out b.buffered_events e, has, h.behind);
      begun = ground (arith, start_pushed out b.buffered_events e, has);
    }

    known_or : (none_known has : Bool) → none_known ≡ false → none_known || has ≡ true → has ≡ true
    known_or none_known has h k = ground (arith, h, k)

    created_start :
        (b : AnthropicMessagesStreamBuffer)
        → any is_block_start
            (written out (b.buffered_events ++ create_content_block_start_event serde ∷ []))
          ≡ true
    unfolding create_content_block_start_event kind
    created_start b = start_pushed out b.buffered_events _ ∙ ground arith

    open-Blocks :
        (index : ℕ) (b : AnthropicMessagesStreamBuffer)
        → Blocks out b
        → Blocks out (open_content_block serde index b)
          × (any is_block_start (written out (open_content_block serde index b).buffered_events)
              ≡ true)
    unfolding open_content_block has_content_block_start_been_sent create_content_block_start_event
        set_content_block_start_sent kind
    open-Blocks index b h =
        elim (Bool-cases (any (λ i. i == index) b.content_block_start_indices)) [
          | inl sent ↦
              simp sent
                (h, known_or _ _ (any-null index b.content_block_start_indices sent) h.begun)
          | inr unsent ↦ simp unsent (
            same-Blocks out _ _ refl refl
                (start-Blocks out index (create_content_block_start_event serde) b refl h),
            created_start b,
          )
        ]

    delta-Blocks :
        (index : ℕ) (e : SseEvent) (b : AnthropicMessagesStreamBuffer)
        → Blocks out b
        → Blocks out (push_event e (open_content_block serde index b))
    delta-Blocks index e b h =
        let (opened, has) = open-Blocks index b h in
        any-Blocks e (open_content_block serde index b) has opened

    merge-Blocks :
        (e : SseEvent) (usage : MessagesUsage) (b : AnthropicMessagesStreamBuffer)
        → is_block_delta (kind e) ≡ false
        → Blocks out b
        → Blocks out (merge_or_push e usage b)
    unfolding merge_or_push written
    merge-Blocks e usage b k h = merged_or_pushed (merge_last usage b.buffered_events) refl
      where
        merged_or_pushed :
            (o : Option (List SseEvent))
            → merge_last usage b.buffered_events ≡ o
            → Blocks out (elim o [
              | some merged ↦ record b { buffered_events = merged; seen_message_delta = true }
              | none ↦ record (push_event e b) { seen_message_delta = true }
            ])
        merged_or_pushed none apart =
            same-Blocks out (push_event e b) _ refl refl (push-Blocks out e b k h)
        merged_or_pushed (some es) merged =
            let same = kinds-merge_last usage b.buffered_events merged in
            record {
              behind = ap (λ ks. follows false (out ++ ks)) same ∙ h.behind;
              begun =
                  ap (λ ks. null b.content_block_start_indices || any is_block_start (out ++ ks))
                    same
                  ∙ h.begun;
            }

    empty-Blocks :
        (b : AnthropicMessagesStreamBuffer) → Blocks out b → Blocks out (push_empty_block serde b)
    unfolding push_empty_block create_content_block_start_event create_content_block_stop_event kind
    empty-Blocks b h = elim (Bool-cases (null b.content_block_start_indices)) [
      | inl nothing ↦ simp nothing (push-Blocks out _ _ refl (start-Blocks out 0 _ b refl h))
      | inr some_block ↦ simp some_block h
    ]

    ending-Blocks :
        (b : AnthropicMessagesStreamBuffer) → Blocks out b → Blocks out (synthesize_ending serde b)
    unfolding synthesize_ending push_synthetic_message_delta kind
    ending-Blocks b h = elim (Bool-cases b.seen_message_delta) [
      | inl seen ↦ simp seen h
      | inr unseen ↦ simp unseen (
          same-Blocks out (push_event _ (push_empty_block serde b)) _ refl refl
            (push-Blocks out _ (push_empty_block serde b) refl (empty-Blocks b h)))
    ]

    handle-Blocks :
        (uuid : String) (e : SseEvent) (evt : MessagesStreamEvent)
        (b : AnthropicMessagesStreamBuffer)
        → kind e ≡ tag evt
        → Blocks out b
        → Blocks out (handle_event serde uuid e evt b)
    unfolding handle_event
    handle-Blocks uuid e (message_start m) b k h =
        same-Blocks out (push_event e b) _ refl refl (push-Blocks out e b (ap is_block_delta k) h)
    handle-Blocks uuid e (content_block_start index block) b k h =
        same-Blocks out
          (set_content_block_start_sent index (push_event e (ensure_message_started serde uuid b)))
          _ refl refl (start-Blocks out index e _ k (ensure-Blocks uuid b h))
    handle-Blocks uuid e (content_block_delta index d) b k h =
        delta-Blocks index e _ (ensure-Blocks uuid b h)
    handle-Blocks uuid e (message_delta d usage) b k h =
        merge-Blocks e usage _ (ap is_block_delta k) (close-Blocks _ (ensure-Blocks uuid b h))
    handle-Blocks uuid e (content_block_stop index) b k h =
        push-Blocks out e _ (ap is_block_delta k) (
          same-Blocks out (ensure_message_started serde uuid b) _ refl refl
            (ensure-Blocks uuid b h))
    handle-Blocks uuid e message_stop b k h =
        let ended = ending-Blocks _ (close-Blocks _ (ensure-Blocks uuid b h)) in
        same-Blocks out
          (push_event e (
            synthesize_ending serde
              (close_content_block serde (ensure_message_started serde uuid b))))
          _ refl refl (push-Blocks out e _ (ap is_block_delta k) ended)
    handle-Blocks uuid e ping b k h = push-Blocks out e b (ap is_block_delta k) h

    dispatch-Blocks :
        (uuid : String) (e : SseEvent) (r : ProviderStreamResponseType)
        (b : AnthropicMessagesStreamBuffer)
        → e.provider_stream_response ≡ some r
        → Blocks out b
        → Blocks out (dispatch serde uuid e (some r) b)
    unfolding kind
    dispatch-Blocks uuid e (messages_stream_event evt) b carries h =
        elim (Bool-cases b.message_stopped) [
          | inl over ↦ simp over h
          | inr open_message ↦ simp open_message (handle-Blocks uuid e evt b (rw carries refl) h)
        ]
    dispatch-Blocks uuid e _ b carries h = push-Blocks out e b (rw carries refl) h

    add-Blocks :
        (uuid : String) (e : SseEvent) (b : AnthropicMessagesStreamBuffer)
        → IsTranslated e
        → Blocks out b
        → Blocks out (add_transformed_event serde uuid e b)
    unfolding add_transformed_event
    add-Blocks uuid e b (r, carries) h = elim (Bool-cases (should_skip e)) [
      | inl skipped ↦ simp skipped h
      | inr kept ↦
          let (m, same) = learn_model-keeps serde e b in
          simp (kept, carries, same)
            (dispatch-Blocks uuid e r (record b { model = m }) carries
              (same-Blocks out b _ refl refl h))
    ]

    finalize-Blocks :
        (b : AnthropicMessagesStreamBuffer) → Blocks out b → Blocks out (finalize serde b)
    unfolding finalize push_message_stop kind
    finalize-Blocks b h = elim (Bool-cases b.seen_message_delta) [
      | inl seen ↦ elim (Bool-cases b.message_stopped) [
        | inl over ↦ simp (seen, over) h
        | inr unfinished ↦
            simp (seen, unfinished)
              (same-Blocks out (push_event _ b) _ refl refl (push-Blocks out _ b refl h))
      ]
      | inr unseen ↦ simp unseen h
    ]

drained-Blocks :
    (serde : Serde) (out : List Kind) (b : AnthropicMessagesStreamBuffer)
    → Blocks out (finalize serde b)
    → Blocks (out ++ kinds (finalize serde b).buffered_events) (to_bytes serde b).1
unfolding to_bytes written kinds
drained-Blocks serde out b h = record {
  behind = rw append-nil h.behind;
  begun = rw append-nil h.begun;
}

Run-Blocks :
    {serde : Serde} {out : List Kind} {b : AnthropicMessagesStreamBuffer}
    → Run serde out b
    → Blocks out b
unfolding new written follows kinds
Run-Blocks begin = record { behind = refl; begun = refl }
Run-Blocks {serde} (add {out} {b} uuid e translated r) =
    add-Blocks out serde uuid e b translated (Run-Blocks r)
Run-Blocks {serde} (flush {out} {b} r) =
    drained-Blocks serde out b (finalize-Blocks out serde b (Run-Blocks r))

start_of_follows :
    (begun : Bool) (ks ls : List Kind)
    → follows begun (ks ++ block_delta ∷ ls) ≡ true
    → begun || any is_block_start ks ≡ true
unfolding follows
start_of_follows begun [] ls h = ground (arith, h)
start_of_follows begun (block_start ∷ ks) ls h = ground (arith, start_of_follows true ks ls h)
start_of_follows begun (block_delta ∷ ks) ls h =
    start_of_follows begun ks ls (later begun (follows begun (ks ++ block_delta ∷ ls)) h)
  where
    later : (a b : Bool) → a && b ≡ true → b ≡ true
    later a b h = ground (arith, h)
start_of_follows begun (start ∷ ks) ls h = start_of_follows begun ks ls h
start_of_follows begun (block_stop ∷ ks) ls h = start_of_follows begun ks ls h
start_of_follows begun (delta ∷ ks) ls h = start_of_follows begun ks ls h
start_of_follows begun (stop ∷ ks) ls h = start_of_follows begun ks ls h
start_of_follows begun (alive ∷ ks) ls h = start_of_follows begun ks ls h
start_of_follows begun (other ∷ ks) ls h = start_of_follows begun ks ls h

-- Whatever translated events are added, and whenever the buffer is flushed: in what is written, a
-- `content_block_delta` has a `content_block_start` somewhere before it.
pub block_delta-Run :
    (serde : Serde) (out ks ls : List Kind) (b : AnthropicMessagesStreamBuffer)
    → Run serde out b
    → out ++ kinds b.buffered_events ≡ ks ++ block_delta ∷ ls
    → any is_block_start ks ≡ true
unfolding written
block_delta-Run serde out ks ls b r same =
    start_of_follows false ks ls (ap (follows false) (sym same) ∙ (Run-Blocks r).behind)
