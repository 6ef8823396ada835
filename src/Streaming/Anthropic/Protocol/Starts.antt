-- ===== src/Streaming/Anthropic/Protocol/Starts.antt =====
-- What of a stream of kinds stands behind the start of a block.
use plano.Prelude.{
  ℕ, Bool, true, false, not, ◌&&◌, ◌||◌, List, [], ◌∷◌, ◌++◌, null, any, ◌≡◌, ◌∙◌, refl, sym, ap,
  arith, map-append, append_assoc,
}
use plano.Streaming.Sse.{SseEvent}
use plano.Streaming.Anthropic.{
  AnthropicMessagesStreamBuffer, push_event, set_content_block_start_sent,
}
use plano.Streaming.Anthropic.Protocol.{
  Kind, start, block_start, block_delta, block_stop, delta, stop, alive, other, kind, kinds,
}

abbrev pub is_block_start : Kind → Bool
is_block_start block_start = true
is_block_start _ = false

abbrev pub is_block_delta : Kind → Bool
is_block_delta block_delta = true
is_block_delta _ = false

-- Whether the deltas stand behind a start, where one came before or not.
unfoldable pub follows : Bool → List Kind → Bool
follows begun [] = true
follows begun (block_start ∷ ks) = follows true ks
follows begun (block_delta ∷ ks) = begun && follows begun ks
follows begun (_ ∷ ks) = follows begun ks

has_start-push :
    (ks : List Kind) (k : Kind)
    → any is_block_start (ks ++ k ∷ []) ≡ any is_block_start ks || is_block_start k
has_start-push [] k = ground arith
has_start-push (l ∷ ks) k = ground (arith, has_start-push ks k)

follows-push :
    (begun : Bool) (ks : List Kind) (k : Kind)
    → follows begun (ks ++ k ∷ [])
      ≡ follows begun ks && (not (is_block_delta k) || (begun || any is_block_start ks))
unfolding follows
follows-push begun [] start = refl
follows-push begun [] block_start = refl
follows-push begun [] block_delta = ground arith
follows-push begun [] block_stop = refl
follows-push begun [] delta = refl
follows-push begun [] stop = refl
follows-push begun [] alive = refl
follows-push begun [] other = refl
follows-push begun (block_start ∷ ks) k = ground (arith, follows-push true ks k)
follows-push begun (block_delta ∷ ks) k = ground (arith, follows-push begun ks k)
follows-push begun (start ∷ ks) k = follows-push begun ks k
follows-push begun (block_stop ∷ ks) k = follows-push begun ks k
follows-push begun (delta ∷ ks) k = follows-push begun ks k
follows-push begun (stop ∷ ks) k = follows-push begun ks k
follows-push begun (alive ∷ ks) k = follows-push begun ks k
follows-push begun (other ∷ ks) k = follows-push begun ks k

module _ (out : List Kind) where
  -- What is written with the events that wait.
  unfoldable pub written : List SseEvent → List Kind
  written es = out ++ kinds es

  written-push :
      (es : List SseEvent) (e : SseEvent) → written (es ++ e ∷ []) ≡ written es ++ kind e ∷ []
  unfolding written kinds
  written-push es e =
      ap (λ l. out ++ l) (map-append kind es (e ∷ []))
      ∙ sym (append_assoc out (kinds es) (kind e ∷ []))

  -- The deltas written stand behind a start, and a start is written where the buffer knows one.
  pub record Blocks (b : AnthropicMessagesStreamBuffer) : Type 0 where
    pub behind : follows false (written b.buffered_events) ≡ true
    pub begun :
        null b.content_block_start_indices || any is_block_start (written b.buffered_events) ≡ true

  pub follows_pushed :
      (es : List SseEvent) (e : SseEvent)
      → follows false (written (es ++ e ∷ []))
        ≡ follows false (written es)
          && (not (is_block_delta (kind e)) || any is_block_start (written es))
  follows_pushed es e =
      ap (follows false) (written-push es e) ∙ follows-push false (written es) (kind e)

  pub start_pushed :
      (es : List SseEvent) (e : SseEvent)
      → any is_block_start (written (es ++ e ∷ []))
        ≡ any is_block_start (written es) || is_block_start (kind e)
  start_pushed es e =
      ap (any is_block_start) (written-push es e) ∙ has_start-push (written es) (kind e)

  -- An event that is no delta of a block may always be pushed.
  pub push-Blocks :
      (e : SseEvent) (b : AnthropicMessagesStreamBuffer)
      → is_block_delta (kind e) ≡ false
      → Blocks b
      → Blocks (push_event e b)
  push-Blocks e b k h = record {
    behind = ground (arith, follows_pushed b.buffered_events e, k, h.behind);
    begun = ground (arith, start_pushed b.buffered_events e, h.begun);
  }

  -- Only what is written and the blocks that are known count.
  pub same-Blocks :
      (b c : AnthropicMessagesStreamBuffer)
      → b.buffered_events ≡ c.buffered_events
      → b.content_block_start_indices ≡ c.content_block_start_indices
      → Blocks b
      → Blocks c
  same-Blocks b c events indices h = record {
    behind = ap (λ es. follows false (written es)) (sym events) ∙ h.behind;
    begun =
        ap (λ l. null l || any is_block_start (written c.buffered_events)) (sym indices)
        ∙ ap (λ es. null b.content_block_start_indices || any is_block_start (written es))
            (sym events)
        ∙ h.begun;
  }

  pub start-Blocks :
      (index : ℕ) (e : SseEvent) (b : AnthropicMessagesStreamBuffer)
      → kind e ≡ block_start
      → Blocks b
      → Blocks (set_content_block_start_sent index (push_event e b))
  unfolding set_content_block_start_sent
  start-Blocks index e b k h =
      let no_delta : is_block_delta (kind e) ≡ false = ap is_block_delta k in
      let is_start : is_block_start (kind e) ≡ true = ap is_block_start k in
      record {
        behind = ground (arith, follows_pushed b.buffered_events e, no_delta, h.behind);
        begun = ground (arith, start_pushed b.buffered_events e, is_start);
      }
