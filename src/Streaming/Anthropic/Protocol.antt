-- ===== src/Streaming/Anthropic/Protocol.antt =====
-- The Anthropic Messages protocol as an automaton, and what the buffer writes against it:
-- the guarantees that streaming_shapes/anthropic_streaming_buffer.rs lists for its buffer.
pub mod Steps
pub mod Handlers
pub mod Safety
pub mod Ending
pub mod Starts
pub mod Blocks
pub mod Wire
mod Examples
use mathlib.Core.Option
use plano.Prelude.{
  Bool, true, false, Option, none, some, List, [], ◌∷◌, ◌++◌, map, ◌≡◌, refl, String, arith,
  if◌then◌else◌,
}
use plano.Streaming.Sse.{
  MessagesStreamEvent, message_start, content_block_start, content_block_delta, content_block_stop,
  message_delta, message_stop, ping, ProviderStreamResponseType, messages_stream_event, SseEvent,
  is_some_text, Serde,
}
use plano.Streaming.Anthropic.{AnthropicMessagesStreamBuffer, new}
use plano.Streaming.Anthropic.Events.{add_transformed_event, finalize, to_bytes}

-- What a client sees of an event.
pub data Kind : Type 0 where
  start block_start block_delta block_stop delta stop alive other : Kind

abbrev pub tag : MessagesStreamEvent → Kind
tag (message_start m) = start
tag (content_block_start i b) = block_start
tag (content_block_delta i d) = block_delta
tag (content_block_stop i) = block_stop
tag (message_delta d u) = delta
tag message_stop = stop
tag ping = alive

abbrev pub named : Option String → Kind
named name =
    if is_some_text name "message_start"
    then start
    else if is_some_text name "content_block_start"
    then block_start
    else if is_some_text name "content_block_delta"
    then block_delta
    else if is_some_text name "content_block_stop"
    then block_stop
    else if is_some_text name "message_delta"
    then delta
    else if is_some_text name "message_stop"
    then stop
    else other

abbrev pub response_kind : Option String → Option ProviderStreamResponseType → Kind
response_kind name none = named name
response_kind name (some (messages_stream_event evt)) = tag evt
response_kind name (some _) = other

unfoldable pub kind : SseEvent → Kind
kind e = response_kind e.event e.provider_stream_response

unfoldable pub kinds : List SseEvent → List Kind
kinds = map kind

-- Before `message_start`, inside the message, after its `message_delta`, after its `message_stop`.
pub data Phase : Type 0 where
  idle opened ending closed : Phase

-- `message_delta` and block events want an open message, `message_stop` a `message_delta` before
-- it, and nothing of the protocol follows `message_stop`.
unfoldable pub step : Phase → Kind → Option Phase
step p other = some p
step idle start = some opened
step idle alive = some idle
step idle _ = none
step opened delta = some ending
step opened stop = none
step opened _ = some opened
step ending stop = some closed
step ending _ = some ending
step closed _ = none

unfoldable pub accepts : Phase → List Kind → Option Phase
accepts p [] = some p
accepts p (k ∷ ks) = Option.bind (step p k) (λ q. accepts q ks)

-- The phase that the buffer's flags stand for.
unfoldable pub phase : AnthropicMessagesStreamBuffer → Phase
phase b =
    if b.message_stopped
    then closed
    else if b.message_started
    then (if b.seen_message_delta then ending else opened)
    else idle

-- An event that the translation made: it carries the parsed response.
abbrev pub IsTranslated : SseEvent → Type 0
IsTranslated e = (r : ProviderStreamResponseType) × (e.provider_stream_response ≡ some r)

-- The runs of a buffer: `Run serde out b` says that `b` is reached with `out` flushed so far.
pub data Run (serde : Serde) : List Kind → AnthropicMessagesStreamBuffer → Type 0 where
  begin : Run serde [] new
  add :
      {out : List Kind} {b : AnthropicMessagesStreamBuffer} (uuid : String) (e : SseEvent)
      → IsTranslated e
      → Run serde out b
      → Run serde out (add_transformed_event serde uuid e b)
  flush :
      {out : List Kind} {b : AnthropicMessagesStreamBuffer}
      → Run serde out b
      → Run serde (out ++ kinds (finalize serde b).buffered_events) (to_bytes serde b).1
