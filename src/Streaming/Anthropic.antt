-- ===== src/Streaming/Anthropic.antt =====
-- The buffer that keeps a translated stream in the Anthropic Messages protocol:
-- streaming_shapes/anthropic_streaming_buffer.rs.
pub mod Events
pub mod Protocol
use plano.Prelude.{
  ℕ, ◌==◌, Bool, true, false, Option, none, some, List, [], ◌∷◌, ◌++◌, any, String, ◌<>◌,
  if◌then◌else◌,
}
use mathlib.Core.Option
use plano.Streaming.Sse.{
  MessagesUsage, end_turn, assistant, text, MessagesStreamEvent, message_start, content_block_start,
  content_block_stop, message_delta, message_stop, ProviderStreamResponseType,
  messages_stream_event, SseEvent, Serde, to_sse_string,
}

pub record AnthropicMessagesStreamBuffer : Type 0 where
  pub buffered_events : List SseEvent
  pub message_started : Bool
  pub message_stopped : Bool
  -- a `HashSet<i32>`: the list is read by membership alone, and an index stands for its bits
  pub content_block_start_indices : List ℕ
  pub needs_content_block_stop : Bool
  pub seen_message_delta : Bool
  pub model : Option String

unfoldable pub new : AnthropicMessagesStreamBuffer
new = record {
  buffered_events = [];
  message_started = false;
  message_stopped = false;
  content_block_start_indices = [];
  needs_content_block_stop = false;
  seen_message_delta = false;
  model = none;
}

-- `self.buffered_events.push(event)`
abbrev pub push_event : SseEvent → AnthropicMessagesStreamBuffer → AnthropicMessagesStreamBuffer
push_event e b = record b { buffered_events = b.buffered_events ++ e ∷ [] }

abbrev pub no_usage : MessagesUsage
no_usage = record {
  input_tokens = 0;
  output_tokens = 0;
  cache_creation_input_tokens = none;
  cache_read_input_tokens = none;
}

-- An event that the buffer makes itself.
abbrev pub injected :
    Serde → String → Option ProviderStreamResponseType → MessagesStreamEvent → SseEvent
injected serde name response evt = record {
  data_field = none;
  event = some name;
  raw_line = to_sse_string serde evt;
  sse_transformed_lines = to_sse_string serde evt;
  provider_stream_response = response;
}

unfoldable pub has_content_block_start_been_sent : ℕ → AnthropicMessagesStreamBuffer → Bool
has_content_block_start_been_sent index b = any (λ i. i == index) b.content_block_start_indices

unfoldable pub set_content_block_start_sent :
    ℕ → AnthropicMessagesStreamBuffer → AnthropicMessagesStreamBuffer
set_content_block_start_sent index b = record b {
  content_block_start_indices = index ∷ b.content_block_start_indices;
}

module _ (serde : Serde) where
  unfoldable pub create_content_block_start_event : SseEvent
  create_content_block_start_event =
      injected serde "content_block_start" none (content_block_start 0 (text ""))

  -- `uuid` is the fresh identifier, its dashes dropped.
  unfoldable pub create_message_start_event : String → String → SseEvent
  create_message_start_event uuid model = injected serde "message_start" none (
      message_start (record {
        id = "msg_" <> uuid;
        obj_type = "message";
        role = assistant;
        content = [];
        model = model;
        stop_reason = none;
        stop_sequence = none;
        usage = no_usage;
      }))

  unfoldable pub create_content_block_stop_event : SseEvent
  create_content_block_stop_event = injected serde "content_block_stop" none (content_block_stop 0)

  unfoldable pub ensure_message_started :
      String → AnthropicMessagesStreamBuffer → AnthropicMessagesStreamBuffer
  ensure_message_started uuid b =
      if b.message_started
      then b
      else record (push_event (create_message_start_event uuid (Option.get_or b.model "unknown"))
          b) { message_started = true }

  -- The event of `push_synthetic_message_delta`.
  abbrev pub synthetic_delta : SseEvent
  synthetic_delta =
      let evt : MessagesStreamEvent =
        message_delta (record { stop_reason = end_turn; stop_sequence = none }) no_usage in
      injected serde "message_delta" (some (messages_stream_event evt)) evt

  unfoldable pub push_synthetic_message_delta :
      AnthropicMessagesStreamBuffer → AnthropicMessagesStreamBuffer
  push_synthetic_message_delta b = record (push_event synthetic_delta b) {
    seen_message_delta = true;
  }

  -- The event of `push_message_stop`.
  abbrev pub stop_event : SseEvent
  stop_event = injected serde "message_stop" none message_stop

  unfoldable pub push_message_stop : AnthropicMessagesStreamBuffer → AnthropicMessagesStreamBuffer
  push_message_stop b =
      if b.message_stopped
      then b
      else record (push_event stop_event b) { message_stopped = true; seen_message_delta = false }
