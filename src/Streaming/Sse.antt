-- ===== src/Streaming/Sse.antt =====
-- The events of a stream: streaming_shapes/sse.rs, and the types of apis/anthropic.rs and
-- providers/streaming_response.rs that they carry.
use plano.Prelude.{
  ℕ, Bool, false, ◌||◌, Option, none, some, List, String, str_eq, ◌<>◌, ends_with, if◌then◌else◌,
}
use plano.Streaming.ResponsesApi.{ResponsesApiStreamEvent}
use plano.Streaming.Chat.{ChatCompletionsStreamResponse}
use plano.Streaming.Converse.{ConverseStreamEvent}

pub record MessagesUsage : Type 0 where
  pub input_tokens : ℕ
  pub output_tokens : ℕ
  pub cache_creation_input_tokens : Option ℕ
  pub cache_read_input_tokens : Option ℕ

pub data MessagesStopReason : Type 0 where
  end_turn max_tokens stop_sequence tool_use pause_turn refusal : MessagesStopReason

pub data MessagesRole : Type 0 where
  user assistant system : MessagesRole

pub record MessagesMessageDelta : Type 0 where
  pub stop_reason : MessagesStopReason
  pub stop_sequence : Option String

pub data MessagesContentDelta : Type 0 where
  text_delta input_json_delta thinking_delta signature_delta : String → MessagesContentDelta

pub data MessagesImageSource : Type 0 where
  base64 : (media_type base64_data : String) → MessagesImageSource
  url : String → MessagesImageSource

-- A block inside the result of a tool: a text, or what is not read, kept as its JSON text.
pub data ResultBlock : Type 0 where
  text other_block : String → ResultBlock

pub data ToolResultContent : Type 0 where
  text : String → ToolResultContent
  blocks : List ResultBlock → ToolResultContent

-- The blocks that the transforms build or read: a text, an image, the uses of a tool by their
-- identifier, name and input's JSON text, the results by their identifier, error flag and content,
-- and a thought with its signature. A document or an upload is handed through unread, and is kept as
-- its JSON text; cache controls are not read.
pub data MessagesContentBlock : Type 0 where
  text other_block : String → MessagesContentBlock
  tool_use_block server_tool_use_block mcp_tool_use_block :
      String → String → String → MessagesContentBlock
  thinking_block : String → Option String → MessagesContentBlock
  image_block : MessagesImageSource → MessagesContentBlock
  tool_result_block : String → Option Bool → ToolResultContent → MessagesContentBlock
  web_search_tool_result_block code_execution_tool_result_block mcp_tool_result_block :
      String → Option Bool → List ResultBlock → MessagesContentBlock

-- The initial content is a list of JSON values, kept as their texts.
pub record MessagesStreamMessage : Type 0 where
  pub id : String
  pub obj_type : String
  pub role : MessagesRole
  pub content : List String
  pub model : String
  pub stop_reason : Option MessagesStopReason
  pub stop_sequence : Option String
  pub usage : MessagesUsage

pub data MessagesStreamEvent : Type 0 where
  message_start : MessagesStreamMessage → MessagesStreamEvent
  content_block_start : ℕ → MessagesContentBlock → MessagesStreamEvent
  content_block_delta : ℕ → MessagesContentDelta → MessagesStreamEvent
  content_block_stop : ℕ → MessagesStreamEvent
  message_delta : MessagesMessageDelta → MessagesUsage → MessagesStreamEvent
  message_stop ping : MessagesStreamEvent

pub data ProviderStreamResponseType : Type 0 where
  messages_stream_event : MessagesStreamEvent → ProviderStreamResponseType
  chat_completions_stream_response : ChatCompletionsStreamResponse → ProviderStreamResponseType
  converse_stream_event : ConverseStreamEvent → ProviderStreamResponseType
  response_api_stream_event : ResponsesApiStreamEvent → ProviderStreamResponseType

pub record SseEvent : Type 0 where
  pub data_field : Option String
  pub event : Option String
  pub raw_line : String
  pub sse_transformed_lines : String
  pub provider_stream_response : Option ProviderStreamResponseType

-- `o == Some(s.into())`
abbrev pub is_some_text : Option String → String → Bool
is_some_text none s = false
is_some_text (some t) s = str_eq t s

unfoldable pub is_done : SseEvent → Bool
is_done e = is_some_text e.data_field "[DONE]" || is_some_text e.event "message_stop"

unfoldable pub should_skip : SseEvent → Bool
should_skip e = is_some_text e.data_field "{\"type\": \"ping\"}"

-- What serde_json does for the stream code: printing an event's JSON, and reading the "model"
-- field of a JSON text.
pub record Serde : Type 0 where
  pub to_json : MessagesStreamEvent → String
  pub model_of_json : String → Option String

abbrev event_type : MessagesStreamEvent → String
event_type (message_start m) = "message_start"
event_type (content_block_start i b) = "content_block_start"
event_type (content_block_delta i d) = "content_block_delta"
event_type (content_block_stop i) = "content_block_stop"
event_type (message_delta d u) = "message_delta"
event_type message_stop = "message_stop"
event_type ping = "ping"

-- `From<MessagesStreamEvent> for String`
unfoldable pub to_sse_string : Serde → MessagesStreamEvent → String
to_sse_string serde evt =
    ("event: " <> (event_type evt <> "\n")) <> ("data: " <> (serde.to_json evt <> "\n\n"))

-- `From<SseEvent> for Vec<u8>`; the bytes are those of the text.
unfoldable pub to_wire : SseEvent → String
unfolding ends_with
to_wire e =
    if ends_with e.sse_transformed_lines "\n\n"
    then e.sse_transformed_lines
    else e.sse_transformed_lines <> "\n\n"
