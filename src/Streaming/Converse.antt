-- ===== src/Streaming/Converse.antt =====
-- The events of a Converse stream: apis/amazon_bedrock.rs. The index of a block keeps its 32 bits,
-- which is how `as u32` reads it; what the transforms do not read is kept as its JSON text.
use plano.Prelude.{ℕ, Option, String}

pub data ConversationRole : Type 0 where
  user assistant : ConversationRole

pub data StopReason : Type 0 where
  end_turn tool_use max_tokens stop_sequence guardrail_intervened content_filtered : StopReason

pub record BedrockTokenUsage : Type 0 where
  pub input_tokens : ℕ
  pub output_tokens : ℕ
  pub total_tokens : ℕ
  pub server_tool_usage : Option String
  pub cache_read_input_tokens : Option ℕ
  pub cache_write_input_tokens : Option ℕ

pub record ToolUseStart : Type 0 where
  pub tool_use_id : String
  pub name : String

pub data ContentBlockStart : Type 0 where
  tool_use_start : ToolUseStart → ContentBlockStart

pub record ToolUseDelta : Type 0 where
  pub input : String

pub data ContentBlockDelta : Type 0 where
  text : String → ContentBlockDelta
  tool_use_delta : ToolUseDelta → ContentBlockDelta

pub record MessageStartEvent : Type 0 where
  pub role : ConversationRole

pub record ContentBlockStartEvent : Type 0 where
  pub content_block_index : ℕ
  pub start : ContentBlockStart

pub record ContentBlockDeltaEvent : Type 0 where
  pub content_block_index : ℕ
  pub delta : ContentBlockDelta

pub record ContentBlockStopEvent : Type 0 where
  pub content_block_index : ℕ

pub record MessageStopEvent : Type 0 where
  pub stop_reason : StopReason
  pub additional_model_response_fields : Option String

pub record ConverseStreamMetadataEvent : Type 0 where
  pub usage : BedrockTokenUsage
  pub metrics : Option String
  pub trace : Option String
  pub performance_config : Option String

pub data ConverseStreamEvent : Type 0 where
  message_start : MessageStartEvent → ConverseStreamEvent
  content_block_start : ContentBlockStartEvent → ConverseStreamEvent
  content_block_delta : ContentBlockDeltaEvent → ConverseStreamEvent
  content_block_stop : ContentBlockStopEvent → ConverseStreamEvent
  message_stop : MessageStopEvent → ConverseStreamEvent
  metadata : ConverseStreamMetadataEvent → ConverseStreamEvent
  internal_server_exception model_stream_error_exception service_unavailable_exception
        throttling_exception validation_exception :
      String → ConverseStreamEvent
