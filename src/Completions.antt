-- ===== src/Completions.antt =====
-- Complete responses and their translation: transforms/response of crates/hermesllm, with the helpers
-- of transforms/lib.rs. A JSON value is kept as the text that prints it.
pub mod Transforms
pub mod RoundTrip
mod Examples
use plano.Prelude.{ℕ, Option, List, String}
use plano.Streaming.Chat.{Role, FinishReason, FunctionCall, Usage}
use plano.Streaming.Converse.{ConversationRole, StopReason, BedrockTokenUsage}
use plano.Streaming.Sse.{MessagesContentBlock, MessagesRole, MessagesStopReason, MessagesUsage}

pub record MessagesResponse : Type 0 where
  pub id : String
  pub obj_type : String
  pub role : MessagesRole
  pub content : List MessagesContentBlock
  pub model : String
  pub stop_reason : MessagesStopReason
  pub stop_sequence : Option String
  pub usage : MessagesUsage
  pub container : Option String

pub record ToolCall : Type 0 where
  pub id : String
  pub call_type : String
  pub function : FunctionCall

pub record ResponseMessage : Type 0 where
  pub role : Role
  pub content : Option String
  pub refusal : Option String
  pub annotations : Option (List String)
  pub audio : Option String
  pub function_call : Option FunctionCall
  pub tool_calls : Option (List ToolCall)

pub record Choice : Type 0 where
  pub index : ℕ
  pub message : ResponseMessage
  pub finish_reason : Option FinishReason
  pub logprobs : Option String

pub record ChatCompletionsResponse : Type 0 where
  pub id : String
  pub object : Option String
  pub created : ℕ
  pub model : String
  pub choices : List Choice
  pub usage : Usage
  pub system_fingerprint : Option String
  pub service_tier : Option String
  pub metadata : Option String

pub record ToolUseBlock : Type 0 where
  pub tool_use_id : String
  pub name : String
  pub input : String

pub data ImageSource : Type 0 where
  base64 : (media_type base64_data : String) → ImageSource

pub data ToolResultStatus : Type 0 where
  success error : ToolResultStatus

pub data ToolResultContentBlock : Type 0 where
  text : String → ToolResultContentBlock
  image : ImageSource → ToolResultContentBlock
  json : String → ToolResultContentBlock

pub record ToolResultBlock : Type 0 where
  pub tool_use_id : String
  pub content : List ToolResultContentBlock
  pub status : Option ToolResultStatus

-- A document is not read, and is kept as its JSON text; of a guarded text only the text is read.
pub data ContentBlock : Type 0 where
  text : String → ContentBlock
  tool_use : ToolUseBlock → ContentBlock
  image : ImageSource → ContentBlock
  document : String → ContentBlock
  tool_result : ToolResultBlock → ContentBlock
  guard_content : Option String → ContentBlock

-- The message of a response's output.
pub record ConverseMessage : Type 0 where
  pub role : ConversationRole
  pub content : List ContentBlock

-- The model that a prompt router of the trace names, and the fields that are not read.
pub record ConverseResponse : Type 0 where
  pub output : ConverseMessage
  pub stop_reason : StopReason
  pub usage : BedrockTokenUsage
  pub invoked_model_id : Option String
  pub rest : String
