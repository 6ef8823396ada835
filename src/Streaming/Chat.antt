-- ===== src/Streaming/Chat.antt =====
-- The chunks of a streamed chat completion: apis/openai.rs. A JSON value is kept as its text.
use plano.Prelude.{ℕ, Option, List, String}

pub data Role : Type 0 where
  system user assistant tool developer : Role

pub data FinishReason : Type 0 where
  stop length tool_calls content_filter function_call : FinishReason

pub record PromptTokensDetails : Type 0 where
  pub cached_tokens : Option ℕ
  pub audio_tokens : Option ℕ

pub record CompletionTokensDetails : Type 0 where
  pub reasoning_tokens : Option ℕ
  pub audio_tokens : Option ℕ
  pub accepted_prediction_tokens : Option ℕ
  pub rejected_prediction_tokens : Option ℕ

pub record Usage : Type 0 where
  pub prompt_tokens : ℕ
  pub completion_tokens : ℕ
  pub total_tokens : ℕ
  pub prompt_tokens_details : Option PromptTokensDetails
  pub completion_tokens_details : Option CompletionTokensDetails

pub record FunctionCall : Type 0 where
  pub name : String
  pub arguments : String

pub record FunctionCallDelta : Type 0 where
  pub name : Option String
  pub arguments : Option String

pub record ToolCallDelta : Type 0 where
  pub index : ℕ
  pub id : Option String
  pub call_type : Option String
  pub function : Option FunctionCallDelta

pub record MessageDelta : Type 0 where
  pub role : Option Role
  pub content : Option String
  pub refusal : Option String
  pub function_call : Option FunctionCall
  pub tool_calls : Option (List ToolCallDelta)

pub record StreamChoice : Type 0 where
  pub index : ℕ
  pub delta : MessageDelta
  pub finish_reason : Option FinishReason
  pub logprobs : Option String

pub record ChatCompletionsStreamResponse : Type 0 where
  pub id : String
  pub object : Option String
  pub created : ℕ
  pub model : String
  pub choices : List StreamChoice
  pub usage : Option Usage
  pub system_fingerprint : Option String
  pub service_tier : Option String
