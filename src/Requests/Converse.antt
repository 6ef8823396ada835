-- ===== src/Requests/Converse.antt =====
-- The request of the Converse API: apis/amazon_bedrock.rs. What the transforms do not set is kept as
-- its JSON text.
use plano.Prelude.{ℕ, Bool, Option, none, List, String}
use plano.Completions.{ConverseMessage}

-- Of a guarded text only the text is read.
pub data SystemContentBlock : Type 0 where
  text : String → SystemContentBlock
  guard_content : Option String → SystemContentBlock

pub record InferenceConfiguration : Type 0 where
  pub max_tokens : Option ℕ
  pub temperature : Option String
  pub top_p : Option String
  pub stop_sequences : Option (List String)

-- `Tool::ToolSpec`, with the JSON of its input schema.
pub record ToolSpecDefinition : Type 0 where
  pub name : String
  pub description : Option String
  pub input_schema : String

pub data BedrockToolChoice : Type 0 where
  auto anything : BedrockToolChoice
  tool : String → BedrockToolChoice

pub record ToolConfiguration : Type 0 where
  pub tools : Option (List ToolSpecDefinition)
  pub tool_choice : Option BedrockToolChoice

pub record ConverseRequest : Type 0 where
  pub model_id : String
  pub messages : Option (List ConverseMessage)
  pub system_blocks : Option (List SystemContentBlock)
  pub inference_config : Option InferenceConfiguration
  pub tool_config : Option ToolConfiguration
  pub guardrail_config : Option String
  pub additional_model_request_fields : Option String
  pub additional_model_response_field_paths : Option (List String)
  pub performance_config : Option InferenceConfiguration
  pub prompt_variables : Option String
  pub request_metadata : Option String
  pub metadata : Option (List (String × String))
  pub stream : Bool

-- A request with what the transforms set.
abbrev pub converse_request :
    String
    → Option (List ConverseMessage)
    → Option (List SystemContentBlock)
    → Option InferenceConfiguration
    → Option ToolConfiguration
    → Bool
    → ConverseRequest
converse_request model messages system_blocks inference_config tool_config stream = record {
  model_id = model;
  messages = messages;
  system_blocks = system_blocks;
  inference_config = inference_config;
  tool_config = tool_config;
  guardrail_config = none;
  additional_model_request_fields = none;
  additional_model_response_field_paths = none;
  performance_config = none;
  prompt_variables = none;
  request_metadata = none;
  metadata = none;
  stream = stream;
}
