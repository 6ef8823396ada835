-- ===== src/Requests.antt =====
-- Requests: the chat completions request of apis/openai.rs with its methods. A JSON value, a map of
-- them and an f32 are kept as the texts that print them.
pub mod Messages
pub mod Converse
pub mod FromMessages
pub mod FromChat
pub mod Responses
pub mod ResponsesTools
pub mod FromResponses
pub mod Provider
mod Examples
use plano.Prelude.{
  ℕ, Bool, ◌||◌, Option, none, some, List, [], ◌∷◌, String, str_eq, starts_with, if◌then◌else◌,
}
use plano.Streaming.Chat.{Role, FunctionCall}
use plano.Completions.{ToolCall}
use plano.Completions.Transforms.{join_parts}

pub record ImageUrl : Type 0 where
  pub url : String
  pub detail : Option String

pub data ContentPart : Type 0 where
  text : String → ContentPart
  image_url : ImageUrl → ContentPart

pub data MessageContent : Type 0 where
  text : String → MessageContent
  parts : List ContentPart → MessageContent

pub record Message : Type 0 where
  pub role : Role
  pub content : Option MessageContent
  pub name : Option String
  pub tool_calls : Option (List ToolCall)
  pub tool_call_id : Option String

pub record Function : Type 0 where
  pub name : String
  pub description : Option String
  pub parameters : String
  pub strict : Option Bool

pub record Tool : Type 0 where
  pub tool_type : String
  pub function : Function

pub data ToolChoiceType : Type 0 where
  auto required never : ToolChoiceType

-- A function's choice has its type and the function's name.
pub data ToolChoice : Type 0 where
  of_type : ToolChoiceType → ToolChoice
  function : (choice_type name : String) → ToolChoice

pub record StreamOptions : Type 0 where
  pub include_usage : Option Bool

pub record ChatCompletionsRequest : Type 0 where
  pub messages : List Message
  pub model : String
  pub frequency_penalty : Option String
  pub function_call : Option String
  pub functions : Option (List Tool)
  pub logit_bias : Option String
  pub logprobs : Option Bool
  pub max_completion_tokens : Option ℕ
  pub max_tokens : Option ℕ
  pub modalities : Option (List String)
  pub metadata : Option (List (String × String))
  pub n : Option ℕ
  pub presence_penalty : Option String
  pub parallel_tool_calls : Option Bool
  pub prediction : Option String
  pub response_format : Option String
  pub reasoning_effort : Option String
  pub seed : Option ℕ
  pub service_tier : Option String
  pub stop : Option (List String)
  pub store : Option Bool
  pub stream : Option Bool
  pub stream_options : Option StreamOptions
  pub temperature : Option String
  pub tool_choice : Option ToolChoice
  pub tools : Option (List Tool)
  pub top_p : Option String
  pub top_logprobs : Option ℕ
  pub user : Option String
  pub web_search_options : Option String
  pub top_k : Option ℕ
  pub stop_token_ids : Option (List ℕ)
  pub continue_final_message : Option Bool
  pub add_generation_prompt : Option Bool

-- `ChatCompletionsRequest::default()`
abbrev pub default_request : ChatCompletionsRequest
default_request = record {
  messages = [];
  model = "";
  frequency_penalty = none;
  function_call = none;
  functions = none;
  logit_bias = none;
  logprobs = none;
  max_completion_tokens = none;
  max_tokens = none;
  modalities = none;
  metadata = none;
  n = none;
  presence_penalty = none;
  parallel_tool_calls = none;
  prediction = none;
  response_format = none;
  reasoning_effort = none;
  seed = none;
  service_tier = none;
  stop = none;
  store = none;
  stream = none;
  stream_options = none;
  temperature = none;
  tool_choice = none;
  tools = none;
  top_p = none;
  top_logprobs = none;
  user = none;
  web_search_options = none;
  top_k = none;
  stop_token_ids = none;
  continue_final_message = none;
  add_generation_prompt = none;
}

abbrev pub is_o3 : String → Bool
is_o3 model =
    str_eq model "o3"
    || starts_with model "o3-"
    || str_eq model "openrouter/o3"
    || starts_with model "openrouter/o3-"

unfoldable pub suppress_max_tokens_if_o3 : ChatCompletionsRequest → ChatCompletionsRequest
suppress_max_tokens_if_o3 req = if is_o3 req.model then record req { max_tokens = none } else req

unfoldable pub fix_temperature_if_gpt5 : ChatCompletionsRequest → ChatCompletionsRequest
fix_temperature_if_gpt5 req =
    if starts_with req.model "gpt-5" then record req { temperature = some "1.0" } else req

-- Clearing a field that is not set leaves it as it is, so the tests before it are left out.
unfoldable pub normalize_for_kimi_code_api : ChatCompletionsRequest → ChatCompletionsRequest
normalize_for_kimi_code_api req = record req {
  stream_options = none;
  reasoning_effort = none;
  web_search_options = none;
  service_tier = none;
  store = none;
}

unfoldable pub is_kimi_code_model : String → Bool
is_kimi_code_model model = str_eq model "kimi-for-coding"

-- `extract_text` of the parts, of a content and of an optional content
unfoldable pub part_texts : List ContentPart → List String
part_texts [] = []
part_texts (ContentPart.text t ∷ ps) = t ∷ part_texts ps
part_texts (ContentPart.image_url image ∷ ps) = part_texts ps

unfoldable pub content_text : MessageContent → String
unfolding part_texts
content_text (MessageContent.text t) = t
content_text (MessageContent.parts ps) = join_parts (part_texts ps)

unfoldable pub extract_text : Option MessageContent → String
extract_text none = ""
extract_text (some content) = content_text content

-- A message without a name.
abbrev pub plain_message :
    Role → Option MessageContent → Option (List ToolCall) → Option String → Message
plain_message role content tool_calls tool_call_id = record {
  role = role;
  content = content;
  name = none;
  tool_calls = tool_calls;
  tool_call_id = tool_call_id;
}
