-- ===== src/Requests/Responses.antt =====
-- The request of the Responses API: apis/openai_responses.rs. The 32 bits of a number are kept, and
-- what the transforms do not read is kept as its JSON text.
use plano.Prelude.{ℕ, Bool, Option, List, String}
use plano.State.{InputParam}
use plano.Requests.{StreamOptions}

pub data Modality : Type 0 where
  text audio : Modality

pub data ReasoningEffort : Type 0 where
  low medium high : ReasoningEffort

pub record UserLocation : Type 0 where
  pub location_type : String
  pub city : Option String
  pub country : Option String
  pub region : Option String
  pub timezone : Option String

-- The fields of a file search and of a computer are not read.
pub data ResponsesTool : Type 0 where
  function :
      (name : String) (description parameters : Option String) (strict : Option Bool)
      → ResponsesTool
  web_search_preview :
      (domains : Option (List String)) (search_context_size : Option String)
      (user_location : Option UserLocation)
      → ResponsesTool
  custom : (name description format : Option String) → ResponsesTool
  file_search computer : String → ResponsesTool
  code_interpreter : ResponsesTool

pub data ResponsesToolChoice : Type 0 where
  of_text : String → ResponsesToolChoice
  named : (tool_type name : String) → ResponsesToolChoice

pub record ResponsesApiRequest : Type 0 where
  pub model : String
  pub input : InputParam
  pub include : Option String
  pub parallel_tool_calls : Option Bool
  pub store : Option Bool
  pub instructions : Option String
  pub stream : Option Bool
  pub stream_options : Option StreamOptions
  pub conversation : Option String
  pub tools : Option (List ResponsesTool)
  pub tool_choice : Option ResponsesToolChoice
  pub max_output_tokens : Option ℕ
  pub temperature : Option String
  pub top_p : Option String
  pub metadata : Option (List (String × String))
  pub previous_response_id : Option String
  pub modalities : Option (List Modality)
  pub audio : Option String
  pub text : Option String
  pub reasoning_effort : Option ReasoningEffort
  pub truncation : Option String
  pub user : Option String
  pub max_tool_calls : Option ℕ
  pub service_tier : Option String
  pub background : Option Bool
  pub top_logprobs : Option ℕ
