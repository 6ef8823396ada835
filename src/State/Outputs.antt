-- ===== src/State/Outputs.antt =====
-- What a response's output becomes in the next request: transforms/response/output_to_input.rs and
-- the output items of apis/openai_responses.rs. Lists of annotations, results and the like stand as
-- the texts of their members.
use plano.Prelude.{Option, none, some, List, [], ◌∷◌, String, ◌<>◌, str_eq, null, if◌then◌else◌}
use plano.State.{
  MessageRole, user, assistant, system, developer, InputContent, input_text, input_audio,
  MessageContent, InputItem, message,
}

pub data OutputItemStatus : Type 0 where
  in_progress : OutputItemStatus
  completed : OutputItemStatus
  incomplete : OutputItemStatus

pub data OutputContent : Type 0 where
  output_text :
      (words : String) (annotations : List String) (logprobs : Option (List String)) → OutputContent
  output_audio : (data_text transcript : Option String) → OutputContent
  refusal : String → OutputContent

pub data OutputItem : Type 0 where
  output_message :
      (id : String) (status : OutputItemStatus) (role : String) (content : List OutputContent)
      → OutputItem
  output_function_call :
      (id : String) (status : OutputItemStatus) (call_id : String) (name arguments : Option String)
      → OutputItem
  output_function_call_output :
      (id call_id output : String) (status : Option OutputItemStatus) → OutputItem
  file_search_call :
      (id : String) (status : OutputItemStatus) (queries results : Option (List String))
      → OutputItem
  web_search_call : (id : String) (status : OutputItemStatus) → OutputItem
  code_interpreter_call :
      (id : String) (status : OutputItemStatus) (code : Option String)
      (outputs : Option (List String))
      → OutputItem
  computer_call : (id : String) (status : OutputItemStatus) (action : Option String) → OutputItem
  computer_call_output :
      (id call_id : String) (output : Option String) (status : Option OutputItemStatus) → OutputItem
  custom_tool_call :
      (id : String) (status : OutputItemStatus) (call_id : String) (input : Option String)
      → OutputItem
  custom_tool_call_output :
      (id call_id output : String) (status : Option OutputItemStatus) → OutputItem
  reasoning : (id : String) (summary : List String) → OutputItem

-- The `filter_map` over the content of a message.
unfoldable pub input_contents : List OutputContent → List InputContent
input_contents [] = []
input_contents (output_text t annotations logprobs ∷ cs) = input_text t ∷ input_contents cs
input_contents (output_audio d transcript ∷ cs) = input_audio d none ∷ input_contents cs
input_contents (refusal r ∷ cs) = input_contents cs

abbrev pub message_role : String → MessageRole
message_role role =
    if str_eq role "user"
    then user
    else if str_eq role "assistant"
    then assistant
    else if str_eq role "system"
    then system
    else if str_eq role "developer"
    then developer
    else assistant

abbrev pub message_of : MessageRole → List InputContent → InputItem
message_of role content = message (record { role = role; content = MessageContent.items content })

abbrev pub tool_call_text : Option String → Option String → String
tool_call_text (some n) (some args) = "Called function: " <> (n <> (" with arguments: " <> args))
tool_call_text _ _ = "Called a function"

unfoldable pub convert_responses_output_to_input_items : OutputItem → Option InputItem
convert_responses_output_to_input_items (output_message id status role content) =
    let input_content = input_contents content in
    if null input_content then none else some (message_of (message_role role) input_content)
convert_responses_output_to_input_items (output_function_call id status call_id name arguments) =
    some (message_of assistant (input_text (tool_call_text name arguments) ∷ []))
convert_responses_output_to_input_items _ = none

abbrev pub push : Option InputItem → List InputItem → List InputItem
push (some item) items = item ∷ items
push none items = items

unfoldable pub outputs_to_inputs : List OutputItem → List InputItem
outputs_to_inputs [] = []
outputs_to_inputs (o ∷ os) = push (convert_responses_output_to_input_items o) (outputs_to_inputs os)
