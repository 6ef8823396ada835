-- ===== src/Streaming/ResponsesApi.antt =====
-- The responses and stream events of apis/openai_responses.rs. The fields of a response that the
-- stream code only copies stand as their JSON text.
use plano.Prelude.{ℕ, Option, List, String, ◌<>◌}
use plano.State.Outputs.{OutputItem, OutputContent}

pub data ResponseStatus : Type 0 where
  completed failed in_progress cancelled queued incomplete : ResponseStatus

pub record ResponsesApiResponse : Type 0 where
  pub id : String
  pub object : String
  pub created_at : ℕ
  pub status : ResponseStatus
  pub model : String
  pub output : List OutputItem
  pub settings : String

pub data ResponsesApiStreamEvent : Type 0 where
  response_created response_in_progress response_completed :
      (response : ResponsesApiResponse) (sequence_number : ℕ) → ResponsesApiStreamEvent
  response_output_item_added response_output_item_done :
      (output_index : ℕ) (item : OutputItem) (sequence_number : ℕ) → ResponsesApiStreamEvent
  response_content_part_added response_content_part_done :
      (item_id : String) (output_index content_index : ℕ) (part : OutputContent)
      (sequence_number : ℕ)
      → ResponsesApiStreamEvent
  response_output_text_delta :
      (item_id : String) (output_index content_index : ℕ) (delta : String) (logprobs : List String)
      (obfuscation : Option String) (sequence_number : ℕ)
      → ResponsesApiStreamEvent
  response_output_text_done :
      (item_id : String) (output_index content_index : ℕ) (words : String) (logprobs : List String)
      (sequence_number : ℕ)
      → ResponsesApiStreamEvent
  response_audio_delta response_audio_transcript_delta :
      (item_id : Option String) (output_index content_index : Option ℕ) (delta : String)
      (sequence_number : ℕ)
      → ResponsesApiStreamEvent
  response_audio_done :
      (item_id : Option String) (output_index content_index : Option ℕ) (sequence_number : ℕ)
      → ResponsesApiStreamEvent
  response_audio_transcript_done :
      (item_id : Option String) (output_index content_index : Option ℕ) (transcript : Option String)
      (sequence_number : ℕ)
      → ResponsesApiStreamEvent
  response_function_call_arguments_delta :
      (output_index : ℕ) (item_id delta : String) (sequence_number : ℕ)
      (call_id name : Option String)
      → ResponsesApiStreamEvent
  response_function_call_arguments_done :
      (output_index : ℕ) (item_id arguments : String) (sequence_number : ℕ)
      → ResponsesApiStreamEvent
  response_code_interpreter_call_code_delta response_code_interpreter_call_code_done
        response_custom_tool_call_input_delta response_custom_tool_call_input_done :
      (output_index : ℕ) (item_id words : String) (sequence_number : ℕ) → ResponsesApiStreamEvent
  response_code_interpreter_call_in_progress response_code_interpreter_call_interpreting
        response_code_interpreter_call_completed :
      (output_index : ℕ) (item_id : String) (sequence_number : ℕ) → ResponsesApiStreamEvent
  error : (code message : String) (sequence_number : ℕ) → ResponsesApiStreamEvent
  done : (sequence_number : ℕ) → ResponsesApiStreamEvent

abbrev pub wire_type : ResponsesApiStreamEvent → String
wire_type (response_created r n) = "response.created"
wire_type (response_in_progress r n) = "response.in_progress"
wire_type (response_completed r n) = "response.completed"
wire_type (response_output_item_added i t n) = "response.output_item.added"
wire_type (response_output_item_done i t n) = "response.output_item.done"
wire_type (response_content_part_added i o c p n) = "response.content_part.added"
wire_type (response_content_part_done i o c p n) = "response.content_part.done"
wire_type (response_output_text_delta i o c d l f n) = "response.output_text.delta"
wire_type (response_output_text_done i o c t l n) = "response.output_text.done"
wire_type (response_audio_delta i o c d n) = "response.audio.delta"
wire_type (response_audio_transcript_delta i o c d n) = "response.audio_transcript.delta"
wire_type (response_audio_done i o c n) = "response.audio.done"
wire_type (response_audio_transcript_done i o c t n) = "response.audio_transcript.done"
wire_type (response_function_call_arguments_delta o i d n c m) =
    "response.function_call_arguments.delta"
wire_type (response_function_call_arguments_done o i a n) = "response.function_call_arguments.done"
wire_type (response_code_interpreter_call_code_delta o i w n) =
    "response.code_interpreter_call.code.delta"
wire_type (response_code_interpreter_call_code_done o i w n) =
    "response.code_interpreter_call.code.done"
wire_type (response_custom_tool_call_input_delta o i w n) = "response.custom_tool_call.input.delta"
wire_type (response_custom_tool_call_input_done o i w n) = "response.custom_tool_call.input.done"
wire_type (response_code_interpreter_call_in_progress o i n) =
    "response.code_interpreter_call.in_progress"
wire_type (response_code_interpreter_call_interpreting o i n) =
    "response.code_interpreter_call.interpreting"
wire_type (response_code_interpreter_call_completed o i n) =
    "response.code_interpreter_call.completed"
wire_type (error c m n) = "error"
wire_type (done n) = "done"

-- `From<ResponsesAPIStreamEvent> for String`; `to_json` is serde_json.
unfoldable pub to_sse_string : (ResponsesApiStreamEvent → String) → ResponsesApiStreamEvent → String
to_sse_string to_json val = "event: " <> (wire_type val <> ("\ndata: " <> (to_json val <> "\n\n")))
