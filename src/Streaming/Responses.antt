-- ===== src/Streaming/Responses.antt =====
-- The buffer of Responses API streams: streaming_shapes/responses_api_streaming_buffer.rs. A method
-- works on the buffer and on the events that it makes, which are rendered at its end.
pub mod Finalize
pub mod Events
pub mod Lifecycle
pub mod Runs
pub mod Contents
pub mod Delivery
mod Examples
use plano.Prelude.{
  ℕ, ◌+◌, Bool, true, false, Option, none, some, List, [], ◌∷◌, ◌++◌, map, String, ◌<>◌, get,
  insert, number_key, string_key, if◌then◌else◌,
}
use plano.State.Outputs.{OutputItem, OutputItemStatus, output_message, output_function_call}
use plano.Streaming.ResponsesApi.{
  ResponseStatus, ResponsesApiResponse, ResponsesApiStreamEvent, response_created,
  response_in_progress, response_completed, response_output_item_added, response_output_item_done,
  response_output_text_delta, response_output_text_done, response_function_call_arguments_delta,
  response_function_call_arguments_done, to_sse_string,
}
use plano.Streaming.Sse.{SseEvent}

-- What a call takes from outside: the time, fresh identifiers for the places that make one, and
-- the order in which a `HashMap` of texts is walked.
pub record Outside : Type 0 where
  pub now : ℕ
  pub response_uuid : String
  pub item_uuid : String
  pub added_call_uuid : String
  pub done_call_uuid : String → String
  pub output_call_uuid : ℕ → String
  pub walk : List (String × String) → List (String × String)
  pub to_json : ResponsesApiStreamEvent → String

pub record ResponsesApiStreamBuffer : Type 0 where
  pub sequence_number : ℕ
  pub item_ids : List (ℕ × String)
  pub response_id : Option String
  pub model : Option String
  pub created_at : Option ℕ
  pub upstream_response_metadata : Option ResponsesApiResponse
  pub created_emitted : Bool
  pub in_progress_emitted : Bool
  pub finalized : Bool
  pub output_items_added : List (ℕ × String)
  pub text_content : List (String × String)
  pub function_arguments : List (String × String)
  pub tool_call_metadata : List (ℕ × (String × String))
  pub completed_response : Option ResponsesApiResponse
  pub buffered_events : List SseEvent

unfoldable pub new : ResponsesApiStreamBuffer
new = record {
  sequence_number = 0;
  item_ids = [];
  response_id = none;
  model = none;
  created_at = none;
  upstream_response_metadata = none;
  created_emitted = false;
  in_progress_emitted = false;
  finalized = false;
  output_items_added = [];
  text_content = [];
  function_arguments = [];
  tool_call_metadata = [];
  completed_response = none;
  buffered_events = [];
}

-- The type that `event_to_sse` writes into the event.
abbrev pub event_type : ResponsesApiStreamEvent → String
event_type (response_created r n) = "response.created"
event_type (response_in_progress r n) = "response.in_progress"
event_type (response_completed r n) = "response.completed"
event_type (response_output_item_added i t n) = "response.output_item.added"
event_type (response_output_item_done i t n) = "response.output_item.done"
event_type (response_output_text_delta i o c d l f n) = "response.output_text.delta"
event_type (response_output_text_done i o c t l n) = "response.output_text.done"
event_type (response_function_call_arguments_delta o i d n c m) =
    "response.function_call_arguments.delta"
event_type (response_function_call_arguments_done o i a n) = "response.function_call_arguments.done"
event_type _ = "unknown"

unfoldable pub event_to_sse :
    (ResponsesApiStreamEvent → String) → ResponsesApiStreamEvent → SseEvent
event_to_sse to_json event = record {
  data_field = some (to_json event);
  event = some (event_type event);
  raw_line = to_sse_string to_json event;
  sse_transformed_lines = to_sse_string to_json event;
  provider_stream_response = none;
}

-- The buffer in a method, and the events that the method has made.
pub record Work : Type 0 where
  pub buffer : ResponsesApiStreamBuffer
  pub events : List ResponsesApiStreamEvent

-- An event with the next sequence number.
unfoldable pub emit : (ℕ → ResponsesApiStreamEvent) → Work → Work
emit event w = record {
  buffer = record w.buffer { sequence_number = w.buffer.sequence_number + 1 };
  events = w.events ++ event w.buffer.sequence_number ∷ [];
}

abbrev pub or_default {ℓ} : {A : Type ℓ} → Option A → A → A
or_default none d = d
or_default (some a) d = a

-- The fields of the minimal response that do not depend on the buffer.
abbrev pub minimal_settings : String
minimal_settings =
    "\"error\":null,\"incomplete_details\":null,\"instructions\":null,\"usage\":null,\"parallel_tool_calls\":true,\"conversation\":null,\"previous_response_id\":null,\"tools\":[],\"tool_choice\":\"auto\",\"temperature\":1.0,\"top_p\":1.0,\"metadata\":{},\"truncation\":\"disabled\",\"max_output_tokens\":null,\"reasoning\":{\"effort\":null,\"summary\":null},\"store\":true,\"text\":{\"format\":{\"type\":\"text\"}},\"audio\":null,\"modalities\":null,\"service_tier\":\"auto\",\"background\":false,\"top_logprobs\":0,\"max_tool_calls\":null"

abbrev pub base_response :
    ResponsesApiStreamBuffer → Option ResponsesApiResponse → ResponseStatus → ResponsesApiResponse
base_response b (some upstream) status = record upstream { status = status }
base_response b none status = record {
  id = or_default b.response_id "";
  object = "response";
  created_at = or_default b.created_at 0;
  status = status;
  model = or_default b.model "unknown";
  output = [];
  settings = minimal_settings;
}

unfoldable pub build_response : ResponseStatus → ResponsesApiStreamBuffer → ResponsesApiResponse
build_response status b = base_response b b.upstream_response_metadata status

abbrev pub joined : Option String → String → String
joined none delta = delta
joined (some old) delta = old <> delta

abbrev pub accumulate : List (String × String) → String → String → List (String × String)
accumulate content item_id delta = insert content item_id (joined (get content item_id) delta)

module _ (o : Outside) where
  abbrev pub with_identity : Option String → ResponsesApiStreamBuffer → ResponsesApiStreamBuffer
  with_identity (some id) b = b
  with_identity none b = record b {
    response_id = some ("resp_" <> o.response_uuid);
    created_at = some o.now;
    model = some "unknown";
  }

  unfoldable pub emit_created : Work → Work
  emit_created w =
      let b = with_identity w.buffer.response_id w.buffer in
      let w' =
        emit (response_created (build_response ResponseStatus.in_progress b))
          (record w { buffer = b }) in
      if w.buffer.created_emitted
      then w
      else record w' { buffer = record w'.buffer { created_emitted = true } }

  unfoldable pub emit_in_progress : Work → Work
  emit_in_progress w =
      let w' = emit (response_in_progress (build_response ResponseStatus.in_progress w.buffer)) w in
      if w.buffer.in_progress_emitted
      then w
      else record w' { buffer = record w'.buffer { in_progress_emitted = true } }

  -- The lifecycle events that come before all others.
  unfoldable pub emit_prelude : Work → Work
  emit_prelude w = emit_in_progress (emit_created w)

  -- The identifier that `get_or_create_item_id` returns, and the buffer after it.
  abbrev pub item_id_for : ℕ → String → ResponsesApiStreamBuffer → String
  item_id_for output_index prefix b =
      or_default (get b.item_ids output_index) (prefix <> ("_" <> o.item_uuid))

  abbrev pub with_item_id :
      Option String → ℕ → String → ResponsesApiStreamBuffer → ResponsesApiStreamBuffer
  with_item_id (some id) output_index prefix b = b
  with_item_id none output_index prefix b = record b {
    item_ids = insert b.item_ids output_index (prefix <> ("_" <> o.item_uuid));
  }

  unfoldable pub get_or_create_item_id :
      ℕ → String → ResponsesApiStreamBuffer → ResponsesApiStreamBuffer
  get_or_create_item_id output_index prefix b =
      with_item_id (get b.item_ids output_index) output_index prefix b

  -- The event `response.output_item.added`, for an index that has none yet.
  abbrev pub add_item : Option String → ℕ → String → OutputItem → Work → Work
  add_item (some old) output_index item_id item w = w
  add_item none output_index item_id item w =
      emit (response_output_item_added output_index item) (record w {
        buffer = record w.buffer {
          output_items_added = insert w.buffer.output_items_added output_index item_id;
        };
      })

  abbrev pub text_item : String → OutputItem
  text_item item_id = output_message item_id OutputItemStatus.in_progress "assistant" []

  abbrev pub call_item : String → String × String → OutputItem
  call_item item_id (call_id, name) =
      output_function_call item_id OutputItemStatus.in_progress call_id (some name) (some "")

  unfoldable pub on_text_delta : ℕ → ℕ → String → List String → Option String → Work → Work
  on_text_delta output_index content_index delta logprobs obfuscation w =
      let item_id = item_id_for output_index "msg" w.buffer in
      let b = get_or_create_item_id output_index "msg" w.buffer in
      let w' =
        add_item (get b.output_items_added output_index) output_index item_id (text_item item_id)
          (record w { buffer = b }) in
      emit
        (response_output_text_delta item_id output_index content_index delta logprobs obfuscation)
        (record w' {
          buffer = record w'.buffer {
            text_content = accumulate w'.buffer.text_content item_id delta;
          };
        })

  abbrev pub with_metadata :
      Option String → Option String → ℕ → ResponsesApiStreamBuffer → ResponsesApiStreamBuffer
  with_metadata (some call_id) (some name) output_index b = record b {
    tool_call_metadata = insert b.tool_call_metadata output_index (call_id, name);
  }
  with_metadata _ _ output_index b = b

  unfoldable pub on_arguments_delta : ℕ → String → Option String → Option String → Work → Work
  on_arguments_delta output_index delta call_id name w =
      let item_id = item_id_for output_index "fc" w.buffer in
      let b =
        with_metadata call_id name output_index
          (get_or_create_item_id output_index "fc" w.buffer) in
      let call =
        or_default (get b.tool_call_metadata output_index)
          ("call_" <> o.added_call_uuid, "unknown") in
      let w' =
        add_item (get b.output_items_added output_index) output_index item_id
          (call_item item_id call) (record w { buffer = b }) in
      emit (λ n. response_function_call_arguments_delta output_index item_id delta n call_id name)
        (record w' {
          buffer = record w'.buffer {
            function_arguments = accumulate w'.buffer.function_arguments item_id delta;
          };
        })
