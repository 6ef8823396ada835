-- ===== src/Streaming/Provider.antt =====
-- From a line's event to the client's: providers/streaming_response.rs. Reading and printing JSON,
-- which serde_json does, are parameters.
use plano.Prelude.{
  Bool, true, false, not, ◌&&◌, Option, none, some, String, ◌<>◌, str_eq, if◌then◌else◌,
}
use plano.State.{Result, ok, err}
use plano.Providers.Api.{SupportedApisFromClient, SupportedUpstreamApis}
use plano.Streaming.Chat.{ChatCompletionsStreamResponse}
use plano.Streaming.Converse.{ConverseStreamEvent}
use plano.Streaming.ResponsesApi.{ResponsesApiStreamEvent}
use plano.Streaming.ResponsesApi
use plano.Streaming.Sse
use plano.Streaming.Sse.{
  MessagesStreamEvent, message_stop, ProviderStreamResponseType, messages_stream_event,
  chat_completions_stream_response, converse_stream_event, response_api_stream_event, SseEvent,
  is_done, Serde,
}
use plano.Streaming.Transforms.{
  TransformError, Clock, json_error, unsupported_content, invalid_tool_input, missing_field,
  unsupported_conversion,
}
use plano.Streaming.Transforms.ToChat.{messages_to_chat, converse_to_chat}
use plano.Streaming.Transforms.ToMessages.{chat_to_messages, converse_to_messages}
use plano.Streaming.Transforms.ToResponses.{chat_to_responses}

-- `serde_json` for the types of the streams, with the text of an error.
pub record Json : Type 0 where
  pub serde : Serde
  pub read_chat : String → Result String ChatCompletionsStreamResponse
  pub read_messages : String → Result String MessagesStreamEvent
  pub read_converse : String → Result String ConverseStreamEvent
  pub read_responses : String → Result String ResponsesApiStreamEvent
  pub print_chat : ChatCompletionsStreamResponse → String
  pub print_converse : ConverseStreamEvent → String
  pub print_responses : ResponsesApiStreamEvent → String

-- The text of a transform's error.
abbrev pub error_text : TransformError → String
error_text (json_error e) = "JSON serialization error: " <> e
error_text (unsupported_content e) = "Unsupported content type: " <> e
error_text invalid_tool_input = "Invalid tool input format"
error_text (missing_field e) = "Missing required field: " <> e
error_text (unsupported_conversion e) = "Unsupported conversion: " <> e

-- `try_into()?` after a parse or another transform
abbrev pub and_then :
    {A B : Type 0} → Result String A → (A → Result TransformError B) → Result String B
and_then (err e) f = err e
and_then (ok a) f = elim (f a) [ ok b ↦ ok b | err e ↦ err (error_text e) ]

abbrev pub wrap :
    {A : Type 0}
    → (A → ProviderStreamResponseType)
    → Result String A
    → Result String ProviderStreamResponseType
wrap f (ok a) = ok (f a)
wrap f (err e) = err e

unfoldable pub needs_buffering : SupportedApisFromClient → SupportedUpstreamApis → Bool
needs_buffering (SupportedApisFromClient.openai_chat_completions c)
      (SupportedUpstreamApis.openai_chat_completions u) =
    false
needs_buffering (SupportedApisFromClient.anthropic_messages_api c)
      (SupportedUpstreamApis.anthropic_messages_api u) =
    false
needs_buffering (SupportedApisFromClient.openai_responses_api c)
      (SupportedUpstreamApis.openai_responses_api u) =
    false
needs_buffering _ _ = true

abbrev pub converse_event_type : ConverseStreamEvent → String
converse_event_type (ConverseStreamEvent.message_start e) = "message_start"
converse_event_type (ConverseStreamEvent.content_block_start e) = "content_block_start"
converse_event_type (ConverseStreamEvent.content_block_delta e) = "content_block_delta"
converse_event_type (ConverseStreamEvent.content_block_stop e) = "content_block_stop"
converse_event_type (ConverseStreamEvent.message_stop e) = "message_stop"
converse_event_type (ConverseStreamEvent.metadata e) = "metadata"
converse_event_type (ConverseStreamEvent.internal_server_exception e) = "internal_server_exception"
converse_event_type (ConverseStreamEvent.model_stream_error_exception e) =
    "model_stream_error_exception"
converse_event_type (ConverseStreamEvent.service_unavailable_exception e) =
    "service_unavailable_exception"
converse_event_type (ConverseStreamEvent.throttling_exception e) = "throttling_exception"
converse_event_type (ConverseStreamEvent.validation_exception e) = "validation_exception"

module _ (json : Json) where
  -- `From<ConverseStreamEvent> for String`
  unfoldable pub converse_to_sse_string : ConverseStreamEvent → String
  converse_to_sse_string e =
      ("event: " <> (converse_event_type e <> "\n"))
      <> ("data: " <> (json.print_converse e <> "\n\n"))

  -- `From<ProviderStreamResponseType> for String`
  unfoldable pub response_to_string : ProviderStreamResponseType → String
  response_to_string (messages_stream_event e) = Sse.to_sse_string json.serde e
  response_to_string (converse_stream_event e) = converse_to_sse_string e
  response_to_string (response_api_stream_event e) =
      ResponsesApi.to_sse_string json.print_responses e
  response_to_string (chat_completions_stream_response c) =
      "data: " <> (json.print_chat c <> "\n\n")

  module _ (clock : Clock) where
    -- The match on the two protocols, for the data of a line.
    unfoldable pub read_response :
        SupportedUpstreamApis
        → SupportedApisFromClient
        → String
        → Result String ProviderStreamResponseType
    read_response (SupportedUpstreamApis.openai_chat_completions u)
          (SupportedApisFromClient.openai_chat_completions c) bytes =
        wrap chat_completions_stream_response (json.read_chat bytes)
    read_response (SupportedUpstreamApis.openai_chat_completions u)
          (SupportedApisFromClient.anthropic_messages_api c) bytes =
        wrap messages_stream_event (and_then (json.read_chat bytes) chat_to_messages)
    read_response (SupportedUpstreamApis.openai_chat_completions u)
          (SupportedApisFromClient.openai_responses_api c) bytes =
        wrap response_api_stream_event (and_then (json.read_chat bytes) chat_to_responses)
    read_response (SupportedUpstreamApis.openai_responses_api u)
          (SupportedApisFromClient.openai_responses_api c) bytes =
        wrap response_api_stream_event (json.read_responses bytes)
    read_response (SupportedUpstreamApis.anthropic_messages_api u)
          (SupportedApisFromClient.anthropic_messages_api c) bytes =
        wrap messages_stream_event (json.read_messages bytes)
    read_response (SupportedUpstreamApis.anthropic_messages_api u)
          (SupportedApisFromClient.openai_chat_completions c) bytes =
        wrap chat_completions_stream_response
          (and_then (json.read_messages bytes) (messages_to_chat clock))
    read_response (SupportedUpstreamApis.amazon_bedrock_converse_stream u)
          (SupportedApisFromClient.anthropic_messages_api c) bytes =
        wrap messages_stream_event
          (and_then (json.read_converse bytes) (converse_to_messages clock))
    read_response (SupportedUpstreamApis.amazon_bedrock_converse_stream u)
          (SupportedApisFromClient.openai_responses_api c) bytes =
        wrap response_api_stream_event (
          and_then (and_then (json.read_converse bytes) (converse_to_chat clock)) chat_to_responses)
    read_response _ _ bytes = err "Unsupported API combination for response transformation"

    abbrev pub is_messages_client : SupportedApisFromClient → Bool
    is_messages_client (SupportedApisFromClient.anthropic_messages_api c) = true
    is_messages_client _ = false

    -- `TryFrom<(&[u8], …)> for ProviderStreamResponseType`
    unfoldable pub provider_response :
        SupportedApisFromClient
        → SupportedUpstreamApis
        → String
        → Result String ProviderStreamResponseType
    provider_response client_api upstream_api bytes =
        if str_eq bytes "[DONE]" && is_messages_client client_api
        then ok (messages_stream_event message_stop)
        else read_response upstream_api client_api bytes

    abbrev pub is_event_only : SseEvent → Bool
    is_event_only e = elim e.event [
      | none ↦ false
      | some name ↦ elim e.data_field [ none ↦ true | some d ↦ false ]
    ]

    abbrev pub with_response :
        SseEvent → Result String ProviderStreamResponseType → Result String SseEvent
    with_response e (err text) = err text
    with_response e (ok response) = ok (record e {
      sse_transformed_lines = response_to_string response;
      provider_stream_response = some response;
    })

    abbrev pub with_line_data :
        SupportedApisFromClient
        → SupportedUpstreamApis
        → Option String
        → SseEvent
        → Result String SseEvent
    with_line_data client_api upstream_api none e = ok e
    with_line_data client_api upstream_api (some bytes) e =
        with_response e (provider_response client_api upstream_api bytes)

    -- The wire form of an event that has no data, where the protocols differ and where they match.
    abbrev pub buffered_lines : SupportedApisFromClient → SupportedUpstreamApis → String → String
    buffered_lines (SupportedApisFromClient.openai_chat_completions c)
          (SupportedUpstreamApis.anthropic_messages_api u) text =
        "\n"
    buffered_lines _ _ text = text

    abbrev pub passthrough_lines : SupportedApisFromClient → SupportedUpstreamApis → String → String
    passthrough_lines (SupportedApisFromClient.anthropic_messages_api c)
          (SupportedUpstreamApis.anthropic_messages_api u) text =
        ""
    passthrough_lines (SupportedApisFromClient.openai_responses_api c)
          (SupportedUpstreamApis.openai_responses_api u) text =
        ""
    passthrough_lines _ _ text = text

    abbrev pub event_only_lines : SupportedApisFromClient → SupportedUpstreamApis → String → String
    event_only_lines client_api upstream_api text =
        if needs_buffering client_api upstream_api
        then buffered_lines client_api upstream_api text
        else passthrough_lines client_api upstream_api text

    abbrev pub adjust :
        SupportedApisFromClient
        → SupportedUpstreamApis
        → Result String SseEvent
        → Result String SseEvent
    adjust client_api upstream_api (err text) = err text
    adjust client_api upstream_api (ok e) =
        if is_event_only e
        then ok (record e {
          sse_transformed_lines = event_only_lines client_api upstream_api e.sse_transformed_lines;
        })
        else ok e

    -- `TryFrom<(SseEvent, …)> for SseEvent`
    unfoldable pub transform_event :
        SupportedApisFromClient → SupportedUpstreamApis → SseEvent → Result String SseEvent
    transform_event client_api upstream_api e =
        if is_done e && not (is_messages_client client_api)
        then ok (record e { sse_transformed_lines = "data: [DONE]" })
        else adjust client_api upstream_api (with_line_data client_api upstream_api e.data_field e)
