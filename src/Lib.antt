-- ===== src/Lib.antt =====
-- plano: the logic of the model gateway, modelled and verified.
--
-- The program is a proxy between agents and model providers. crates/hermesllm translates requests
-- and streams between the APIs of the providers, crates/common holds the configuration that both
-- gateways share, and crates/brightstaff routes requests, keeps conversations and reads signals from
-- them.
--
-- Streaming: crates/hermesllm/src/apis/streaming_shapes, crates/hermesllm/src/transforms/response_streaming
--   and crates/hermesllm/src/providers/streaming_response.rs. A chunk of bytes is cut into lines
--   (Streaming.Lines, sse.rs), each line is an event that is transformed for the client
--   (Streaming.Provider), the processor keeps a line whose JSON is incomplete (Streaming.Processor,
--   sse_chunk_processor.rs), and a buffer makes of the events what the client is sent
--   (Streaming.Buffers).
--   Streaming.Sse has the events of sse.rs and the types of apis/anthropic.rs that they carry,
--   Streaming.Chat the chunks of apis/openai.rs, Streaming.Converse the events of
--   apis/amazon_bedrock.rs, and Streaming.ResponsesApi the events of apis/openai_responses.rs.
--   Streaming.Transforms has a module per target of a transform, and Streaming.Transforms.Deltas what a
--   reader is told by the events of each protocol, by which the transforms are compared.
--   Streaming.Anthropic has the state of anthropic_streaming_buffer.rs and the functions on it
--   (ensure_message_started and the rest), and Streaming.Anthropic.Events has add_transformed_event and
--   to_bytes; each arm of the source is a function of its own. Streaming.Anthropic.Protocol is the
--   protocol as an automaton, with runs of the buffer as an inductive family.
--   Streaming.Responses is responses_api_streaming_buffer.rs, with the ends of a response in Finalize and
--   the handling of an event in Events; a method works on the buffer and on the events that it makes,
--   which are rendered at its end. Lifecycle has the streams that the protocol allows, Runs the runs of
--   the buffer as an inductive family, and Delivery the transforms and the buffer together.
--   Parameters are what serde_json does (printing and reading events, reading a model's name), the
--   clock, fresh identifiers, the order in which a HashMap is walked, and from_utf8, as_bytes and
--   to_lowercase of the standard library. The set of opened blocks is a list that is read by
--   membership; the index of a block or of an output stands for its 32 bits, so a cast between i32 and
--   u32 is the identity. A sum of two u32 counts wraps, as in a release build. The sequence number of a
--   Responses event, an i32 in the source, is a natural number: they differ after 2 ^ 31 events of one
--   stream. The settings of a
--   response that the buffer only copies are kept as their JSON text. Not modelled: the log lines, the
--   content of blocks that are only handed through, and the frames of an AWS event stream.
--
-- Router: crates/brightstaff/src/router. Router.Trim is trim_middle_utf8 of orchestrator_model_v1.rs over
--   the bytes of a text; its loops recur on the index or on the rounds that are left, so no fuel is
--   needed. Router.Conversation is the part of generate_request that chooses the messages. The token
--   estimate of the system prompt is a parameter. Router.Ranking is rank_models of model_metrics.rs; the
--   numbers f64 are a parameter with what the sort relies on, and the stable sort is by insertion. Not
--   modelled: the text of the prompt, the parsing of its answer, and the fetching of metrics.
--
-- Providers: crates/hermesllm. Providers.Id is providers/id.rs (ProviderId, its names, and the models that
--   the registry file has, with the registry as a parameter), Providers.Api the ApiDefinition instances
--   and from_endpoint, Providers.Compatible is compatible_api_for_client, and Providers.Endpoint is
--   target_endpoint_for_provider of clients/endpoints.rs with its two closures. The variant Plano of the
--   source is plano_id. Lower-casing is written for the characters that can make one of the names.
--
-- LlmProviders: crates/common/src/llm_providers.rs and crates/common/src/routing.rs. LlmProviders
--   has get (as lookup) and TryFrom, its two passes as functions on an association list; what
--   try_from only copies is a type parameter, and the model registry is that of Providers.Id.
--   LlmProviders.Hints is get_llm_provider with the hint of a request. Not modelled: to_models and
--   the log lines.
--
-- Ratelimit: crates/common/src/ratelimit.rs. Ratelimit has RatelimitMap::new and check_limit, with their
--   matches as functions by clauses. The limiters of the crate governor are a parameter; a check names
--   its time and returns the limiter it changed, and the datastore is an association list with nested
--   lists for the nested maps. The panic of get_quota on a limit without tokens is none.
--
-- State: crates/brightstaff/src/state, crates/hermesllm/src/transforms/response/output_to_input.rs, and the
--   match of resolve_conversation_state in crates/brightstaff/src/handlers/llm/mod.rs. State has the items
--   and the trait StateStorage, with what its clients rely on as IsReliable; State.Memory is memory.rs,
--   State.Outputs the conversion of outputs, and State.History on_complete with the turns of a
--   conversation as an inductive family. A put that the source spawns is one step at the end of the
--   response. Not modelled: how the processor captures a response, and the PostgreSQL storage.
--
-- Signals: crates/brightstaff/src/signals. Signals.Loops is detect_retry and detect_parameter_drift
--   of execution/loops.rs, and Signals.Loops.Oscillation is detect_oscillation and
--   deduplicate_patterns; a list of the calls from an index on stands for the index, and the fuel of
--   the outer loops is the number of calls, since a round takes at least one. JSON maps are a type
--   with an equality, both parameters. Not modelled: reading a call from JSON, and the texts of the
--   signals.
--
-- Completions: crates/hermesllm/src/transforms/response, with transforms/lib.rs. Completions has the types
--   of complete responses, and Completions.Transforms their translations between the Messages API, chat
--   completions, and from Converse to chat completions. Reading the arguments of a call as JSON is a parameter; a JSON
--   value is kept as the text that prints it, so printing one is the identity. Not modelled: the
--   translation to the Responses API, and that of Converse to the Messages API with its nested blocks.
--
-- Requests: crates/hermesllm/src/transforms/request, crates/hermesllm/src/providers/request.rs, and
--   the request types of crates/hermesllm/src/apis. Requests has the types of apis/openai.rs with
--   the adjustments on a chat completions request, Requests.Messages those of apis/anthropic.rs,
--   Requests.Converse those of apis/amazon_bedrock.rs and Requests.Responses those of
--   apis/openai_responses.rs; a request has all fields of its struct. Requests.FromMessages, with
--   ToConverse below it, is from_anthropic.rs; Requests.FromChat, with ToConverse below it,
--   Requests.FromResponses and Requests.ResponsesTools are from_openai.rs. Requests.Provider is
--   ProviderRequestType with its conversion for an upstream, Reading and SetMessages the trait
--   ProviderRequest on the requests of each API, and Normalize is normalize_for_upstream. A loop
--   that pushes onto the messages keeps them with the newest first where it changes the last one. A
--   JSON value and a float are kept as the text that prints them; reading and printing values is
--   serde_json, the parameters read_value and Json. Not modelled: the parsing of the bytes of a
--   request and the printing of one, which are serde_json, and the log lines.
--
-- Session: crates/brightstaff/src/session_cache. Session is memory.rs over an interface to the crate lru;
--   a call names its time. A look-up of the crate changes the order of use, which the interface returns.
--
-- Numbers are natural numbers; sums and products of sizes stay below the range of usize for texts that
-- fit in memory, and saturating subtraction is the subtraction of natural numbers.
pub mod Prelude
pub mod Streaming
pub mod Router
pub mod Providers
pub mod LlmProviders
pub mod Ratelimit
pub mod State
pub mod Signals
pub mod Session
pub mod Completions
pub mod Requests
