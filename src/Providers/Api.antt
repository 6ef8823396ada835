-- ===== src/Providers/Api.antt =====
-- The APIs of clients and of upstreams, and their endpoints: `ApiDefinition` in
-- crates/hermesllm/src/apis, and `from_endpoint` of clients/endpoints.rs.
pub mod Paths
use plano.Prelude.{
  Bool, true, false, Option, none, some, List, [], ◌∷◌, ◌++◌, map, String, str_eq, ends_with,
  if◌then◌else◌,
}

abbrev pub chat_completions_path : String
chat_completions_path = "/v1/chat/completions"

abbrev pub openai_responses_api_path : String
openai_responses_api_path = "/v1/responses"

abbrev pub messages_path : String
messages_path = "/v1/messages"

pub data OpenAiApi : Type 0 where
  chat_completions responses : OpenAiApi

pub data AnthropicApi : Type 0 where
  messages : AnthropicApi

pub data AmazonBedrockApi : Type 0 where
  converse converse_stream : AmazonBedrockApi

unfoldable pub openai_endpoint : OpenAiApi → String
openai_endpoint chat_completions = chat_completions_path
openai_endpoint responses = openai_responses_api_path

unfoldable pub openai_from_endpoint : String → Option OpenAiApi
openai_from_endpoint endpoint =
    if str_eq endpoint chat_completions_path
    then some chat_completions
    else if str_eq endpoint openai_responses_api_path
    then some responses
    else none

unfoldable pub anthropic_endpoint : AnthropicApi → String
anthropic_endpoint messages = messages_path

unfoldable pub anthropic_from_endpoint : String → Option AnthropicApi
anthropic_from_endpoint endpoint = if str_eq endpoint messages_path then some messages else none

unfoldable pub bedrock_endpoint : AmazonBedrockApi → String
bedrock_endpoint converse = "/model/{modelId}/converse"
bedrock_endpoint converse_stream = "/model/{modelId}/converse-stream"

unfoldable pub bedrock_from_endpoint : String → Option AmazonBedrockApi
unfolding ends_with
bedrock_from_endpoint endpoint =
    if ends_with endpoint "/converse"
    then some converse
    else if ends_with endpoint "/converse-stream"
    then some converse_stream
    else none

pub data SupportedApisFromClient : Type 0 where
  openai_chat_completions : OpenAiApi → SupportedApisFromClient
  anthropic_messages_api : AnthropicApi → SupportedApisFromClient
  openai_responses_api : OpenAiApi → SupportedApisFromClient

pub data SupportedUpstreamApis : Type 0 where
  openai_chat_completions : OpenAiApi → SupportedUpstreamApis
  anthropic_messages_api : AnthropicApi → SupportedUpstreamApis
  amazon_bedrock_converse : AmazonBedrockApi → SupportedUpstreamApis
  amazon_bedrock_converse_stream : AmazonBedrockApi → SupportedUpstreamApis
  openai_responses_api : OpenAiApi → SupportedUpstreamApis

-- `SupportedAPIsFromClient::from_endpoint`
unfoldable pub client_from_endpoint : String → Option SupportedApisFromClient
client_from_endpoint endpoint = elim (openai_from_endpoint endpoint) [
  | some responses ↦ some (SupportedApisFromClient.openai_responses_api responses)
  | some chat_completions ↦ some (SupportedApisFromClient.openai_chat_completions chat_completions)
  | none ↦ elim (anthropic_from_endpoint endpoint) [
    | some api ↦ some (SupportedApisFromClient.anthropic_messages_api api)
    | none ↦ none
  ]
]

-- `SupportedAPIsFromClient::endpoint`
unfoldable pub client_endpoint : SupportedApisFromClient → String
client_endpoint (SupportedApisFromClient.openai_chat_completions api) = openai_endpoint api
client_endpoint (SupportedApisFromClient.anthropic_messages_api api) = anthropic_endpoint api
client_endpoint (SupportedApisFromClient.openai_responses_api api) = openai_endpoint api

-- `SupportedUpstreamAPIs::from_endpoint`
unfoldable pub upstream_from_endpoint : String → Option SupportedUpstreamApis
upstream_from_endpoint endpoint = elim (openai_from_endpoint endpoint) [
  | some responses ↦ some (SupportedUpstreamApis.openai_responses_api responses)
  | some chat_completions ↦ some (SupportedUpstreamApis.openai_chat_completions chat_completions)
  | none ↦ elim (anthropic_from_endpoint endpoint) [
    | some api ↦ some (SupportedUpstreamApis.anthropic_messages_api api)
    | none ↦ elim (bedrock_from_endpoint endpoint) [
      | some converse ↦ some (SupportedUpstreamApis.amazon_bedrock_converse converse)
      | some converse_stream ↦
          some (SupportedUpstreamApis.amazon_bedrock_converse_stream converse_stream)
      | none ↦ none
    ]
  ]
]

unfoldable pub supported_endpoints : List String
unfolding openai_endpoint anthropic_endpoint
supported_endpoints =
    map openai_endpoint (chat_completions ∷ responses ∷ [])
    ++ map anthropic_endpoint (messages ∷ [])

unfoldable pub identify_provider : String → Option String
identify_provider endpoint = elim (openai_from_endpoint endpoint) [
  | some api ↦ some "openai"
  | none ↦ elim (anthropic_from_endpoint endpoint) [ some api ↦ some "anthropic" | none ↦ none ]
]
