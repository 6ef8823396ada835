-- ===== src/Providers/Compatible.antt =====
-- The API that a provider is spoken to by: `compatible_api_for_client` of providers/id.rs.
use plano.Prelude.{Bool, if◌then◌else◌}
use plano.Providers.Id.{ProviderId, openai, anthropic, xai, amazon_bedrock, chatgpt, vercel}
use plano.Providers.Api.{
  chat_completions, responses, messages, converse, converse_stream, SupportedApisFromClient,
  SupportedUpstreamApis,
}

abbrev pub chat_upstream : SupportedUpstreamApis
chat_upstream = SupportedUpstreamApis.openai_chat_completions chat_completions

abbrev pub messages_upstream : SupportedUpstreamApis
messages_upstream = SupportedUpstreamApis.anthropic_messages_api messages

abbrev pub responses_upstream : SupportedUpstreamApis
responses_upstream = SupportedUpstreamApis.openai_responses_api responses

abbrev pub converse_upstream : Bool → SupportedUpstreamApis
converse_upstream is_streaming =
    if is_streaming
    then SupportedUpstreamApis.amazon_bedrock_converse_stream converse_stream
    else SupportedUpstreamApis.amazon_bedrock_converse converse

unfoldable pub compatible_api_for_client :
    ProviderId → SupportedApisFromClient → Bool → SupportedUpstreamApis
compatible_api_for_client anthropic (SupportedApisFromClient.anthropic_messages_api a) s =
    messages_upstream
compatible_api_for_client anthropic (SupportedApisFromClient.openai_chat_completions a) s =
    chat_upstream
compatible_api_for_client anthropic (SupportedApisFromClient.openai_responses_api a) s =
    chat_upstream
compatible_api_for_client vercel (SupportedApisFromClient.anthropic_messages_api a) s =
    messages_upstream
compatible_api_for_client vercel (SupportedApisFromClient.openai_chat_completions a) s =
    chat_upstream
compatible_api_for_client vercel (SupportedApisFromClient.openai_responses_api a) s =
    responses_upstream
compatible_api_for_client openai (SupportedApisFromClient.openai_responses_api a) s =
    responses_upstream
compatible_api_for_client xai (SupportedApisFromClient.openai_responses_api a) s =
    responses_upstream
compatible_api_for_client chatgpt (SupportedApisFromClient.openai_responses_api a) s =
    responses_upstream
compatible_api_for_client amazon_bedrock _ s = converse_upstream s
compatible_api_for_client _ _ s = chat_upstream
