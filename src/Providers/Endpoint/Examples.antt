-- ===== src/Providers/Endpoint/Examples.antt =====
-- The theorems about endpoints at concrete requests.
use plano.Prelude.{false, none, refl, inl, String}
use plano.Providers.Id.{azure_openai}
use plano.Providers.Api.{
  chat_completions, SupportedApisFromClient, client_from_endpoint, openai_from_endpoint,
}
use plano.Providers.Compatible.{compatible_api_for_client}
use plano.Providers.Endpoint.{Target, target_endpoint_for_provider}
use plano.Providers.Endpoint.Family.{EndsIn, path_of}
use plano.Providers.Endpoint.Agreement.{target-EndsIn}

abbrev request : String → Target
request path = record {
  request_path = path;
  model_id = "gpt-4o";
  is_streaming = false;
  base_url_path_prefix = none;
  use_unversioned_paths = false;
}

target-EndsIn_example :
    EndsIn
      (target_endpoint_for_provider
        (SupportedApisFromClient.openai_chat_completions chat_completions)
        azure_openai
        (request "/v1/chat/completions"))
      (path_of (
        compatible_api_for_client azure_openai
          (SupportedApisFromClient.openai_chat_completions chat_completions)
          false))
unfolding client_from_endpoint openai_from_endpoint
target-EndsIn_example =
    target-EndsIn azure_openai (SupportedApisFromClient.openai_chat_completions chat_completions)
      (request "/v1/chat/completions") refl (inl refl)
