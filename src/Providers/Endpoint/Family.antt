-- ===== src/Providers/Endpoint/Family.antt =====
-- The path that a request is sent to belongs to the API that the request is translated to.
mod Paths
use package.text.Mathlib.Text.{starts_with}
use package.text.Mathlib.TextLemmas
use plano.Prelude.{
  Bool, true, false, not, ◌&&◌, Option, none, some, String, ◌<>◌, ◌≡◌, ◌≢◌, ◌⊎◌, ◌∙◌, inl, inr,
  refl, ap, sym, arith, is_empty, trim_slashes, trim_start_slashes, if◌then◌else◌, eq_iff, str_eq,
  Bool-cases,
}
use plano.Providers.Id.{
  ProviderId, openai, groq, gemini, anthropic, azure_openai, xai, zhipu, qwen, amazon_bedrock,
  chatgpt, vercel,
}
use plano.Providers.Api.{
  chat_completions, responses, messages, SupportedApisFromClient, SupportedUpstreamApis,
  client_from_endpoint, openai_from_endpoint, anthropic_from_endpoint,
}
use plano.Providers.Compatible.{converse_upstream, compatible_api_for_client}
use plano.Providers.Endpoint.{
  converse_path, Target, prefix_for, joined, build_endpoint, is_versioned, route_by_provider,
  route_messages, serves_responses, target_endpoint_for_provider,
}
use Paths.{lead, build_endpoint-lead, trim_model, trim-slash, trim-model_path}

-- The path of an upstream API, behind its prefix.
abbrev pub path_of : SupportedUpstreamApis → String
path_of (SupportedUpstreamApis.openai_chat_completions a) = "chat/completions"
path_of (SupportedUpstreamApis.anthropic_messages_api a) = "messages"
path_of (SupportedUpstreamApis.amazon_bedrock_converse a) = "/converse"
path_of (SupportedUpstreamApis.amazon_bedrock_converse_stream a) = "/converse-stream"
path_of (SupportedUpstreamApis.openai_responses_api a) = "responses"

-- `s` ends in the API's path, up to the version that Azure wants.
pub record EndsIn (s path : String) : Type 0 where
  pub front : String
  pub query : String
  pub parts : s ≡ front <> (path <> query)
  pub plain : (query ≡ "") ⊎ (query ≡ "?api-version=2025-01-01-preview")

-- The three paths that a client can use.
pub data Request (path : String) (api : SupportedApisFromClient) : Type 0 where
  chat :
      path ≡ "/v1/chat/completions"
      → api ≡ SupportedApisFromClient.openai_chat_completions chat_completions
      → Request path api
  respond :
      path ≡ "/v1/responses"
      → api ≡ SupportedApisFromClient.openai_responses_api responses
      → Request path api
  message :
      path ≡ "/v1/messages"
      → api ≡ SupportedApisFromClient.anthropic_messages_api messages
      → Request path api

pub request_of :
    (path : String) (api : SupportedApisFromClient)
    → client_from_endpoint path ≡ some api
    → Request path api
unfolding client_from_endpoint openai_from_endpoint anthropic_from_endpoint
request_of path api h = elim (Bool-cases (str_eq path "/v1/chat/completions")) [
  | inl is_chat ↦ chat ((eq_iff path "/v1/chat/completions").0 is_chat) (ground arith)
  | inr not_chat ↦ elim (Bool-cases (str_eq path "/v1/responses")) [
    | inl is_responses ↦ respond ((eq_iff path "/v1/responses").0 is_responses) (ground arith)
    | inr not_responses ↦ elim (Bool-cases (str_eq path "/v1/messages")) [
      | inl is_messages ↦ message ((eq_iff path "/v1/messages").0 is_messages) (ground arith)
      | inr not_messages ↦ absurd (ground arith)
    ]
  ]
]

build-EndsIn :
    (t : Target) (provider_prefix suffix path : String)
    → trim_start_slashes suffix ≡ path
    → EndsIn (build_endpoint t provider_prefix suffix) path
build-EndsIn t provider_prefix suffix path h = record {
  front = lead (prefix_for t provider_prefix);
  query = "";
  parts =
      build_endpoint-lead t provider_prefix suffix
      ∙ ap (λ s. lead (prefix_for t provider_prefix) <> s) (h ∙ sym (TextLemmas.append-nil path));
  plain = inl refl;
}

-- A path behind a model's name.
model-EndsIn :
    (t : Target) (provider_prefix model path : String)
    → EndsIn (build_endpoint t provider_prefix ("/model/" <> (model <> path))) path
model-EndsIn t provider_prefix model path =
    let front = lead (prefix_for t provider_prefix) in
    record {
      front = front <> ("model/" <> model);
      query = "";
      parts =
          build_endpoint-lead t provider_prefix ("/model/" <> (model <> path))
          ∙ ap (λ s. front <> s) (trim-model_path (model <> path))
          ∙ (simp (TextLemmas.append_assoc, TextLemmas.append-nil));
      plain = inl refl;
    }

abbrev version : String
version = "?api-version=2025-01-01-preview"

azure-EndsIn :
    (t : Target) (path : String)
    → trim_start_slashes (path <> version) ≡ path <> version
    → EndsIn
        (build_endpoint t "/openai/deployments" ("/" <> (t.model_id <> ("/" <> (path <> version)))))
        path
azure-EndsIn t path h =
    let before = lead (prefix_for t "/openai/deployments") in
    let (front, e) = trim_model t.model_id (path <> version) h in
    record {
      front = before <> front;
      query = version;
      parts =
          build_endpoint-lead t "/openai/deployments"
            ("/" <> (t.model_id <> ("/" <> (path <> version))))
          ∙ ap (λ s. before <> s) (trim-slash (t.model_id <> ("/" <> (path <> version))) ∙ e)
          ∙ sym (TextLemmas.append_assoc before front (path <> version));
      plain = inr refl;
    }

default-EndsIn :
    (t : Target) (suffix path : String)
    → trim_start_slashes suffix ≡ path
    → EndsIn
        (if t.use_unversioned_paths
          then build_endpoint t "" suffix
          else build_endpoint t "/v1" suffix)
        path
default-EndsIn t suffix path h =
    elim t.use_unversioned_paths
      as (λ b.
        EndsIn (if b then build_endpoint t "" suffix else build_endpoint t "/v1" suffix) path) [
          | true ↦ build-EndsIn t "" suffix path h
          | false ↦ build-EndsIn t "/v1" suffix path h
        ]

bedrock-EndsIn :
    (t : Target)
    → EndsIn (build_endpoint t "" (converse_path t)) (path_of (converse_upstream t.is_streaming))
bedrock-EndsIn t =
    elim t.is_streaming
      as (λ b.
        EndsIn
          (build_endpoint t ""
            ("/model/" <> (t.model_id <> (if b then "/converse-stream" else "/converse"))))
          (path_of (converse_upstream b))) [
            | true ↦ model-EndsIn t "" t.model_id "/converse-stream"
            | false ↦ model-EndsIn t "" t.model_id "/converse"
          ]

-- Groq is sent the client's own path.
pub groq-EndsIn :
    (t : Target)
    → t.request_path ≡ "/v1/chat/completions"
    → EndsIn (build_endpoint t "/openai" t.request_path) "chat/completions"
unfolding trim_start_slashes
groq-EndsIn t h =
    let before = lead (prefix_for t "/openai") in
    record {
      front = before <> "v1/";
      query = "";
      parts =
          build_endpoint-lead t "/openai" t.request_path
          ∙ ap (λ s. before <> trim_start_slashes s) h
          ∙ sym (TextLemmas.append_assoc before "v1/" "chat/completions");
      plain = inl refl;
    }

abbrev pub is_groq : ProviderId → Bool
is_groq groq = true
is_groq _ = false

if_not {ℓ} : {A : Type ℓ} (b : Bool) (x y : A) → (if not b then x else (if b then x else y)) ≡ x
if_not true x y = refl
if_not false x y = refl

module _ (t : Target) (versioned : is_versioned t ≡ true) where
  pub chat_route :
      (p : ProviderId)
      → is_groq p ≡ false
      → EndsIn (route_by_provider p t "/chat/completions") (
          path_of (
            compatible_api_for_client p
              (SupportedApisFromClient.openai_chat_completions chat_completions)
              t.is_streaming))
  unfolding route_by_provider compatible_api_for_client trim_start_slashes
  chat_route groq h = absurd (cc)
  chat_route zhipu h =
      rw versioned (build-EndsIn t "/api/paas/v4" "/chat/completions" "chat/completions" refl)
  chat_route qwen h =
      rw versioned
        (build-EndsIn t "/compatible-mode/v1" "/chat/completions" "chat/completions" refl)
  chat_route gemini h =
      rw versioned (build-EndsIn t "/v1beta/openai" "/chat/completions" "chat/completions" refl)
  chat_route azure_openai h = rw versioned (azure-EndsIn t "chat/completions" refl)
  chat_route amazon_bedrock h = rw versioned (bedrock-EndsIn t)
  chat_route p h = default-EndsIn t "/chat/completions" "chat/completions" refl

  pub responses_route :
      (p : ProviderId)
      → is_groq p ≡ false
      → EndsIn
          (target_endpoint_for_provider
            (SupportedApisFromClient.openai_responses_api responses)
            p
            t)
          (path_of (
            compatible_api_for_client p
              (SupportedApisFromClient.openai_responses_api responses)
              t.is_streaming))
  unfolding route_by_provider compatible_api_for_client trim_start_slashes
      target_endpoint_for_provider
  responses_route groq h = absurd (cc)
  responses_route zhipu h =
      rw versioned (build-EndsIn t "/api/paas/v4" "/chat/completions" "chat/completions" refl)
  responses_route qwen h =
      rw versioned
        (build-EndsIn t "/compatible-mode/v1" "/chat/completions" "chat/completions" refl)
  responses_route gemini h =
      rw versioned (build-EndsIn t "/v1beta/openai" "/chat/completions" "chat/completions" refl)
  responses_route azure_openai h = rw versioned (azure-EndsIn t "chat/completions" refl)
  responses_route amazon_bedrock h = rw versioned (bedrock-EndsIn t)
  responses_route openai h = default-EndsIn t "/responses" "responses" refl
  responses_route xai h = default-EndsIn t "/responses" "responses" refl
  responses_route chatgpt h = default-EndsIn t "/responses" "responses" refl
  responses_route vercel h = default-EndsIn t "/responses" "responses" refl
  responses_route p h = default-EndsIn t "/chat/completions" "chat/completions" refl

  pub messages_route :
      (p : ProviderId)
      → EndsIn (route_messages p t) (
          path_of (
            compatible_api_for_client p
              (SupportedApisFromClient.anthropic_messages_api messages)
              t.is_streaming))
  unfolding route_messages compatible_api_for_client trim_start_slashes
  messages_route anthropic = build-EndsIn t "/v1" "/messages" "messages" refl
  messages_route vercel = build-EndsIn t "/v1" "/messages" "messages" refl
  messages_route amazon_bedrock = rw (versioned, if_not) (bedrock-EndsIn t)
  messages_route p = build-EndsIn t "/v1" "/chat/completions" "chat/completions" refl
