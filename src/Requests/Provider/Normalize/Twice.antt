-- ===== src/Requests/Provider/Normalize/Twice.antt =====
-- What the normalization of a request leaves to do.
use plano.Prelude.{
  Bool, true, false, Option, none, some, String, ◌<>◌, contains, contains_prefix, contains_self,
  starts_with-append, ◌≡◌, refl, ap, inl, inr, Bool-cases,
}
use plano.State.{ok, InputParam}
use plano.Providers.Id.{ProviderId}
use plano.Providers.Api.{SupportedUpstreamApis}
use plano.Requests.{
  StreamOptions, ChatCompletionsRequest, is_kimi_code_model, normalize_for_kimi_code_api,
}
use plano.Requests.Messages.{MessagesRequest}
use plano.Requests.Responses.{ResponsesApiRequest}
use plano.Requests.Provider.{
  ProviderRequestType, chat_completions_request, messages_request, bedrock_converse,
  bedrock_converse_stream, responses_api_request,
}
use plano.Requests.Provider.Normalize.{
  is_xai, explicit_stream, usage_options, normalize_chat, normalize_messages,
  chatgpt_base_instructions, chatgpt_instructions, as_list, chatgpt_stream, normalize_responses,
  instructed, normalize_for_upstream,
}

-- The instructions hold the base instructions, so they are not put in front again.
chatgpt_instructions_twice :
    (given : Option String)
    → chatgpt_instructions (some (chatgpt_instructions given)) ≡ chatgpt_instructions given
chatgpt_instructions_twice none = rw (contains_self chatgpt_base_instructions) refl
chatgpt_instructions_twice (some existing) =
    elim (Bool-cases (contains existing chatgpt_base_instructions)) [
      | inl there ↦ rw (there, there) refl
      | inr missing ↦
          rw
            (
              missing,
              contains_prefix (chatgpt_base_instructions <> ("\n\n" <> existing))
                  chatgpt_base_instructions
                  (starts_with-append chatgpt_base_instructions ("\n\n" <> existing)),
            )
            refl
    ]

explicit_stream_twice : (s : Option Bool) → explicit_stream (explicit_stream s) ≡ explicit_stream s
explicit_stream_twice none = refl
explicit_stream_twice (some b) = refl

usage_options_twice :
    (s : Option Bool) (o : Option StreamOptions)
    → usage_options s (usage_options s o) ≡ usage_options s o
usage_options_twice (some true) none = refl
usage_options_twice (some true) (some o) = refl
usage_options_twice (some false) o = refl
usage_options_twice none o = refl

as_list_twice : (input : InputParam) → as_list (as_list input) ≡ as_list input
as_list_twice (InputParam.text t) = refl
as_list_twice (InputParam.single_item item) = refl
as_list_twice (InputParam.items items) = refl

normalize_chat_twice :
    (provider : ProviderId) (api : SupportedUpstreamApis) (req : ChatCompletionsRequest)
    → normalize_chat provider api (normalize_chat provider api req)
      ≡ normalize_chat provider api req
unfolding normalize_for_kimi_code_api
normalize_chat_twice provider (SupportedUpstreamApis.openai_chat_completions api) req =
    elim (Bool-cases (is_xai provider)) [
      | inl xai ↦ elim (Bool-cases (is_kimi_code_model req.model)) [
        | inl kimi ↦ rw (xai, kimi, kimi, explicit_stream_twice req.stream) refl
        | inr other ↦
            rw
              (
                xai,
                other,
                other,
                explicit_stream_twice req.stream,
                usage_options_twice (explicit_stream req.stream) req.stream_options,
              )
              refl
      ]
      | inr not_xai ↦ elim (Bool-cases (is_kimi_code_model req.model)) [
        | inl kimi ↦ rw (not_xai, kimi, kimi, explicit_stream_twice req.stream) refl
        | inr other ↦
            rw
              (
                not_xai,
                other,
                other,
                explicit_stream_twice req.stream,
                usage_options_twice (explicit_stream req.stream) req.stream_options,
              )
              refl
      ]
    ]
normalize_chat_twice provider _ req = refl

normalize_messages_twice :
    (api : SupportedUpstreamApis) (req : MessagesRequest)
    → normalize_messages api (normalize_messages api req) ≡ normalize_messages api req
normalize_messages_twice (SupportedUpstreamApis.openai_chat_completions api) req =
    elim (Bool-cases (is_kimi_code_model req.model)) [
      | inl kimi ↦ rw (kimi, kimi) refl
      | inr other ↦ rw (other, other) refl
    ]
normalize_messages_twice _ req = refl

chatgpt_twice :
    (api : SupportedUpstreamApis) (stream : Option Bool) (req : ResponsesApiRequest)
    → normalize_for_upstream ProviderId.chatgpt api
        (chatgpt_stream stream (instructed (record req { stream = stream }))).0
      ≡ chatgpt_stream stream (instructed (record req { stream = stream }))
unfolding normalize_for_upstream
chatgpt_twice api (some false) req = rw (chatgpt_instructions_twice req.instructions) refl
chatgpt_twice api (some true) req =
    rw (chatgpt_instructions_twice req.instructions, as_list_twice req.input) refl
chatgpt_twice api none req =
    rw (chatgpt_instructions_twice req.instructions, as_list_twice req.input) refl

normalize_responses_twice :
    (provider : ProviderId) (api : SupportedUpstreamApis) (req : ResponsesApiRequest)
    → normalize_for_upstream provider api (normalize_responses provider req).0
      ≡ normalize_responses provider req
unfolding normalize_for_upstream
normalize_responses_twice ProviderId.chatgpt api req = chatgpt_twice api req.stream req
normalize_responses_twice _ api req = refl

-- A request that is normalized for a provider and an upstream is left as it is when it is normalized
-- for them again, and what could not be sent still cannot.
pub normalize-normalize :
    (provider : ProviderId) (api : SupportedUpstreamApis) (req : ProviderRequestType)
    → normalize_for_upstream provider api (normalize_for_upstream provider api req).0
      ≡ normalize_for_upstream provider api req
unfolding normalize_for_upstream
normalize-normalize provider api (chat_completions_request req) =
    ap (λ r. (chat_completions_request r, ok tt)) (normalize_chat_twice provider api req)
normalize-normalize provider api (messages_request req) =
    ap (λ r. (messages_request r, ok tt)) (normalize_messages_twice api req)
normalize-normalize provider api (bedrock_converse req) = refl
normalize-normalize provider api (bedrock_converse_stream req) = refl
normalize-normalize provider api (responses_api_request req) =
    normalize_responses_twice provider api req
