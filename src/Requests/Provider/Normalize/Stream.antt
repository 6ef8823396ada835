-- ===== src/Requests/Provider/Normalize/Stream.antt =====
-- What an upstream for chat completions is told of the stream.
use plano.Prelude.{Bool, true, false, Option, none, some, ◌≡◌, refl, inl, inr, Bool-cases}
use plano.Providers.Id.{ProviderId}
use plano.Providers.Api.{SupportedUpstreamApis, OpenAiApi}
use plano.Requests.{
  StreamOptions, ChatCompletionsRequest, is_kimi_code_model, normalize_for_kimi_code_api,
}
use plano.Requests.FromMessages.ToConverse.{is_true}
use plano.Requests.Provider.Normalize.{
  is_xai, explicit_stream, usage_options, with_stream, with_usage, for_kimi, normalize_chat,
}

-- The stream options that are sent: none to Kimi's coding model; elsewhere the client's, and for a
-- stream without any a report of the usage.
abbrev pub sent_options : Bool → Bool → Option StreamOptions → Option StreamOptions
sent_options true streams given = none
sent_options false streams (some options) = some options
sent_options false true none = some (record { include_usage = some true })
sent_options false false none = none

usage_options-sent :
    (stream : Option Bool) (given : Option StreamOptions)
    → usage_options (explicit_stream stream) given ≡ sent_options false (is_true stream) given
usage_options-sent none none = refl
usage_options-sent none (some options) = refl
usage_options-sent (some true) none = refl
usage_options-sent (some true) (some options) = refl
usage_options-sent (some false) none = refl
usage_options-sent (some false) (some options) = refl

explicit-is_true : (stream : Option Bool) → explicit_stream stream ≡ some (is_true stream)
explicit-is_true none = refl
explicit-is_true (some b) = refl

for_kimi-sent :
    (req : ChatCompletionsRequest)
    → ((for_kimi (with_usage (with_stream req))).stream ≡ some (is_true req.stream))
      × ((for_kimi (with_usage (with_stream req))).stream_options
          ≡ sent_options (is_kimi_code_model req.model) (is_true req.stream) req.stream_options)
unfolding normalize_for_kimi_code_api
for_kimi-sent req = elim (Bool-cases (is_kimi_code_model req.model)) [
  | inl kimi ↦ rw kimi (explicit-is_true req.stream, refl)
  | inr other ↦
      rw other (explicit-is_true req.stream, usage_options-sent req.stream req.stream_options)
]

-- A request that is sent for chat completions says whether it streams, as the gateway itself reads the
-- client's request, and a stream without options asks for its usage, unless the model is Kimi's coding
-- model, which gets no options.
pub normalize_chat-sent :
    (provider : ProviderId) (api : OpenAiApi) (req : ChatCompletionsRequest)
    → let sent = normalize_chat provider (SupportedUpstreamApis.openai_chat_completions api) req in
      (sent.stream ≡ some (is_true req.stream))
      × (sent.stream_options
          ≡ sent_options (is_kimi_code_model req.model) (is_true req.stream) req.stream_options)
normalize_chat-sent provider api req = elim (Bool-cases (is_xai provider)) [
  | inl xai ↦ rw xai (for_kimi-sent (record req { web_search_options = none }))
  | inr other ↦ rw other (for_kimi-sent req)
]
