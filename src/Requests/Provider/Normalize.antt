-- ===== src/Requests/Provider/Normalize.antt =====
-- `normalize_for_upstream` of providers/request.rs.
pub mod Twice
pub mod Stream
use plano.Prelude.{
  Bool, true, false, Option, none, some, [], ◌∷◌, String, ◌<>◌, contains, if◌then◌else◌,
}
use plano.State
use plano.State.{Result, ok, err, MessageRole, InputItem, InputParam}
use plano.Providers.Id.{ProviderId}
use plano.Providers.Api.{SupportedUpstreamApis}
use plano.Requests.{
  StreamOptions, ChatCompletionsRequest, normalize_for_kimi_code_api, is_kimi_code_model,
}
use plano.Requests.Messages.{MessagesRequest}
use plano.Requests.Responses.{ResponsesApiRequest}
use plano.Requests.Provider.{
  ProviderRequestType, ProviderRequestError, chat_completions_request, messages_request,
  bedrock_converse, bedrock_converse_stream, responses_api_request, refused,
}

abbrev pub is_xai : ProviderId → Bool
is_xai ProviderId.xai = true
is_xai _ = false

abbrev pub is_chatgpt : ProviderId → Bool
is_chatgpt ProviderId.chatgpt = true
is_chatgpt _ = false

-- xAI's live search is dropped.
abbrev pub for_xai : ProviderId → ChatCompletionsRequest → ChatCompletionsRequest
for_xai provider req = if is_xai provider then record req { web_search_options = none } else req

abbrev pub explicit_stream : Option Bool → Option Bool
explicit_stream none = some false
explicit_stream (some b) = some b

abbrev pub with_stream : ChatCompletionsRequest → ChatCompletionsRequest
with_stream req = record req { stream = explicit_stream req.stream }

-- A stream reports its usage, where the client did not choose.
abbrev pub usage_options : Option Bool → Option StreamOptions → Option StreamOptions
usage_options (some true) none = some (record { include_usage = some true })
usage_options stream options = options

abbrev pub with_usage : ChatCompletionsRequest → ChatCompletionsRequest
with_usage req = record req { stream_options = usage_options req.stream req.stream_options }

abbrev pub for_kimi : ChatCompletionsRequest → ChatCompletionsRequest
for_kimi req = if is_kimi_code_model req.model then normalize_for_kimi_code_api req else req

abbrev pub normalize_chat :
    ProviderId → SupportedUpstreamApis → ChatCompletionsRequest → ChatCompletionsRequest
normalize_chat provider (SupportedUpstreamApis.openai_chat_completions api) req =
    for_kimi (with_usage (with_stream (for_xai provider req)))
normalize_chat provider _ req = req

-- Clearing `thinking` where it is not set leaves it, so the test before it is left out.
abbrev pub normalize_messages : SupportedUpstreamApis → MessagesRequest → MessagesRequest
normalize_messages (SupportedUpstreamApis.openai_chat_completions api) req =
    if is_kimi_code_model req.model then record req { thinking = none } else req
normalize_messages _ req = req

unfoldable pub chatgpt_base_instructions : String
chatgpt_base_instructions =
    "You are Codex, based on GPT-5. You are running as a coding agent in the Codex CLI on a user's computer."

abbrev pub chatgpt_instructions : Option String → String
chatgpt_instructions none = chatgpt_base_instructions
chatgpt_instructions (some existing) =
    if contains existing chatgpt_base_instructions
    then existing
    else chatgpt_base_instructions <> ("\n\n" <> existing)

abbrev pub as_list : InputParam → InputParam
as_list (InputParam.text t) = InputParam.items (
    InputItem.message (record { role = MessageRole.user; content = State.MessageContent.text t })
    ∷ [])
as_list (InputParam.single_item item) = InputParam.items (item ∷ [])
as_list (InputParam.items items) = InputParam.items items

abbrev pub instructed : ResponsesApiRequest → ResponsesApiRequest
instructed req = record req {
  instructions = some (chatgpt_instructions req.instructions);
  store = some false;
}

-- The request as it is left, and whether it may be sent.
abbrev pub Normalized : Type 0
Normalized = ProviderRequestType × Result ProviderRequestError (Unit {0})

abbrev pub chatgpt_stream : Option Bool → ResponsesApiRequest → Normalized
chatgpt_stream (some false) req = (
  responses_api_request req,
  refused
      "Non-streaming requests are not supported for the ChatGPT Codex provider. Set stream=true or omit the stream field.",
)
chatgpt_stream _ req =
    (responses_api_request (record req { stream = some true; input = as_list req.input }), ok tt)

abbrev pub normalize_responses : ProviderId → ResponsesApiRequest → Normalized
normalize_responses provider req =
    if is_chatgpt provider
    then chatgpt_stream req.stream (instructed req)
    else (responses_api_request req, ok tt)

unfoldable pub normalize_for_upstream :
    ProviderId → SupportedUpstreamApis → ProviderRequestType → Normalized
normalize_for_upstream provider api (chat_completions_request req) =
    (chat_completions_request (normalize_chat provider api req), ok tt)
normalize_for_upstream provider api (messages_request req) =
    (messages_request (normalize_messages api req), ok tt)
normalize_for_upstream provider api (responses_api_request req) = normalize_responses provider req
normalize_for_upstream provider api (bedrock_converse req) = (bedrock_converse req, ok tt)
normalize_for_upstream provider api (bedrock_converse_stream req) =
    (bedrock_converse_stream req, ok tt)
